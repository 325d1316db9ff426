-- ===== src/Downloads/Stale.antt =====
-- The revision of an aria2 record of bsw/cdd/taskhub as a fence: download_state.go, aria2_control.go and
-- aria2_observation.go, when another change came first.
use Prim.Native.String.{String}
use text.Mathlib.Text.{◌==◌ as str_eq}
use tdl.Prelude.{
  ℕ, suc, ◌+◌, ◌%◌, ◌^◌, ◌<◌, ◌≡◌, ◌≢◌, sym, ap, ◌∙◌, ◌⊎◌, inl, inr, Bool, false, not, ◌||◌, none,
  some, ltb, ◌==◌, arith, Bool-cases,
}
use tdl.Downloads.{normalize, can_follow, Download, next_revision, Observation, report}
use tdl.Downloads.Control.{
  deadline_expired, not_reserved, reserved, reserve_control, finish_control, apply_observed,
  applied_stamp,
}
use tdl.Downloads.Final.{Change, Change-Accepted}

-- One change of a stored record: a report or a refresh, an observation, a reservation of control or its end.
pub data Edit (lower : String → String) (d d' : Download) : Type 0 where
  changed : Change lower d d' → Edit lower d d'
  applied :
      (now created : ℕ) (observed : Download)
      → apply_observed lower now created observed d ≡ some d'
      → Edit lower d d'
  leased :
      (asked now until : ℕ) (expected : Download)
      → reserve_control asked now until expected d ≡ reserved d'
      → Edit lower d d'
  ended :
      (now : ℕ) (lease : Download) (status : String) (remove : Bool)
      → finish_control lower now lease status remove d ≡ some d'
      → Edit lower d d'

-- A number of changes.
pub data Edits (lower : String → String) (d : Download) : ℕ → Download → Type 0 where
  untouched : Edits lower d 0 d
  edited :
      {n : ℕ} {d' d'' : Download}
      → Edits lower d n d'
      → Edit lower d' d''
      → Edits lower d (suc n) d''

apply_observed-revision :
    (lower : String → String) (now created : ℕ) (observed d d' : Download)
    → apply_observed lower now created observed d ≡ some d'
    → d'.revision ≡ next_revision d.revision
unfolding apply_observed
apply_observed-revision lower now created observed d d' e =
    elim (Bool-cases (
      d.deleted
      || not (d.revision == observed.revision)
      || ltb now d.control_until
      || not (str_eq d.task_id observed.task_id)
      || not (can_follow (normalize lower d.status) (normalize lower observed.status)))) [
        | inl stale ↦ absurd (ground (arith, e, stale))
        | inr fresh ↦
            let now_is : record d {
              status = observed.status;
              state = normalize lower observed.status;
              total = observed.total;
              completed = observed.completed;
              message = observed.message;
              revision = next_revision observed.revision;
              stamp = applied_stamp now created observed d.stamp;
            }
                ≡ d' =
              ground (arith, e, fresh) in
            let same : d.revision ≡ observed.revision = ground (arith, fresh) in
            sym (ap (λ (x : Download). x.revision) now_is) ∙ ap next_revision (sym same)
      ]

reserve_control-revision :
    (asked now until : ℕ) (expected d d' : Download)
    → reserve_control asked now until expected d ≡ reserved d'
    → d'.revision ≡ next_revision d.revision
unfolding reserve_control
reserve_control-revision asked now until expected d d' e = ground (arith, e)

finish_control-revision :
    (lower : String → String) (now : ℕ) (lease : Download) (status : String) (remove : Bool)
    (d d' : Download)
    → finish_control lower now lease status remove d ≡ some d'
    → d'.revision ≡ next_revision d.revision
unfolding finish_control
finish_control-revision lower now lease status remove d d' e = ground (arith, e)

Edit-revision :
    (lower : String → String) (d d' : Download)
    → Edit lower d d'
    → d'.revision ≡ next_revision d.revision
Edit-revision lower d d' (changed change) = (Change-Accepted lower d d' change).revision_is
Edit-revision lower d d' (applied now created observed e) =
    apply_observed-revision lower now created observed d d' e
Edit-revision lower d d' (leased asked now until expected e) =
    reserve_control-revision asked now until expected d d' e
Edit-revision lower d d' (ended now lease status remove e) =
    finish_control-revision lower now lease status remove d d' e

add_one : (r n : ℕ) → ((r + n) % 2 ^ 64 + 1) % 2 ^ 64 ≡ (r + suc n) % 2 ^ 64
add_one r n = omega arith

Edits-revision :
    (lower : String → String) (d : Download) (n : ℕ) (d' : Download)
    → d.revision < 2 ^ 64
    → Edits lower d n d'
    → d'.revision ≡ (d.revision + n) % 2 ^ 64
Edits-revision lower d _ _ small untouched = omega (arith, small)
Edits-revision lower d _ d'' small (edited {n = n} {d' = d'} path edit) =
    let ih = Edits-revision lower d n d' small path in
    Edit-revision lower d' d'' edit ∙ (ap next_revision ih ∙ add_one d.revision n)

moved_on : (r n : ℕ) → r < 2 ^ 64 → 0 < n → n < 2 ^ 64 → (r + n) % 2 ^ 64 ≢ r
moved_on r n small some_n few e = omega (arith, small, some_n, few, e)

-- After one or more changes of a record that stays stored, fewer than 2^64, each a report, a refresh, an
-- observation, a reservation of control or its end: a report, an observation, a reservation and an end of
-- control that were prepared with the revision before those changes all leave the record as it is, whatever
-- they carry.
pub report-stale :
    (lower : String → String) (n : ℕ) (d d' old : Download) (seen : Observation)
    (asked now until created : ℕ) (status : String) (remove : Bool)
    → old.revision ≡ d.revision
    → d.revision < 2 ^ 64
    → 0 < n
    → n < 2 ^ 64
    → Edits lower d n d'
    → (report lower now seen old.revision d' ≡ none)
      × (apply_observed lower now created old d' ≡ none)
      × ((reserve_control asked now until old d' ≡ deadline_expired)
          ⊎ (reserve_control asked now until old d' ≡ not_reserved))
      × (finish_control lower now old status remove d' ≡ none)
unfolding report apply_observed reserve_control finish_control
report-stale lower n d d' old seen asked now until created status remove same small some_n few
      path =
    let law = Edits-revision lower d n d' small path in
    let apart : (d'.revision == old.revision) ≡ false =
      ground (arith, law, same, moved_on d.revision n small some_n few) in
    (
      ground (arith, apart),
      ground (arith, apart),
      elim (Bool-cases (ltb asked until)) [
        | inl ahead ↦ inr (ground (arith, apart, ahead))
        | inr past ↦ inl (ground (arith, past))
      ],
      ground (arith, apart),
    )
