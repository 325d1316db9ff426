-- ===== src/Downloads/Final.antt =====
-- The changes of an aria2 record in bsw/cdd/taskhub/download_state.go one after another: which states it takes.
use Prim.Native.String.{String}
use text.Mathlib.Text.{◌==◌ as str_eq}
use tdl.Prelude.{
  ℕ, suc, ◌≡◌, refl, sym, ap, subst, ◌⊎◌, inl, inr, true, false, not, ◌||◌, some, if◌then◌else◌,
  ltb, ◌==◌, arith, Bool-cases,
}
use tdl.Downloads.{
  DownloadState, normalize, rank, same_state, complete, can_follow, Download, next_revision,
  Observation, report, Refresh, given, without_state, merge_state,
}

-- One change of a stored record.
pub data Change (lower : String → String) (d d' : Download) : Type 0 where
  reported :
      (now : ℕ) (seen : Observation) (revision : ℕ)
      → report lower now seen revision d ≡ some d'
      → Change lower d d'
  refreshed : (u : Refresh) → merge_state lower u d ≡ some d' → Change lower d d'

-- A number of changes.
pub data History (lower : String → String) (d : Download) : ℕ → Download → Type 0 where
  start : History lower d 0 d
  then_one :
      {n : ℕ} {d' d'' : Download}
      → History lower d n d'
      → Change lower d' d''
      → History lower d (suc n) d''

-- What one change guarantees.
pub record Accepted (lower : String → String) (d d' : Download) : Type 0 where
  pub follows : can_follow (normalize lower d.status) (normalize lower d'.status) ≡ true
  pub state_is : d'.state ≡ normalize lower d'.status
  pub revision_is : d'.revision ≡ next_revision d.revision

follow_ranks :
    (x y z : ℕ)
    → (if x == y
        then true
        else if y == 6
        then false
        else if x == 5
        then false
        else if x == 3
        then y == 5
        else true)
      ≡ true
    → (if y == z
        then true
        else if z == 6
        then false
        else if y == 5
        then false
        else if y == 3
        then z == 5
        else true)
      ≡ true
    → (if x == z
        then true
        else if z == 6
        then false
        else if x == 5
        then false
        else if x == 3
        then z == 5
        else true)
      ≡ true
follow_ranks x y z h k = ground (arith, h, k)

pub can_follow_trans :
    (a b c : DownloadState) → can_follow a b ≡ true → can_follow b c ≡ true → can_follow a c ≡ true
unfolding can_follow
can_follow_trans a b c h k = follow_ranks (rank a) (rank b) (rank c) h k

pub can_follow_refl : (a : DownloadState) → can_follow a a ≡ true
unfolding can_follow
can_follow_refl a = ground arith

report-Accepted :
    (lower : String → String) (now : ℕ) (seen : Observation) (revision : ℕ) (d d' : Download)
    → report lower now seen revision d ≡ some d'
    → Accepted lower d d'
unfolding report
report-Accepted lower now seen revision d d' e =
    elim (Bool-cases (
      d.deleted
      || not (str_eq d.task_id seen.task_id)
      || not (d.revision == revision)
      || ltb now d.control_until)) [
        | inl stale ↦ absurd (ground (arith, e, stale))
        | inr fresh ↦
            elim (Bool-cases
              (can_follow (normalize lower d.status) (normalize lower seen.status))) [
                | inr bad ↦ absurd (ground (arith, e, fresh, bad))
                | inl good ↦
                    let now_is : record d {
                      status = seen.status;
                      state = normalize lower seen.status;
                      total = seen.total;
                      completed = seen.completed;
                      message = seen.message;
                      revision = next_revision revision;
                      stamp =
                          if same_state (normalize lower seen.status) complete
                          then d.stamp
                          else now;
                    }
                        ≡ d' =
                      ground (arith, e, fresh, good) in
                    let same_revision : d.revision ≡ revision = ground (arith, fresh) in
                    subst (Accepted lower d) now_is (record {
                      follows = good;
                      state_is = refl;
                      revision_is = ap next_revision (sym same_revision);
                    })
              ]
      ]

merge_state-Accepted :
    (lower : String → String) (u : Refresh) (d d' : Download)
    → merge_state lower u d ≡ some d'
    → Accepted lower d d'
unfolding merge_state
merge_state-Accepted lower u d d' e =
    let v = if str_eq u.status "" then without_state u d else u in
    elim (Bool-cases (can_follow (normalize lower d.status) (normalize lower v.status))) [
      | inr bad ↦ absurd (ground (arith, e, bad))
      | inl good ↦
          let now_is : record d {
            status = v.status;
            state = normalize lower v.status;
            total = given v.total d.total;
            completed = given v.completed d.completed;
            message = given v.message d.message;
            revision = next_revision d.revision;
          }
              ≡ d' =
            ground (arith, e, good) in
          subst (Accepted lower d) now_is
            (record { follows = good; state_is = refl; revision_is = refl })
    ]

pub Change-Accepted :
    (lower : String → String) (d d' : Download) → Change lower d d' → Accepted lower d d'
Change-Accepted lower d d' (reported now seen revision e) =
    report-Accepted lower now seen revision d d' e
Change-Accepted lower d d' (refreshed u e) = merge_state-Accepted lower u d d' e

-- After any number of reports and refreshes that were accepted, the state of a record may follow the one at
-- the start: a removed download stays removed, a complete one is complete or removed, and a known state does
-- not become unknown. After the first change the stored state is that of the stored status.
pub History-can_follow :
    (lower : String → String) (d : Download) (n : ℕ) (d' : Download)
    → History lower d n d'
    → (can_follow (normalize lower d.status) (normalize lower d'.status) ≡ true)
      × ((n ≡ 0) ⊎ (d'.state ≡ normalize lower d'.status))
History-can_follow lower d _ _ start = (can_follow_refl (normalize lower d.status), inl refl)
History-can_follow lower d _ d'' (then_one {n = n} {d' = d'} path change) =
    let step = Change-Accepted lower d' d'' change in
    let (before, _) = History-can_follow lower d n d' path in
    (
      can_follow_trans (normalize lower d.status) (normalize lower d'.status)
          (normalize lower d''.status) before step.follows,
      inr step.state_is,
    )
