-- ===== src/Downloads/Local.antt =====
-- Updates of bsw/cdd/taskhub/local_update.go on a stored record, one after another.
use Prim.Native.String.{String}
use tdl.Prelude.{
  ◌≡◌, refl, subst, inl, inr, Bool, true, false, Option, none, some, arith, Bool-cases,
  Option-cases,
}
use tdl.Downloads.Final.{can_follow_refl, can_follow_trans}
use tdl.Downloads.{normalize, can_follow, Download, next_revision, update_local}

-- How an update ends: an error for a change of state that is not allowed, no change, or a change that is
-- allowed, with the next revision, the state of its status and the stamp of before.
data Updated (lower : String → String) (change : Download → Option Download) (d : Download)
    : Option (Bool × Download) → Type 0 where
  refused :
      (d' : Download)
      → change d ≡ some d'
      → can_follow d.state (normalize lower d'.status) ≡ false
      → Updated lower change d none
  kept : change d ≡ none → Updated lower change d (some (false, d))
  changed :
      (d' e : Download)
      → change d ≡ some d'
      → can_follow d.state e.state ≡ true
      → e.state ≡ normalize lower d'.status
      → (e.status ≡ d'.status) × (e.revision ≡ next_revision d.revision) × (e.stamp ≡ d.stamp)
      → Updated lower change d (some (true, e))

update_local-Updated :
    (lower : String → String) (change : Download → Option Download) (d : Download)
    → Updated lower change d (update_local lower change d)
unfolding update_local
update_local-Updated lower change d = elim (Option-cases (change d)) [
  | inl same ↦ rw (same, update_local) (kept same)
  | inr (d', new) ↦ elim (Bool-cases (can_follow d.state (normalize lower d'.status))) [
    | inr bad ↦ rw (new, bad, update_local) (refused d' new bad)
    | inl good ↦
        rw (new, good, update_local)
          (changed d'
            (record d' {
              state = normalize lower d'.status;
              revision = next_revision d.revision;
              stamp = d.stamp;
            })
            new good refl (refl, refl, refl))
  ]
]

-- Updates one after another, each with its own callback; those that are refused leave the record.
pub data LocalHistory (lower : String → String) (d : Download) : Download → Type 0 where
  unchanged : LocalHistory lower d d
  then_update :
      {d' d'' : Download} (change : Download → Option Download) (b : Bool)
      → LocalHistory lower d d'
      → update_local lower change d' ≡ some (b, d'')
      → LocalHistory lower d d''

follows :
    (lower : String → String) (change : Download → Option Download) (d d' : Download) (b : Bool)
    (r : Option (Bool × Download))
    → Updated lower change d r
    → r ≡ some (b, d')
    → can_follow d.state d'.state ≡ true
follows lower change d d' b _ (refused _ _ _) e = absurd (ground (arith, e))
follows lower change d d' b _ (kept _) e =
    let this : d ≡ d' = ground (arith, e) in
    subst (λ (z : Download). can_follow d.state z.state ≡ true) this (can_follow_refl d.state)
follows lower change d d' b _ (changed _ w _ good _ _) e =
    let this : w ≡ d' = ground (arith, e) in
    subst (λ (z : Download). can_follow d.state z.state ≡ true) this good

-- Whatever the callbacks of updates do to a local record, one after another: its state may follow the one at
-- the start, so that a removed download stays removed and a complete one is complete or removed.
pub LocalHistory-can_follow :
    (lower : String → String) (d d' : Download)
    → LocalHistory lower d d'
    → can_follow d.state d'.state ≡ true
LocalHistory-can_follow lower d _ unchanged = can_follow_refl d.state
LocalHistory-can_follow lower d d'' (then_update {d' = d'} change b path e) =
    can_follow_trans d.state d'.state d''.state (LocalHistory-can_follow lower d d' path) (
      follows lower change d' d'' b (update_local lower change d')
        (update_local-Updated lower change d') e)
