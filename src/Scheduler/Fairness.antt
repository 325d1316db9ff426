-- ===== src/Scheduler/Fairness.antt =====
-- What `dispatchLocked` of bsw/ecual/comif/scheduler.go does with the lanes of a data centre: the
-- capacity, the idle lanes and the order of service.
use tdl.Prelude.{
  ℕ, ◌+◌, ◌≤◌, ◌≡◌, refl, ap, ◌∙◌, ◌⊎◌, inl, inr, Option, none, some, List, [], ◌∷◌, if◌then◌else◌,
  arith, ℕ_discrete, List-cases,
}
use tdl.Scheduler.State.{Waiter, TaskState, Scheduler, flight_of, tasks_of}
use tdl.Scheduler.Invariant.Grants.{first_file_waiter-empty, first_file_waiter-head}
use tdl.Scheduler.Dispatch.{prune_queue, set_queue, first_file_waiter, grant}

-- No request waits for a task of the list.
abbrev pub AreIdle : (ℕ → TaskState) → List ℕ → Type 0
AreIdle tasks [] = Unit {0}
AreIdle tasks (p ∷ ps) = ((tasks p).waiters ≡ []) × AreIdle tasks ps

grant-tasks_of : (d p w : ℕ) (s : Scheduler) → tasks_of ((grant d p w s).dcs d) ≡ tasks_of (s.dcs d)
unfolding grant
grant-tasks_of d p w s = ground arith

-- What `rounds` rounds do to a data centre.
abbrev Served : ℕ → ℕ → Scheduler → Scheduler → Type 0
Served rounds d s t =
    (flight_of (t.dcs d) ≤ flight_of (s.dcs d) + rounds)
    × ((flight_of (t.dcs d) ≡ flight_of (s.dcs d) + rounds) ⊎ AreIdle t.tasks (tasks_of (t.dcs d)))

-- The oldest live request of a queue, and of the oldest file that has one.
first_live : (ℕ → Waiter) → List ℕ → Option ℕ
first_live waiter [] = none
first_live waiter (w ∷ ws) =
    let later = first_live waiter ws in if (waiter w).canceled then later else some w

pub oldest : (ℕ → Waiter) → (ℕ → TaskState) → List ℕ → Option (ℕ × ℕ)
unfolding first_live
oldest waiter tasks [] = none
oldest waiter tasks (p ∷ ps) = elim (first_live waiter (tasks p).waiters) [
  | none ↦ oldest waiter tasks ps
  | some w ↦ some (p, w)
]

first_live-prune :
    (waiter : ℕ → Waiter) (ws : List ℕ)
    → first_live waiter ws ≡ elim (prune_queue waiter ws) [ [] ↦ none | w ∷ _ ↦ some w ]
unfolding first_live prune_queue
first_live-prune waiter [] = refl
first_live-prune waiter (w ∷ ws) = ground (arith, first_live-prune waiter ws)

-- A task whose queue has no live request may as well have an empty one.
oldest-set_queue :
    (s : Scheduler) (p : ℕ) (ps : List ℕ)
    → first_live s.waiter (s.tasks p).waiters ≡ none
    → oldest s.waiter (set_queue p [] s).tasks ps ≡ oldest s.waiter s.tasks ps
unfolding oldest
oldest-set_queue s p [] e = refl
oldest-set_queue s p (q ∷ qs) e = elim (ℕ_discrete q p) [
  | yes same ↦
      let emptied : first_live s.waiter ((set_queue p [] s).tasks q).waiters ≡ none =
        rw same (ground arith) in
      let none_here : first_live s.waiter (s.tasks q).waiters ≡ none = rw same e in
      rw (emptied, oldest) (rw (none_here, oldest) (oldest-set_queue s p qs e))
  | no other ↦
      let kept : ((set_queue p [] s).tasks q).waiters ≡ (s.tasks q).waiters = ground arith in
      rw (kept, oldest) (ground (arith, oldest-set_queue s p qs e))
]

-- `firstFileWaiter` finds the oldest live request of the oldest file that has one.
pub first_file_waiter-oldest :
    (ps : List ℕ) (s : Scheduler) → (first_file_waiter ps s).1 ≡ oldest s.waiter s.tasks ps
unfolding oldest
first_file_waiter-oldest [] s = unfold first_file_waiter in refl
first_file_waiter-oldest (p ∷ ps) s =
    let live = first_live-prune s.waiter (s.tasks p).waiters in
    elim (List-cases (prune_queue s.waiter (s.tasks p).waiters)) [
      | inl empty ↦
          let none_here : first_live s.waiter (s.tasks p).waiters ≡ none =
            ground (arith, live, empty) in
          ap (λ r. r.1) (first_file_waiter-empty s p ps empty)
          ∙ first_file_waiter-oldest ps (set_queue p [] s)
          ∙ rw (none_here, oldest) (oldest-set_queue s p ps none_here)
      | inr (w, ws, found) ↦
          let here : first_live s.waiter (s.tasks p).waiters ≡ some w =
            ground (arith, live, found) in
          ap (λ r. r.1) (first_file_waiter-head s p ps w ws found) ∙ rw (here, oldest) refl
    ]
