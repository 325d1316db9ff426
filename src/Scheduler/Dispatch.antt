-- ===== src/Scheduler/Dispatch.antt =====
-- `dispatchLocked`, `firstFileWaiter`, `pruneCanceledWaiters` and `popWaiter` of
-- bsw/ecual/comif/scheduler.go. Each round of the `for` grants one lane, so the difference of
-- `capacity` and `inFlight` bounds the rounds, and the loop ends by its test where that is used up.
use tdl.Prelude.{ℕ, zero, suc, ◌+◌, ◌-◌, true, Option, none, some, List, [], ◌∷◌, if◌then◌else◌}
use tdl.Scheduler.State.{Waiter, Scheduler, set_task, set_waiter, set_dc, tasks_of, flight_of}

-- pruneCanceledWaiters
unfoldable pub prune_queue : (ℕ → Waiter) → List ℕ → List ℕ
prune_queue waiter [] = []
prune_queue waiter (w ∷ ws) =
    let pruned = prune_queue waiter ws in if (waiter w).canceled then pruned else w ∷ ws

-- popWaiter: the waiter, and the queue behind it.
unfoldable pub pop_queue : (ℕ → Waiter) → List ℕ → Option ℕ × List ℕ
pop_queue waiter [] = (none, [])
pop_queue waiter (w ∷ ws) =
    let later = pop_queue waiter ws in if (waiter w).canceled then later else (some w, ws)

abbrev pub set_queue : ℕ → List ℕ → Scheduler → Scheduler
set_queue p q s = set_task p (record (s.tasks p) { waiters = q }) s

-- firstFileWaiter at a task whose pruned queue is given; `later` is the rest of the scan.
-- A nil waiter, with a state or without, is `none`: the caller returns on it.
unfoldable pub serve :
    ℕ → List ℕ → Scheduler × Option (ℕ × ℕ) → Scheduler → Scheduler × Option (ℕ × ℕ)
unfolding pop_queue
serve p [] later s = later
serve p (w ∷ ws) later s =
    let popped = pop_queue s.waiter (w ∷ ws) in
    (set_queue p popped.1 s, elim popped.0 [ none ↦ none | some v ↦ some (p, v) ])

-- firstFileWaiter over the tasks of a data centre
unfoldable pub first_file_waiter : List ℕ → Scheduler → Scheduler × Option (ℕ × ℕ)
unfolding serve
first_file_waiter [] s = (s, none)
first_file_waiter (p ∷ ps) s =
    let pruned = prune_queue s.waiter (s.tasks p).waiters in
    serve p pruned (first_file_waiter ps (set_queue p pruned s)) s

-- The body of the `for` once a waiter is found.
unfoldable pub grant : ℕ → ℕ → ℕ → Scheduler → Scheduler
grant d p w s =
    let t = s.tasks p in
    let v = s.waiter w in
    let lent = set_task p (record t { in_flight = t.in_flight + 1 }) s in
    let told = set_waiter w (record v { granted = true; ready = true }) lent in
    set_dc d (record { tasks = tasks_of (s.dcs d); in_flight = flight_of (s.dcs d) + 1 }) told

unfoldable pub grant_loop : ℕ → ℕ → Scheduler → Scheduler
grant_loop zero d s = s
grant_loop (suc rounds) d s =
    let found = first_file_waiter (tasks_of (s.dcs d)) s in
    elim found.1 [ none ↦ found.0 | some (p, w) ↦ grant_loop rounds d (grant d p w found.0) ]

-- dispatchLocked
unfoldable pub dispatch : ℕ → Scheduler → Scheduler
unfolding grant_loop
dispatch d s = elim (s.dcs d) [
  | none ↦ s
  | some dc ↦ elim dc.tasks [ [] ↦ s | _ ∷ _ ↦ grant_loop (s.capacity - dc.in_flight) d s ]
]
