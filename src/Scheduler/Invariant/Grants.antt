-- ===== src/Scheduler/Invariant/Grants.antt =====
-- The invariant at the loop of `dispatchLocked` of bsw/ecual/comif/scheduler.go.
use tdl.Prelude.{
  ℕ, zero, suc, ◌+◌, ◌-◌, ◌≤◌, ◌<◌, ◌≡◌, ◌≢◌, refl, sym, ap, ◌∙◌, ◌⊎◌, inl, inr, true, false,
  Option, some, List, [], ◌∷◌, arith, ℕ_discrete, Bool-cases, Option-cases, List-cases,
}
use tdl.Prelude.Sums.{sum_below, sum_below-eq, sum_below-change}
use tdl.Scheduler.State.{Waiter, TaskState, Scheduler, flight_of, tasks_of, update}
use tdl.Scheduler.Dispatch.{
  serve, prune_queue, pop_queue, set_queue, first_file_waiter, grant, grant_loop, dispatch,
}
use tdl.Scheduler.Invariant.{waiting, Calls, permit, lane, active_bit, QueueOk, Listed, Inv}

pub QueueOk-weaken :
    (waiter : ℕ → Waiter) (c : Calls) (n p lo hi : ℕ) (ws : List ℕ)
    → lo ≤ hi
    → QueueOk waiter c n p hi ws
    → QueueOk waiter c n p lo ws
QueueOk-weaken waiter c n p lo hi [] l q = tt
QueueOk-weaken waiter c n p lo hi (w ∷ ws) l q = (omega arith, q.1, q.2, q.3, q.4, q.5)

QueueOk-prune :
    (waiter : ℕ → Waiter) (c : Calls) (n p lo : ℕ) (ws : List ℕ)
    → QueueOk waiter c n p lo ws
    → QueueOk waiter c n p lo (prune_queue waiter ws)
unfolding prune_queue
QueueOk-prune waiter c n p lo [] q = tt
QueueOk-prune waiter c n p lo (w ∷ ws) q = elim (Bool-cases (waiter w).canceled) [
  | inl e ↦ rw e (
      QueueOk-weaken waiter c n p lo (suc w) _ (omega arith)
        (QueueOk-prune waiter c n p (suc w) ws q.5))
  | inr e ↦ rw e q
]

-- A pruned queue is empty, or its head can be granted.
pub prune_queue-head :
    (waiter : ℕ → Waiter) (ws : List ℕ) (w : ℕ) (rest : List ℕ)
    → prune_queue waiter ws ≡ w ∷ rest
    → (waiter w).canceled ≡ false
unfolding prune_queue
prune_queue-head waiter [] w rest e = cc
prune_queue-head waiter (v ∷ ws) w rest e = elim (Bool-cases (waiter v).canceled) [
  | inl gone ↦ prune_queue-head waiter ws w rest (rw gone at e)
  | inr kept ↦ let same = rw kept at e in ground arith
]

-- Tasks that differ in queues and references at most.
pub record SameLanes (tasks tasks' : ℕ → TaskState) : Type 0 where
  dc : (x : ℕ) → (tasks' x).dc ≡ (tasks x).dc
  in_flight : (x : ℕ) → (tasks' x).in_flight ≡ (tasks x).in_flight
  active : (x : ℕ) → (tasks' x).active ≡ (tasks x).active

pub Listed-same :
    (tasks tasks' : ℕ → TaskState) (n d : ℕ) (ps : List ℕ)
    → ((x : ℕ) → (tasks' x).dc ≡ (tasks x).dc)
    → ((x : ℕ) → (tasks' x).active ≡ (tasks x).active)
    → Listed tasks n d ps
    → Listed tasks' n d ps
Listed-same tasks tasks' n d [] dc active l = tt
Listed-same tasks tasks' n d (p ∷ ps) dc active l =
    (l.0, dc p ∙ l.1, active p ∙ l.2, l.3, Listed-same tasks tasks' n d ps dc active l.4)

lane-same :
    (tasks tasks' : ℕ → TaskState) (d p : ℕ)
    → SameLanes tasks tasks'
    → lane tasks d p ≡ lane tasks' d p
lane-same tasks tasks' d p same = rw (same.dc p, same.in_flight p)

active_bit-same :
    (tasks tasks' : ℕ → TaskState) (p : ℕ)
    → SameLanes tasks tasks'
    → active_bit tasks p ≡ active_bit tasks' p
active_bit-same tasks tasks' p same = rw (same.active p)

set_queue-SameLanes :
    (tasks : ℕ → TaskState) (p : ℕ) (q : List ℕ)
    → SameLanes tasks (update tasks p (record (tasks p) { waiters = q }))
set_queue-SameLanes tasks p q = record {
  dc = λ x. ground arith;
  in_flight = λ x. ground arith;
  active = λ x. ground arith;
}

-- Only the queue of one task differs.
pub set_queue-Inv :
    (s : Scheduler) (c : Calls) (hands p : ℕ) (q : List ℕ)
    → QueueOk s.waiter c s.next_waiter p 0 q
    → Inv s c hands
    → Inv (set_queue p q s) c hands
set_queue-Inv s c hands p q ok h =
    let tasks' : ℕ → TaskState = update s.tasks p (record (s.tasks p) { waiters = q }) in
    let same = set_queue-SameLanes s.tasks p q in
    record {
      permits = λ x. same.in_flight x ∙ h.permits x;
      lanes =
          λ d. h.lanes d ∙ sum_below-eq s.next_task _ _ (λ x _. lane-same s.tasks tasks' d x same);
      queued = λ x. ground (arith, h.queued x);
      listed = λ d. Listed-same s.tasks tasks' s.next_task d _ same.dc same.active (h.listed d);
      owned = h.owned;
      busy = λ x b. ground (arith, h.busy x);
      waking = λ x r e. ground (arith, h.waking x r);
      held = λ y e. ground (arith, h.held y);
      allocated = λ x a. ground (arith, h.allocated x);
      known = h.known;
      tokens =
          rw
            (sum_below-eq s.next_task (active_bit tasks') (active_bit s.tasks)
              (λ x _. sym (active_bit-same s.tasks tasks' x same)))
            h.tokens;
    }

-- A queue without `w` does not see a change of waiter `w`.
pub QueueOk-other :
    (waiter : ℕ → Waiter) (v : Waiter) (c : Calls) (n p lo w : ℕ) (ws : List ℕ)
    → ((c w).task ≢ p) ⊎ (w < lo)
    → QueueOk waiter c n p lo ws
    → QueueOk (update waiter w v) c n p lo ws
QueueOk-other waiter v c n p lo w [] apart q = tt
QueueOk-other waiter v c n p lo w (u ∷ us) apart q =
    let differs : u ≢ w = λ e. differ apart e in
    let later = QueueOk-other waiter v c n p (suc u) w us (deeper apart) q.5 in
    (q.0, q.1, ground (arith, q.2), q.3, ground (arith, q.4), later)
  where
    differ : ((c w).task ≢ p) ⊎ (w < lo) → u ≡ w → ⊥
    differ (inl other) e = other (ap (λ x. (c x).task) (sym e) ∙ q.3)
    differ (inr below) e = omega arith

    deeper : ((c w).task ≢ p) ⊎ (w < lo) → ((c w).task ≢ p) ⊎ (w < suc u)
    deeper (inl other) = inl other
    deeper (inr below) = inr (omega arith)

-- What `firstFileWaiter` must find for a grant to be in order.
pub record CanGrant (s : Scheduler) (c : Calls) (d p w : ℕ) : Type 0 where
  pub listed_here : p < s.next_task
  pub dc_here : (s.tasks p).dc ≡ d
  pub is_active : (s.tasks p).active ≡ true
  pub made : w < s.next_waiter
  pub ungranted : (s.waiter w).granted ≡ false
  pub for_task : (c w).task ≡ p
  pub waits : (c w).phase ≡ waiting
  pub left_queue : QueueOk s.waiter c s.next_waiter p (suc w) (s.tasks p).waiters

module _ (s : Scheduler) (c : Calls) (hands d p w : ℕ) (can : CanGrant s c d p w)
    (h : Inv s c hands) where
  open can use {listed_here, dc_here, is_active, made, ungranted, for_task, waits, left_queue}

  abbrev granted_tasks : ℕ → TaskState
  granted_tasks = update s.tasks p (record (s.tasks p) { in_flight = (s.tasks p).in_flight + 1 })

  abbrev granted_waiter : ℕ → Waiter
  granted_waiter = update s.waiter w (record (s.waiter w) { granted = true; ready = true })

  grant-permits :
      (x : ℕ) → (granted_tasks x).in_flight ≡ sum_below s.next_waiter (permit granted_waiter c x)
  grant-permits x = ground (
    arith,
    h.permits x,
    sum_below-change s.next_waiter w (permit s.waiter c x) (permit granted_waiter c x) made
        (λ y ne. ground arith),
  )

  grant-lanes :
      (e : ℕ)
      → flight_of (
          update s.dcs d
            (some (record { tasks = tasks_of (s.dcs d); in_flight = flight_of (s.dcs d) + 1 }))
            e)
        ≡ sum_below s.next_task (lane granted_tasks e)
  grant-lanes e = ground (
    arith,
    h.lanes e,
    sum_below-change s.next_task p (lane s.tasks e) (lane granted_tasks e) listed_here
        (λ y ne. ground arith),
  )

  grant-queued : (x : ℕ) → QueueOk granted_waiter c s.next_waiter x 0 (granted_tasks x).waiters
  grant-queued x =
      let same : (granted_tasks x).waiters ≡ (s.tasks x).waiters = ground arith in
      rw same (elim (ℕ_discrete x p) [
        | yes e ↦ rw e (
            QueueOk-weaken granted_waiter c s.next_waiter p 0 (suc w) _ (omega arith) (
              QueueOk-other s.waiter _ c s.next_waiter p (suc w) w _ (inr (omega arith))
                left_queue))
        | no ne ↦
            QueueOk-other s.waiter _ c s.next_waiter x 0 w _ (inl (λ e. ne (sym e ∙ for_task)))
              (h.queued x)
      ])

  grant-Listed :
      (e : ℕ)
      → Listed granted_tasks s.next_task e (
          tasks_of (
            update s.dcs d
              (some (record { tasks = tasks_of (s.dcs d); in_flight = flight_of (s.dcs d) + 1 }))
              e))
  grant-Listed e =
      let same : tasks_of (
            update s.dcs d
              (some (record { tasks = tasks_of (s.dcs d); in_flight = flight_of (s.dcs d) + 1 })) e)
          ≡ tasks_of (s.dcs e) =
        ground arith in
      rw same (
        Listed-same s.tasks granted_tasks s.next_task e _ (λ x. ground arith) (λ x. ground arith)
          (h.listed e))

  pub grant-Inv : Inv (grant d p w s) c hands
  unfolding grant
  grant-Inv = record {
    permits = grant-permits;
    lanes = grant-lanes;
    queued = grant-queued;
    listed = grant-Listed;
    owned = h.owned;
    busy = λ x b. ground (arith, h.busy x);
    waking = λ x r e. ground (arith, h.waking x r);
    held = λ y e. ground (arith, h.held y);
    allocated = λ x a. ground (arith, h.allocated x);
    known = h.known;
    tokens =
        rw
          (sum_below-eq s.next_task (active_bit granted_tasks) (active_bit s.tasks)
            (λ x _. ground arith))
          h.tokens;
  }

-- What `firstFileWaiter` returns: the invariant holds of the pruned queues, and a waiter that it finds
-- can be granted.
record Found (s : Scheduler) (c : Calls) (hands d : ℕ) (r : Scheduler × Option (ℕ × ℕ))
    : Type 0 where
  kept : Inv r.0 c hands
  dcs_kept : r.0.dcs ≡ s.dcs
  capacity_kept : r.0.capacity ≡ s.capacity
  can : (p w : ℕ) → r.1 ≡ some (p, w) → CanGrant r.0 c d p w

pub first_file_waiter-empty :
    (s : Scheduler) (p : ℕ) (ps : List ℕ)
    → prune_queue s.waiter (s.tasks p).waiters ≡ []
    → first_file_waiter (p ∷ ps) s ≡ first_file_waiter ps (set_queue p [] s)
unfolding first_file_waiter
first_file_waiter-empty s p ps e = rw (e, serve)

pub first_file_waiter-head :
    (s : Scheduler) (p : ℕ) (ps : List ℕ) (w : ℕ) (ws : List ℕ)
    → prune_queue s.waiter (s.tasks p).waiters ≡ w ∷ ws
    → first_file_waiter (p ∷ ps) s ≡ (set_queue p ws s, some (p, w))
unfolding first_file_waiter
first_file_waiter-head s p ps w ws e =
    let alive = prune_queue-head s.waiter (s.tasks p).waiters w ws e in
    rw (e, serve) (rw (alive, pop_queue))

set_queue-Listed :
    (s : Scheduler) (p d : ℕ) (q ps : List ℕ)
    → Listed s.tasks s.next_task d ps
    → Listed (set_queue p q s).tasks s.next_task d ps
set_queue-Listed s p d q ps l =
    let same = set_queue-SameLanes s.tasks p q in
    Listed-same s.tasks (set_queue p q s).tasks s.next_task d ps same.dc same.active l

first_file_waiter-Found :
    (s : Scheduler) (c : Calls) (hands d : ℕ) (ps : List ℕ)
    → Listed s.tasks s.next_task d ps
    → Inv s c hands
    → Found s c hands d (first_file_waiter ps s)
unfolding first_file_waiter
first_file_waiter-Found s c hands d [] l h = record {
  kept = h;
  dcs_kept = refl;
  capacity_kept = refl;
  can = λ p w e. cc;
}
first_file_waiter-Found s c hands d (p ∷ ps) l h =
    elim (List-cases (prune_queue s.waiter (s.tasks p).waiters)) [
      | inl empty ↦
          let found =
            first_file_waiter-Found (set_queue p [] s) c hands d ps
              (set_queue-Listed s p d [] ps l.4) (set_queue-Inv s c hands p [] tt h) in
          rw (first_file_waiter-empty s p ps empty) (record {
            kept = found.kept;
            dcs_kept = found.dcs_kept;
            capacity_kept = found.capacity_kept;
            can = found.can;
          })
      | inr (w, ws, e) ↦
          let ok =
            rw e at (QueueOk-prune s.waiter c s.next_waiter p 0 (s.tasks p).waiters (h.queued p)) in
          rw (first_file_waiter-head s p ps w ws e) (record {
            kept =
                set_queue-Inv s c hands p ws
                  (QueueOk-weaken s.waiter c s.next_waiter p 0 (suc w) ws (omega arith) ok.5) h;
            dcs_kept = refl;
            capacity_kept = refl;
            can = λ p' w' same.
                let p_same : p' ≡ p = ground arith in
                let w_same : w' ≡ w = ground arith in
                rw (p_same, w_same)
                  (record {
                    listed_here = l.0;
                    dc_here = ground (arith, l.1);
                    is_active = ground (arith, l.2);
                    made = ok.1;
                    ungranted = ok.2;
                    for_task = ok.3;
                    waits = (ok.4 (prune_queue-head s.waiter (s.tasks p).waiters w ws e)).0;
                    left_queue = ground (arith, ok.5);
                  });
          })
    ]

pub grant_loop-Inv :
    (rounds d : ℕ) (s : Scheduler) (c : Calls) (hands : ℕ)
    → Inv s c hands
    → Inv (grant_loop rounds d s) c hands
unfolding grant_loop
grant_loop-Inv zero d s c hands h = h
grant_loop-Inv (suc rounds) d s c hands h =
    let r = first_file_waiter (tasks_of (s.dcs d)) s in
    let found = first_file_waiter-Found s c hands d (tasks_of (s.dcs d)) (h.listed d) h in
    elim (Option-cases r.1) [
      | inl e ↦ rw (e, grant_loop) found.kept
      | inr ((p, w), e) ↦
          rw (e, grant_loop)
            (grant_loop-Inv rounds d (grant d p w r.0) c hands
              (grant-Inv r.0 c hands d p w (found.can p w e) found.kept))
    ]

pub dispatch-Inv :
    (d : ℕ) (s : Scheduler) (c : Calls) (hands : ℕ) → Inv s c hands → Inv (dispatch d s) c hands
unfolding dispatch
dispatch-Inv d s c hands h = elim (Option-cases (s.dcs d)) [
  | inl e ↦ rw (e, dispatch) h
  | inr (dc, e) ↦ elim (List-cases dc.tasks) [
    | inl empty ↦ rw (e, dispatch) (rw empty h)
    | inr (p, ps, some_task) ↦
        rw (e, dispatch) (rw some_task (grant_loop-Inv (s.capacity - dc.in_flight) d s c hands h))
  ]
]
