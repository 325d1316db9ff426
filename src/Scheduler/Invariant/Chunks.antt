-- ===== src/Scheduler/Invariant/Chunks.antt =====
-- The invariant at the sections of AcquireChunk of bsw/ecual/comif/scheduler.go.
use tdl.Prelude.{
  ℕ, suc, ◌≤◌, ◌<◌, ◌≡◌, refl, sym, ap, ◌∙◌, inl, inr, Bool, true, false, not, ◌||◌, Option, none,
  some, List, [], ◌∷◌, ◌++◌, ◌==◌, if◌then◌else◌, arith, ℕ_discrete, Bool-cases,
}
use tdl.Prelude.Sums.{sum_below, sum_below-eq, sum_below-suc}
use tdl.Scheduler.State.{Waiter, TaskState, Scheduler, tasks_of, set_waiter, update}
use tdl.Scheduler.Dispatch.{dispatch}
use tdl.Scheduler.Leases.{queue_request, request_chunk, take_grant, abandon_wait}
use tdl.Scheduler.Invariant.{
  Phase, waiting, holding, finished, keeps, Call, Calls, permit, lane, active_bit, QueueOk, Inv,
}
use tdl.Scheduler.Invariant.Grants.{dispatch-Inv, Listed-same}
use tdl.Scheduler.Invariant.Removal.{QueueOk-end, HasLane, end_call, release_chunk-Inv}

-- A queue after a new waiter, numbered `n`, has joined it.
QueueOk-join :
    (waiter : ℕ → Waiter) (c : Calls) (v : Waiter) (call : Call) (n p lo : ℕ) (ws : List ℕ)
    → v.granted ≡ false
    → v.ready ≡ false
    → call.task ≡ p
    → call.phase ≡ waiting
    → lo ≤ n
    → QueueOk waiter c n p lo ws
    → QueueOk (update waiter n v) (update c n call) (suc n) p lo (ws ++ n ∷ [])
QueueOk-join waiter c v call n p lo [] g r t ph l q =
    (l, omega arith, ground (arith, g), ground (arith, t), ground (arith, ph, r), tt)
QueueOk-join waiter c v call n p lo (w ∷ ws) g r t ph l q = (
  q.0,
  omega (arith, q.1),
  ground (arith, q.1, q.2),
  ground (arith, q.1, q.3),
  ground (arith, q.1, q.4),
  QueueOk-join waiter c v call n p (suc w) ws g r t ph q.1 q.5,
)

-- The other queues.
QueueOk-grow :
    (waiter : ℕ → Waiter) (c : Calls) (v : Waiter) (call : Call) (n p lo : ℕ) (ws : List ℕ)
    → QueueOk waiter c n p lo ws
    → QueueOk (update waiter n v) (update c n call) (suc n) p lo ws
QueueOk-grow waiter c v call n p lo [] q = tt
QueueOk-grow waiter c v call n p lo (w ∷ ws) q = (
  q.0,
  omega (arith, q.1),
  ground (arith, q.1, q.2),
  ground (arith, q.1, q.3),
  ground (arith, q.1, q.4),
  QueueOk-grow waiter c v call n p (suc w) ws q.5,
)

abbrev new_waiter : Waiter
new_waiter = record { granted = false; canceled = false; ready = false }

-- The call that AcquireChunk makes.
abbrev pub start_call : Calls → ℕ → ℕ → Calls
start_call c w p = update c w (record { task = p; phase = waiting })

module _ (s : Scheduler) (c : Calls) (hands p : ℕ) (on : (s.tasks p).active ≡ true)
    (h : Inv s c hands) where
  abbrev asked_tasks : ℕ → TaskState
  asked_tasks =
      update s.tasks p (record (s.tasks p) { waiters = (s.tasks p).waiters ++ s.next_waiter ∷ [] })

  abbrev asked_waiter : ℕ → Waiter
  asked_waiter = update s.waiter s.next_waiter new_waiter

  asked-permits :
      (x : ℕ)
      → (asked_tasks x).in_flight
        ≡ sum_below (suc s.next_waiter) (permit asked_waiter (start_call c s.next_waiter p) x)
  asked-permits x = ground (
    arith,
    h.permits x,
    sum_below-suc s.next_waiter (permit asked_waiter (start_call c s.next_waiter p) x),
    sum_below-eq s.next_waiter (permit s.waiter c x)
        (permit asked_waiter (start_call c s.next_waiter p) x) (λ y l. ground arith),
  )

  asked-queued :
      (x : ℕ)
      → QueueOk asked_waiter
          (start_call c s.next_waiter p)
          (suc s.next_waiter)
          x
          0
          (asked_tasks x).waiters
  asked-queued x = elim (ℕ_discrete x p) [
    | yes e ↦
        let same : (asked_tasks p).waiters ≡ (s.tasks p).waiters ++ s.next_waiter ∷ [] =
          ground arith in
        rw e (
          rw same (
            QueueOk-join s.waiter c new_waiter _ s.next_waiter p 0 _ refl refl refl refl
              (omega arith) (h.queued p)))
    | no ne ↦
        let same : (asked_tasks x).waiters ≡ (s.tasks x).waiters = ground arith in
        rw same (QueueOk-grow s.waiter c new_waiter _ s.next_waiter x 0 _ (h.queued x))
  ]

  queue_request-Inv : Inv (queue_request p s) (start_call c s.next_waiter p) hands
  unfolding queue_request
  queue_request-Inv = record {
    permits = asked-permits;
    lanes = λ d.
        h.lanes d
        ∙ sum_below-eq s.next_task (lane s.tasks d) (lane asked_tasks d) (λ x _. ground arith);
    queued = asked-queued;
    listed = λ d.
        Listed-same s.tasks asked_tasks s.next_task d (tasks_of (s.dcs d)) (λ x. ground arith)
          (λ x. ground arith) (h.listed d);
    owned = λ y l. ground (arith, h.owned y, h.allocated p on);
    busy = λ x b. ground (arith, h.busy x);
    waking = λ x r e. ground (arith, h.waking x r);
    held = λ y e. ground (arith, h.held y);
    allocated = λ x a. ground (arith, h.allocated x);
    known = h.known;
    tokens =
        rw
          (sum_below-eq s.next_task (active_bit asked_tasks) (active_bit s.tasks)
            (λ x _. ground arith))
          h.tokens;
  }

-- The calls after AcquireChunk has queued its waiter or refused.
abbrev pub calls_after_request : Option ℕ → Calls → ℕ → Calls
calls_after_request none c p = c
calls_after_request (some w) c p = start_call c w p

pub request_chunk-Inv :
    (ended : Bool) (p : ℕ) (s : Scheduler) (c : Calls) (hands : ℕ)
    → Inv s c hands
    → Inv (request_chunk ended p s).0 (calls_after_request (request_chunk ended p s).1 c p) hands
unfolding request_chunk
request_chunk-Inv ended p s c hands h =
    elim (Bool-cases (ended || (not (s.tasks p).active || (s.tasks p).refs == 0))) [
      | inl refused ↦ rw refused h
      | inr asked ↦ rw asked (
          dispatch-Inv (s.tasks p).dc (queue_request p s) _ hands
            (queue_request-Inv s c hands p (ground (arith, asked)) h))
    ]

-- A waiter whose channel is closed leaves: in a queue it can only be canceled.
QueueOk-leave :
    (waiter : ℕ → Waiter) (c : Calls) (ph : Phase) (n p lo w : ℕ) (ws : List ℕ)
    → (waiter w).ready ≡ true
    → QueueOk waiter c n p lo ws
    → QueueOk waiter (update c w (record { task = (c w).task; phase = ph })) n p lo ws
QueueOk-leave waiter c ph n p lo w [] r q = tt
QueueOk-leave waiter c ph n p lo w (u ∷ us) r q = (
  q.0,
  q.1,
  q.2,
  ground (arith, q.3),
  λ alive. elim (ℕ_discrete u w) [
    | yes e ↦ absurd (differ (ap (λ x. (waiter x).ready) e) (q.4 alive).1)
    | no ne ↦ (ground (arith, (q.4 alive).0), (q.4 alive).1)
  ],
  QueueOk-leave waiter c ph n p (suc u) w us r q.5,
)
  where
    differ : (waiter u).ready ≡ (waiter w).ready → (waiter u).ready ≡ false → ⊥
    differ e f = ground arith

-- A call that waits in its `select`.
pub record Waits (s : Scheduler) (c : Calls) (p w : ℕ) : Type 0 where
  pub made : w < s.next_waiter
  pub for_task : (c w).task ≡ p
  pub waits : (c w).phase ≡ waiting

abbrev pub hold_call : Calls → ℕ → Calls
hold_call c w = update c w (record { task = (c w).task; phase = holding })

-- The calls after the first case of the `select`.
abbrev pub calls_after_grant : Bool → Calls → ℕ → Calls
calls_after_grant leased c w = if leased then hold_call c w else end_call c w

module _ (s : Scheduler) (c : Calls) (hands p w : ℕ) (at_select : Waits s c p w)
    (h : Inv s c hands) where
  open at_select use {made, for_task, waits}

  -- Only the phase of call `w` changes, and not its lane.
  phase-Inv :
      (ph : Phase)
      → keeps ph (s.waiter w).granted ≡ (s.waiter w).granted
      → ((x : ℕ)
          → QueueOk s.waiter
              (update c w (record { task = (c w).task; phase = ph }))
              s.next_waiter
              x
              0
              (s.tasks x).waiters)
      → (ph ≡ holding → (s.waiter w).granted ≡ true)
      → Inv s (update c w (record { task = (c w).task; phase = ph })) hands
  phase-Inv ph same queues holds = record {
    permits = λ x.
        h.permits x
        ∙ sum_below-eq s.next_waiter (permit s.waiter c x) _ (λ y _. ground (arith, same, waits));
    lanes = h.lanes;
    queued = queues;
    listed = h.listed;
    owned = λ y l. ground (arith, h.owned y);
    busy = h.busy;
    waking = h.waking;
    held = λ y e. ground (arith, h.held y, holds);
    allocated = h.allocated;
    known = h.known;
    tokens = h.tokens;
  }

  has_lane : (s.waiter w).granted ≡ true → HasLane s c p w
  has_lane g = record {
    made = made;
    for_task = for_task;
    granted = g;
    open_ = λ e. ground (arith, waits);
  }

  -- At a closed channel the call returns a lease or an error, and does not panic.
  pub take_grant-Inv :
      (ended : Bool)
      → (s.waiter w).ready ≡ true
      → (s' : Scheduler) × (leased : Bool) × (take_grant ended p w s ≡ some (s', leased))
        × Inv s' (calls_after_grant leased c w) hands
  unfolding take_grant
  take_grant-Inv ended ready = elim (Bool-cases (s.waiter w).granted) [
    | inr no_grant ↦ (
      s,
      false,
      ground arith,
      phase-Inv finished (sym no_grant)
          (λ x. QueueOk-leave s.waiter c finished s.next_waiter x 0 w _ ready (h.queued x))
          (λ e. cc),
    )
    | inl g ↦ elim (Bool-cases ended) [
      | inl over ↦
          let (s', freed, inv) = release_chunk-Inv s c hands p w (has_lane g) h in
          (s', false, ground (arith, freed), inv)
      | inr live ↦ (
        s,
        true,
        ground arith,
        phase-Inv holding (sym g)
            (λ x. QueueOk-end s.waiter c _ s.next_waiter x 0 w _ g (h.queued x)) (λ _. g),
      )
    ]
  ]

  abbrev canceled_waiter : ℕ → Waiter
  canceled_waiter = update s.waiter w (record (s.waiter w) { canceled = true })

  canceled-queued :
      (x lo : ℕ) (ws : List ℕ)
      → QueueOk s.waiter c s.next_waiter x lo ws
      → QueueOk canceled_waiter (end_call c w) s.next_waiter x lo ws
  canceled-queued x lo [] q = tt
  canceled-queued x lo (u ∷ us) q = (
    q.0,
    q.1,
    ground (arith, q.2),
    ground (arith, q.3),
    ground (arith, q.4),
    canceled-queued x (suc u) us q.5,
  )

  canceled-Inv :
      (s.waiter w).granted ≡ false
      → Inv (set_waiter w (record (s.waiter w) { canceled = true }) s) (end_call c w) hands
  canceled-Inv g = record {
    permits = λ x.
        h.permits x
        ∙ sum_below-eq s.next_waiter (permit s.waiter c x) (permit canceled_waiter (end_call c w) x)
            (λ y _. ground (arith, g, waits));
    lanes = h.lanes;
    queued = λ x. canceled-queued x 0 (s.tasks x).waiters (h.queued x);
    listed = h.listed;
    owned = λ y l. ground (arith, h.owned y);
    busy = h.busy;
    waking = h.waking;
    held = λ y e. ground (arith, h.held y);
    allocated = h.allocated;
    known = h.known;
    tokens = h.tokens;
  }

  -- When its context ends the call leaves, and does not panic.
  pub abandon_wait-Inv :
      (s' : Scheduler) × (abandon_wait p w s ≡ some s') × Inv s' (end_call c w) hands
  unfolding abandon_wait
  abandon_wait-Inv = elim (Bool-cases (s.waiter w).granted) [
    | inl g ↦
        let (s', freed, inv) = release_chunk-Inv s c hands p w (has_lane g) h in
        (s', rw g freed, inv)
    | inr g ↦ (
      dispatch (s.tasks p).dc (set_waiter w (record (s.waiter w) { canceled = true }) s),
      rw g,
      dispatch-Inv (s.tasks p).dc _ (end_call c w) hands (canceled-Inv g),
    )
  ]
