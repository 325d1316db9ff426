-- ===== src/Scheduler/Invariant/Tasks.antt =====
-- The invariant at the rounds of acquireTask and at completeActivation of
-- bsw/ecual/comif/scheduler.go.
use Prim.Native.String.{String}
use tdl.Prelude.{
  ℕ, suc, ◌+◌, ◌<◌, ◌≡◌, ◌≢◌, refl, sym, ◌∙◌, inl, inr, Bool, true, false, not, Option, none, some,
  List, [], ◌∷◌, ◌++◌, ◌==◌, if◌then◌else◌, arith, ℕ_discrete, Bool-cases, Option-cases,
}
use tdl.Prelude.Sums.{sum_below-eq, sum_below-change, sum_below-suc, sum_below-zero}
use tdl.Scheduler.State.{TaskState, Scheduler, flight_of, tasks_of, set_task, set_file, update}
use tdl.Scheduler.Leases.{
  is_current, fresh_task, acquire_switch, register, acquire_round, same_ready, make_active,
  complete_activation,
}
use tdl.Scheduler.Invariant.{Calls, permit, lane, active_bit, Absent, Listed, Inv}
use tdl.Scheduler.Invariant.Grants.{dispatch-Inv, Listed-same}
use tdl.Scheduler.Invariant.Removal.{Listed-other, Absent-inactive}
use tdl.Scheduler.Invariant.Files.{hands_after}

-- The references and the activation of a task, and the channel counter.
module _ (s : Scheduler) (c : Calls) (hands p refs next_ready : ℕ) (activating : Option ℕ)
    (h : Inv s c hands) where
  abbrev touched : Scheduler
  touched = record (set_task p (record (s.tasks p) { refs = refs; activating = activating }) s) {
    next_ready = next_ready;
  }

  touched-Inv : ((r : ℕ) → activating ≡ some r → (s.tasks p).active ≡ false) → Inv touched c hands
  touched-Inv off = record {
    permits = λ x. ground (arith, h.permits x);
    lanes = λ d.
        h.lanes d
        ∙ sum_below-eq s.next_task (lane s.tasks d) (lane touched.tasks d) (λ x _. ground arith);
    queued = λ x.
        let same : (touched.tasks x).waiters ≡ (s.tasks x).waiters = ground arith in
        rw same (h.queued x);
    listed = λ d.
        Listed-same s.tasks touched.tasks s.next_task d (tasks_of (s.dcs d)) (λ x. ground arith)
          (λ x. ground arith) (h.listed d);
    owned = h.owned;
    busy = λ x b. ground (arith, h.busy x);
    waking = λ x r e. ground (arith, h.waking x r, off r);
    held = h.held;
    allocated = λ x a. ground (arith, h.allocated x);
    known = h.known;
    tokens =
        rw
          (sum_below-eq s.next_task (active_bit touched.tasks) (active_bit s.tasks)
            (λ x _. ground arith))
          h.tokens;
  }

acquire_switch-Inv :
    (p : ℕ) (s : Scheduler) (c : Calls) (hands : ℕ)
    → Inv s c hands
    → Inv (acquire_switch p s).0 c hands
unfolding acquire_switch
acquire_switch-Inv p s c hands h = elim (Bool-cases (s.tasks p).active) [
  | inl on ↦ rw on h
  | inr off ↦ elim (Option-cases (s.tasks p).activating) [
    | inr (r, e) ↦ rw off (rw (e, acquire_switch) h)
    | inl e ↦ rw off (
        rw e (
          touched-Inv s c hands p (s.tasks p).refs (s.next_ready + 1) (some s.next_ready) h
            (λ _ _. off)))
  ]
]

register-Inv :
    (registered : Option ℕ) (p : ℕ) (s : Scheduler) (c : Calls) (hands : ℕ)
    → Inv s c hands
    → Inv (register registered p s) c hands
register-Inv (some _) p s c hands h = h
register-Inv none p s c hands h =
    touched-Inv s c hands p ((s.tasks p).refs + 1) s.next_ready (s.tasks p).activating h
      (h.waking p)

-- A task list does not see the task allocated next.
Listed-grow :
    (tasks : ℕ → TaskState) (t : TaskState) (n d : ℕ) (ps : List ℕ)
    → Listed tasks n d ps
    → Listed (update tasks n t) (suc n) d ps
Listed-grow tasks t n d [] l = tt
Listed-grow tasks t n d (p ∷ ps) l = (
  omega (arith, l.0),
  ground (arith, l.0, l.1),
  ground (arith, l.0, l.2),
  l.3,
  Listed-grow tasks t n d ps l.4,
)

module _ (id : String) (d : ℕ) (s : Scheduler) (c : Calls) (hands : ℕ) (h : Inv s c hands) where
  abbrev made_task : Scheduler
  made_task = record (set_file id (some s.next_task) (set_task s.next_task (fresh_task id d) s)) {
    next_task = suc s.next_task;
  }

  made_task-Inv : Inv made_task c hands
  made_task-Inv = record {
    permits = λ x. ground (
      arith,
      h.permits x,
      sum_below-zero s.next_waiter (permit s.waiter c s.next_task)
          (λ w l. ground (arith, h.owned w l)),
    );
    lanes = λ e. ground (
      arith,
      h.lanes e,
      sum_below-suc s.next_task (lane made_task.tasks e),
      sum_below-eq s.next_task (lane s.tasks e) (lane made_task.tasks e) (λ x l. ground arith),
    );
    queued = λ x. elim (ℕ_discrete x s.next_task) [
      | yes e ↦
          let same : (made_task.tasks s.next_task).waiters ≡ [] = ground arith in rw e (rw same tt)
      | no ne ↦
          let same : (made_task.tasks x).waiters ≡ (s.tasks x).waiters = ground arith in
          rw same (h.queued x)
    ];
    listed =
        λ e. Listed-grow s.tasks (fresh_task id d) s.next_task e (tasks_of (s.dcs e)) (h.listed e);
    owned = λ w l. omega (arith, h.owned w l);
    busy = λ x b. ground (arith, h.busy x);
    waking = λ x r e. ground (arith, h.waking x r);
    held = h.held;
    allocated = λ x a. ground (arith, h.allocated x);
    known = λ j q e. ground (arith, h.known j q);
    tokens = ground (
      arith,
      h.tokens,
      sum_below-suc s.next_task (active_bit made_task.tasks),
      sum_below-eq s.next_task (active_bit s.tasks) (active_bit made_task.tasks)
          (λ x l. ground arith),
    );
  }

pub acquire_round-Inv :
    (ended : Bool) (registered : Option ℕ) (id : String) (d : ℕ) (s : Scheduler) (c : Calls)
    (hands : ℕ)
    → Inv s c hands
    → Inv (acquire_round ended registered id d s).0 c hands
unfolding acquire_round
acquire_round-Inv true registered id d s c hands h = h
acquire_round-Inv false registered id d s c hands h = elim (Option-cases (s.files id)) [
  | inl e ↦
      rw (e, acquire_round)
        (acquire_switch-Inv s.next_task _ c hands (
          register-Inv registered s.next_task (made_task id d s c hands h) c hands
            (made_task-Inv id d s c hands h)))
  | inr (p, e) ↦ elim (Bool-cases (not ((s.tasks p).dc == d))) [
    | inl moved ↦ rw (e, acquire_round) (rw moved h)
    | inr stays ↦
        rw (e, acquire_round)
          (rw stays (acquire_switch-Inv p _ c hands (register-Inv registered p s c hands h)))
  ]
]

Absent-append : (q p : ℕ) (ps : List ℕ) → Absent q ps → p ≢ q → Absent q (ps ++ p ∷ [])
Absent-append q p [] a ne = (ne, tt)
Absent-append q p (r ∷ rs) a ne = (a.0, Absent-append q p rs a.1 ne)

-- A task that is not listed joins the list of its data centre, active.
Listed-append :
    (tasks : ℕ → TaskState) (t : TaskState) (n d p : ℕ) (ps : List ℕ)
    → p < n
    → t.dc ≡ d
    → t.active ≡ true
    → Absent p ps
    → Listed tasks n d ps
    → Listed (update tasks p t) n d (ps ++ p ∷ [])
Listed-append tasks t n d p [] made dc on a l =
    (made, ground (arith, dc), ground (arith, on), tt, tt)
Listed-append tasks t n d p (q ∷ qs) made dc on a l = (
  l.0,
  ground (arith, l.1, a.0),
  ground (arith, l.2, a.0),
  Absent-append q p qs l.3 (λ e. a.0 (sym e)),
  Listed-append tasks t n d p qs made dc on a.1 l.4,
)

module _ (s : Scheduler) (c : Calls) (hands p : ℕ) (made : p < s.next_task)
    (off : (s.tasks p).active ≡ false) (h : Inv s c (suc hands)) where
  abbrev woken_tasks : ℕ → TaskState
  woken_tasks = update s.tasks p (record (s.tasks p) { activating = none; active = true })

  woken-dcs :
      (e : ℕ)
      → (flight_of ((make_active p s).dcs e) ≡ flight_of (s.dcs e))
        × (tasks_of ((make_active p s).dcs e)
            ≡ (if e == (s.tasks p).dc then tasks_of (s.dcs e) ++ p ∷ [] else tasks_of (s.dcs e)))
  unfolding make_active
  woken-dcs e = elim (ℕ_discrete e (s.tasks p).dc) [
    | yes same ↦ rw same (ground arith)
    | no other ↦ ground arith
  ]

  woken-Listed : (e : ℕ) → Listed woken_tasks s.next_task e (tasks_of ((make_active p s).dcs e))
  woken-Listed e =
      let apart = Absent-inactive s.tasks s.next_task e p (tasks_of (s.dcs e)) off (h.listed e) in
      elim (ℕ_discrete e (s.tasks p).dc) [
        | yes same ↦
            let there : tasks_of ((make_active p s).dcs e) ≡ tasks_of (s.dcs e) ++ p ∷ [] =
              ground (arith, woken-dcs e) in
            rw there
              (Listed-append s.tasks _ s.next_task e p _ made (sym same) refl apart (h.listed e))
        | no other ↦
            let there : tasks_of ((make_active p s).dcs e) ≡ tasks_of (s.dcs e) =
              ground (arith, woken-dcs e) in
            rw there (Listed-other s.tasks _ s.next_task e p _ apart (h.listed e))
      ]

  make_active-Inv : Inv (make_active p s) c hands
  unfolding make_active
  make_active-Inv = record {
    permits = λ x. ground (arith, h.permits x);
    lanes = λ e.
        (woken-dcs e).0
        ∙ h.lanes e
        ∙ sum_below-eq s.next_task (lane s.tasks e) (lane woken_tasks e) (λ x _. ground arith);
    queued = λ x.
        let same : (woken_tasks x).waiters ≡ (s.tasks x).waiters = ground arith in
        rw same (h.queued x);
    listed = woken-Listed;
    owned = h.owned;
    busy = λ x b. ground (arith, h.busy x);
    waking = λ x r e. ground (arith, h.waking x r);
    held = h.held;
    allocated = λ x a. ground (arith, h.allocated x);
    known = h.known;
    tokens = ground (
      arith,
      h.tokens,
      sum_below-change s.next_task p (active_bit s.tasks) (active_bit woken_tasks) made
          (λ x ne. ground arith),
    );
  }

current_made :
    (p : ℕ) (s : Scheduler) (c : Calls) (hands : ℕ)
    → is_current p s ≡ true
    → Inv s c hands
    → p < s.next_task
current_made p s c hands e h = elim (Option-cases (s.files (s.tasks p).task_id)) [
  | inl missing ↦ absurd (ground (arith, e, missing))
  | inr (q, found) ↦ ground (arith, e, found, h.known (s.tasks p).task_id q found)
]

-- The token that was acquired for an activation becomes the file's, or is still in hand.
pub complete_activation-Inv :
    (p ready : ℕ) (s : Scheduler) (c : Calls) (hands : ℕ)
    → Inv s c (suc hands)
    → Inv
        (complete_activation p ready true s).0
        c
        (hands_after (complete_activation p ready true s).1 hands)
unfolding complete_activation
complete_activation-Inv p ready s c hands h = elim (Bool-cases (is_current p s)) [
  | inr stale ↦ rw stale h
  | inl current ↦ elim (Option-cases (s.tasks p).activating) [
    | inl e ↦ rw current (rw (e, complete_activation) h)
    | inr (r, e) ↦ elim (Bool-cases (r == ready)) [
      | inr other ↦ rw current (rw (e, complete_activation) (rw other h))
      | inl same ↦ rw current (
          rw (e, complete_activation)
            (rw same (
              dispatch-Inv (s.tasks p).dc (make_active p s) c hands (
                make_active-Inv s c hands p (current_made p s c (suc hands) current h)
                  (h.waking p r e) h))))
    ]
  ]
]

pub abort_activation-Inv :
    (p ready : ℕ) (s : Scheduler) (c : Calls) (hands : ℕ)
    → Inv s c hands
    → Inv
        (complete_activation p ready false s).0
        c
        (hands_after (complete_activation p ready false s).1 hands)
unfolding complete_activation
abort_activation-Inv p ready s c hands h = elim (Bool-cases (is_current p s)) [
  | inr stale ↦ rw stale h
  | inl current ↦ elim (Bool-cases (same_ready (s.tasks p).activating ready)) [
    | inr other ↦ rw current (rw other h)
    | inl same ↦
        rw current
          (rw same (touched-Inv s c hands p (s.tasks p).refs s.next_ready none h (λ r e. cc)))
  ]
]
