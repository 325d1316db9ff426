-- ===== src/Scheduler/Invariant/Removal.antt =====
-- The invariant at `removeActiveTaskLocked` and `releaseChunkLocked` of
-- bsw/ecual/comif/scheduler.go.
use tdl.Prelude.{
  ℕ, suc, ◌-◌, ◌≤◌, ◌<◌, ◌≡◌, ◌≢◌, sym, ap, ◌∙◌, inl, inr, true, false, ◌&&◌, some, List, [], ◌∷◌,
  ◌==◌, if◌then◌else◌, arith, ℕ_discrete, Bool-cases, Option-cases,
}
use tdl.Prelude.Sums.{sum_below, sum_below-eq, sum_below-change, le-sum_below}
use tdl.Scheduler.State.{
  Waiter, TaskState, DcState, Scheduler, flight_of, tasks_of, update, release_token,
}
use tdl.Scheduler.Dispatch.{dispatch}
use tdl.Scheduler.Leases.{
  return_lane, drop_active_task, remove_first, remove_active_task, release_chunk,
}
use tdl.Scheduler.Invariant.{
  finished, Call, Calls, permit, lane, active_bit, QueueOk, Absent, Listed, Inv,
}
use tdl.Scheduler.Invariant.Grants.{dispatch-Inv, Listed-same}

-- A list without `p` does not see a change of task `p`.
pub Listed-other :
    (tasks : ℕ → TaskState) (t : TaskState) (n d p : ℕ) (ps : List ℕ)
    → Absent p ps
    → Listed tasks n d ps
    → Listed (update tasks p t) n d ps
Listed-other tasks t n d p [] a l = tt
Listed-other tasks t n d p (q ∷ qs) a l = (
  l.0,
  ground (arith, l.1, a.0),
  ground (arith, l.2, a.0),
  l.3,
  Listed-other tasks t n d p qs a.1 l.4,
)

Absent-dc :
    (tasks : ℕ → TaskState) (n d p : ℕ) (ps : List ℕ)
    → (tasks p).dc ≢ d
    → Listed tasks n d ps
    → Absent p ps
Absent-dc tasks n d p [] ne l = tt
Absent-dc tasks n d p (q ∷ qs) ne l =
    (λ e. ne (ap (λ x. (tasks x).dc) (sym e) ∙ l.1), Absent-dc tasks n d p qs ne l.4)

pub Absent-inactive :
    (tasks : ℕ → TaskState) (n d p : ℕ) (ps : List ℕ)
    → (tasks p).active ≡ false
    → Listed tasks n d ps
    → Absent p ps
Absent-inactive tasks n d p [] off l = tt
Absent-inactive tasks n d p (q ∷ qs) off l =
    (λ e. differ (ap (λ x. (tasks x).active) e), Absent-inactive tasks n d p qs off l.4)
  where
    differ : (tasks q).active ≡ (tasks p).active → ⊥
    differ e = ground (arith, l.2, off)

Absent-remove_first : (p q : ℕ) (ps : List ℕ) → Absent q ps → Absent q (remove_first p ps)
unfolding remove_first
Absent-remove_first p q [] a = tt
Absent-remove_first p q (r ∷ rs) a = ground (arith, Absent-remove_first p q rs)

Listed-remove_first :
    (tasks : ℕ → TaskState) (t : TaskState) (n d p : ℕ) (ps : List ℕ)
    → Listed tasks n d ps
    → Listed (update tasks p t) n d (remove_first p ps)
unfolding remove_first
Listed-remove_first tasks t n d p [] l = tt
Listed-remove_first tasks t n d p (q ∷ qs) l = elim (ℕ_discrete q p) [
  | yes e ↦ rw (e) (ground (arith, Listed-other tasks t n d p qs (ground (arith, l.3)) l.4))
  | no ne ↦
      ground
        (arith, l.1, l.2, Absent-remove_first p q qs l.3, Listed-remove_first tasks t n d p qs l.4)
]

module _ (s : Scheduler) (c : Calls) (hands p : ℕ) (on : (s.tasks p).active ≡ true)
    (idle : (s.tasks p).in_flight ≡ 0) (h : Inv s c hands) where
  abbrev off_tasks : ℕ → TaskState
  off_tasks = update s.tasks p (record (s.tasks p) { active = false })

  drop-dcs :
      (e : ℕ)
      → (flight_of ((drop_active_task p s).dcs e) ≡ flight_of (s.dcs e))
        × (tasks_of ((drop_active_task p s).dcs e) ≡ (
            if e == (s.tasks p).dc
            then remove_first p (tasks_of (s.dcs e))
            else tasks_of (s.dcs e)))
  unfolding drop_active_task
  drop-dcs e = elim (ℕ_discrete e (s.tasks p).dc) [
    | yes same ↦ rw same (ground arith)
    | no other ↦ ground arith
  ]

  drop-Listed : (e : ℕ) → Listed off_tasks s.next_task e (tasks_of ((drop_active_task p s).dcs e))
  drop-Listed e = elim (ℕ_discrete e (s.tasks p).dc) [
    | yes same ↦
        let there : tasks_of ((drop_active_task p s).dcs e) ≡ remove_first p (tasks_of (s.dcs e)) =
          ground (arith, drop-dcs e) in
        rw there (Listed-remove_first s.tasks _ s.next_task e p _ (h.listed e))
    | no other ↦
        let there : tasks_of ((drop_active_task p s).dcs e) ≡ tasks_of (s.dcs e) =
          ground (arith, drop-dcs e) in
        rw there (
          Listed-other s.tasks _ s.next_task e p _
            (Absent-dc s.tasks s.next_task e p _ (λ same. other (sym same)) (h.listed e))
            (h.listed e))
  ]

  drop_active_task-Inv : Inv (drop_active_task p s) c (suc hands)
  unfolding drop_active_task
  drop_active_task-Inv = record {
    permits = λ x. ground (arith, h.permits x);
    lanes = λ e.
        (drop-dcs e).0
        ∙ h.lanes e
        ∙ sum_below-eq s.next_task (lane s.tasks e) (lane off_tasks e) (λ x _. ground arith);
    queued = λ x. ground (arith, h.queued x);
    listed = drop-Listed;
    owned = h.owned;
    busy = λ x b. ground (arith, h.busy x);
    waking = λ x r e. ground (arith, h.waking x r);
    held = h.held;
    allocated = λ x a. ground (arith, h.allocated x);
    known = λ id q e. ground (arith, h.known id q);
    tokens = ground (
      arith,
      h.tokens,
      h.allocated p,
      sum_below-change s.next_task p (active_bit s.tasks) (active_bit off_tasks) (h.allocated p on)
          (λ x ne. ground arith),
    );
  }

  pub remove_active_task-Inv : Inv (remove_active_task p s) c (suc hands)
  unfolding remove_active_task
  remove_active_task-Inv =
      dispatch-Inv (s.tasks p).dc (drop_active_task p s) c (suc hands) drop_active_task-Inv

-- A call with a grant is in no queue, so its end is not seen there.
pub QueueOk-end :
    (waiter : ℕ → Waiter) (c : Calls) (call : Call) (n p lo w : ℕ) (ws : List ℕ)
    → (waiter w).granted ≡ true
    → QueueOk waiter c n p lo ws
    → QueueOk waiter (update c w call) n p lo ws
QueueOk-end waiter c call n p lo w [] g q = tt
QueueOk-end waiter c call n p lo w (u ∷ us) g q =
    let differs : u ≢ w = λ e. differ (ap (λ x. (waiter x).granted) e) in
    (
      q.0,
      q.1,
      q.2,
      ground (arith, q.3),
      ground (arith, q.4),
      QueueOk-end waiter c call n p (suc u) w us g q.5,
    )
  where
    differ : (waiter u).granted ≡ (waiter w).granted → ⊥
    differ e = ground (arith, q.2)

pub release_token-Inv :
    (s : Scheduler) (c : Calls) (hands : ℕ)
    → Inv s c (suc hands)
    → (s' : Scheduler) × (release_token s ≡ some s') × Inv s' c hands
unfolding release_token
release_token-Inv s c hands h = (
  record s { file_tokens = record { limit = s.file_tokens.limit; used = s.file_tokens.used - 1 } },
  ground (arith, h.tokens),
  record {
    permits = h.permits;
    lanes = h.lanes;
    queued = h.queued;
    listed = h.listed;
    owned = h.owned;
    busy = h.busy;
    waking = h.waking;
    held = h.held;
    allocated = h.allocated;
    known = h.known;
    tokens = omega (arith, h.tokens);
  },
)

-- The call `w` of task `p` has a lane.
pub record HasLane (s : Scheduler) (c : Calls) (p w : ℕ) : Type 0 where
  pub made : w < s.next_waiter
  pub for_task : (c w).task ≡ p
  pub granted : (s.waiter w).granted ≡ true
  pub open_ : (c w).phase ≢ finished

abbrev pub end_call : Calls → ℕ → Calls
end_call c w = update c w (record { task = (c w).task; phase = finished })

module _ (s : Scheduler) (c : Calls) (hands p w : ℕ) (has : HasLane s c p w)
    (h : Inv s c hands) where
  open has use {made, for_task, granted, open_}

  has_permit : permit s.waiter c p w ≡ 1
  has_permit = ground arith

  used_lane : 0 < (s.tasks p).in_flight
  used_lane =
      omega
        (arith, has_permit, h.permits p, le-sum_below s.next_waiter w (permit s.waiter c p) made)

  task_made : p < s.next_task
  task_made = h.allocated p (h.busy p used_lane)

  dc_lanes : (s.tasks p).in_flight ≤ flight_of (s.dcs (s.tasks p).dc)
  dc_lanes = ground (
    arith,
    h.lanes (s.tasks p).dc,
    le-sum_below s.next_task p (lane s.tasks (s.tasks p).dc) task_made,
  )

  abbrev lowered_tasks : ℕ → TaskState
  lowered_tasks = update s.tasks p (record (s.tasks p) { in_flight = (s.tasks p).in_flight - 1 })

  lowered-permits :
      (x : ℕ)
      → (lowered_tasks x).in_flight ≡ sum_below s.next_waiter (permit s.waiter (end_call c w) x)
  lowered-permits x = ground (
    arith,
    h.permits x,
    used_lane,
    has_permit,
    sum_below-change s.next_waiter w (permit s.waiter c x) (permit s.waiter (end_call c w) x) made
        (λ y ne. ground arith),
  )

  return_lane-Inv :
      (dc : DcState)
      → s.dcs (s.tasks p).dc ≡ some dc
      → Inv (return_lane p dc s) (end_call c w) hands
  unfolding return_lane
  return_lane-Inv dc e = record {
    permits = lowered-permits;
    lanes = λ d. ground (
      arith,
      e,
      h.lanes d,
      h.lanes (s.tasks p).dc,
      used_lane,
      dc_lanes,
      sum_below-change s.next_task p (lane s.tasks d) (lane lowered_tasks d) task_made
          (λ x ne. ground arith),
    );
    queued = λ x.
        let same : (lowered_tasks x).waiters ≡ (s.tasks x).waiters = ground arith in
        rw same (QueueOk-end s.waiter c _ s.next_waiter x 0 w _ granted (h.queued x));
    listed = λ d.
        let same : tasks_of
              (update s.dcs (s.tasks p).dc (some (record dc { in_flight = dc.in_flight - 1 })) d)
            ≡ tasks_of (s.dcs d) =
          elim (ℕ_discrete d (s.tasks p).dc) [
            | yes here ↦ rw here (ground (arith, e))
            | no ne ↦ ground arith
          ] in
        rw same (
          Listed-same s.tasks lowered_tasks s.next_task d _ (λ x. ground arith) (λ x. ground arith)
            (h.listed d));
    owned = λ y l. ground (arith, h.owned y);
    busy = λ x b. ground (arith, h.busy x);
    waking = λ x r f. ground (arith, h.waking x r);
    held = λ y f. ground (arith, h.held y);
    allocated = λ x a. ground (arith, h.allocated x);
    known = h.known;
    tokens =
        rw
          (sum_below-eq s.next_task (active_bit lowered_tasks) (active_bit s.tasks)
            (λ x _. ground arith))
          h.tokens;
  }

  dc_found : (dc : DcState) × (s.dcs (s.tasks p).dc ≡ some dc) × (0 < dc.in_flight)
  dc_found = elim (Option-cases (s.dcs (s.tasks p).dc)) [
    | inl e ↦ absurd (ground (arith, e, used_lane, dc_lanes))
    | inr (dc, e) ↦ (dc, e, ground (arith, e, used_lane, dc_lanes))
  ]

  release_chunk-last :
      (dc : DcState)
      → s.dcs (s.tasks p).dc ≡ some dc
      → 0 < dc.in_flight
      → ((s.tasks p).refs == 0 && (s.tasks p).in_flight - 1 == 0) ≡ true
      → (s' : Scheduler) × (release_chunk p s ≡ some s') × Inv s' (end_call c w) hands
  unfolding release_chunk
  release_chunk-last dc e some_lane last =
      let returned = return_lane p dc s in
      let dropped : Inv (remove_active_task p returned) (end_call c w) (suc hands) =
        remove_active_task-Inv returned (end_call c w) hands p (ground (arith, h.busy p used_lane))
          (ground (arith, last)) (return_lane-Inv dc e) in
      let (s', freed, inv) =
        release_token-Inv (remove_active_task p returned) (end_call c w) hands dropped in
      let step : release_chunk p s ≡ release_token (remove_active_task p returned) =
        rw (e, release_chunk) (rw last (ground (arith, used_lane, some_lane))) in
      (s', step ∙ freed, inv)

  release_chunk-more :
      (dc : DcState)
      → s.dcs (s.tasks p).dc ≡ some dc
      → 0 < dc.in_flight
      → ((s.tasks p).refs == 0 && (s.tasks p).in_flight - 1 == 0) ≡ false
      → (s' : Scheduler) × (release_chunk p s ≡ some s') × Inv s' (end_call c w) hands
  unfolding release_chunk
  release_chunk-more dc e some_lane more =
      let returned = return_lane p dc s in
      (
        dispatch (s.tasks p).dc returned,
        rw (e, release_chunk) (rw more (ground (arith, used_lane, some_lane))),
        dispatch-Inv (s.tasks p).dc returned (end_call c w) hands (return_lane-Inv dc e),
      )

  -- A call that has a lane can return it: `releaseChunkLocked` does not panic, and the invariant holds
  -- of the call ended.
  pub release_chunk-Inv :
      (s' : Scheduler) × (release_chunk p s ≡ some s') × Inv s' (end_call c w) hands
  release_chunk-Inv =
      let (dc, e, some_lane) = dc_found in
      elim (Bool-cases ((s.tasks p).refs == 0 && (s.tasks p).in_flight - 1 == 0)) [
        | inl last ↦ release_chunk-last dc e some_lane last
        | inr more ↦ release_chunk-more dc e some_lane more
      ]
