-- ===== src/Scheduler/Invariant/Files.antt =====
-- The invariant at the sections of Acquire and Release and at Reconfigure of
-- bsw/ecual/comif/scheduler.go, and at the file limiter of file_limiter.go.
use Prim.Native.String.{String}
use tdl.Prelude.{
  ℕ, suc, ◌+◌, ◌-◌, ◌≡◌, refl, subst, ◌∙◌, ◌⊎◌, inl, inr, Bool, true, false, not, ◌&&◌, ◌||◌, none,
  some, List, [], ◌∷◌, ◌==◌, if◌then◌else◌, ltb, arith, ℕ_discrete, Bool-cases,
}
use tdl.Prelude.Sums.{sum_below-eq}
use tdl.Scheduler.State.{Waiter, Scheduler, tasks_of, set_task, set_file, acquire_token}
use tdl.Scheduler.Dispatch.{dispatch}
use tdl.Scheduler.Leases.{
  is_idle, is_current, cancel_waiters, release_task, dispatch_all, reconfigure,
}
use tdl.Scheduler.Invariant.{Calls, permit, lane, active_bit, QueueOk, Inv}
use tdl.Scheduler.Invariant.Grants.{dispatch-Inv, Listed-same}
use tdl.Scheduler.Invariant.Removal.{remove_active_task-Inv}

-- A waiter may turn canceled, and nothing else of it changes but its channel.
record Canceled (before after : Waiter) : Type 0 where
  granted : after.granted ≡ before.granted
  canceled : (after.canceled ≡ false) → after ≡ before

cancel_waiters-Canceled :
    (ws : List ℕ) (waiter : ℕ → Waiter) (w : ℕ) → Canceled (waiter w) (cancel_waiters ws waiter w)
unfolding cancel_waiters
cancel_waiters-Canceled [] waiter w = record { granted = refl; canceled = λ _. refl }
cancel_waiters-Canceled (u ∷ us) waiter w =
    let later =
      cancel_waiters-Canceled us
        (λ j.
          if j == u && not (waiter u).canceled
          then record (waiter u) { canceled = true; ready = true }
          else waiter j)
        w in
    record {
      granted = later.granted ∙ ground arith;
      canceled = λ e. ground (arith, e, later.canceled e);
    }

QueueOk-cancel :
    (waiter waiter' : ℕ → Waiter) (c : Calls) (n p lo : ℕ) (ws : List ℕ)
    → ((w : ℕ) → Canceled (waiter w) (waiter' w))
    → QueueOk waiter c n p lo ws
    → QueueOk waiter' c n p lo ws
QueueOk-cancel waiter waiter' c n p lo [] h q = tt
QueueOk-cancel waiter waiter' c n p lo (w ∷ ws) h q = (
  q.0,
  q.1,
  (h w).granted ∙ q.2,
  q.3,
  λ alive. let same = (h w).canceled alive in ground (arith, q.4, same),
  QueueOk-cancel waiter waiter' c n p (suc w) ws h q.5,
)

-- The reference count and the queue of a task, and canceled waiters.
module _ (s : Scheduler) (c : Calls) (hands p refs : ℕ) (q : List ℕ) (waiter' : ℕ → Waiter)
    (h : Inv s c hands) where
  abbrev let_go : Scheduler
  let_go = record (set_task p (record (s.tasks p) { refs = refs; waiters = q }) s) {
    waiter = waiter';
  }

  let_go-queue :
      ((w : ℕ) → Canceled (s.waiter w) (waiter' w))
      → (q ≡ (s.tasks p).waiters) ⊎ (q ≡ [])
      → QueueOk waiter' c s.next_waiter p 0 q
  let_go-queue cancels (inl same) =
      rw same (QueueOk-cancel s.waiter waiter' c s.next_waiter p 0 _ cancels (h.queued p))
  let_go-queue cancels (inr empty) = rw empty tt

  let_go-Inv :
      ((w : ℕ) → Canceled (s.waiter w) (waiter' w))
      → (q ≡ (s.tasks p).waiters) ⊎ (q ≡ [])
      → Inv let_go c hands
  let_go-Inv cancels queue = record {
    permits = λ x. ground (
      arith,
      h.permits x,
      sum_below-eq s.next_waiter (permit s.waiter c x) (permit waiter' c x)
          (λ w _. rw (cancels w).granted),
    );
    lanes = λ d.
        h.lanes d
        ∙ sum_below-eq s.next_task (lane s.tasks d) (lane let_go.tasks d) (λ x _. ground arith);
    queued = λ x. elim (ℕ_discrete x p) [
      | yes e ↦
          let same : (let_go.tasks p).waiters ≡ q = ground arith in
          rw e (rw same (let_go-queue cancels queue))
      | no ne ↦
          let same : (let_go.tasks x).waiters ≡ (s.tasks x).waiters = ground arith in
          rw same (QueueOk-cancel s.waiter waiter' c s.next_waiter x 0 _ cancels (h.queued x))
    ];
    listed = λ d.
        Listed-same s.tasks let_go.tasks s.next_task d (tasks_of (s.dcs d)) (λ x. ground arith)
          (λ x. ground arith) (h.listed d);
    owned = h.owned;
    busy = λ x b. ground (arith, h.busy x);
    waking = λ x r e. ground (arith, h.waking x r);
    held = λ w e. (cancels w).granted ∙ h.held w e;
    allocated = λ x a. ground (arith, h.allocated x);
    known = h.known;
    tokens =
        rw
          (sum_below-eq s.next_task (active_bit let_go.tasks) (active_bit s.tasks)
            (λ x _. ground arith))
          h.tokens;
  }

set_file-none-Inv :
    (id : String) (s : Scheduler) (c : Calls) (hands : ℕ)
    → Inv s c hands
    → Inv (set_file id none s) c hands
set_file-none-Inv id s c hands h = record {
  permits = h.permits;
  lanes = h.lanes;
  queued = h.queued;
  listed = h.listed;
  owned = h.owned;
  busy = h.busy;
  waking = h.waking;
  held = h.held;
  allocated = h.allocated;
  known = λ j q e. ground (arith, h.known j q);
  tokens = h.tokens;
}

-- The file tokens in hand after a section that may return one.
abbrev pub hands_after : Bool → ℕ → ℕ
hands_after gives hands = if gives then suc hands else hands

module _ (s : Scheduler) (c : Calls) (hands p : ℕ) (h : Inv s c hands) where
  abbrev last_release : Scheduler
  last_release = let_go s c hands p 0 [] (cancel_waiters (s.tasks p).waiters s.waiter) h

  last_release-Inv : Inv last_release c hands
  last_release-Inv =
      let_go-Inv s c hands p 0 [] _ h (cancel_waiters-Canceled (s.tasks p).waiters s.waiter)
        (inr refl)

  kept-Inv : Inv (set_task p (record (s.tasks p) { refs = (s.tasks p).refs - 1 }) s) c hands
  kept-Inv =
      let_go-Inv s c hands p ((s.tasks p).refs - 1) (s.tasks p).waiters s.waiter h
        (λ w. record { granted = refl; canceled = λ _. refl }) (inl refl)

  -- The last reference of an active task without lanes returns its file token.
  pub release_task-Inv : Inv (release_task p s).0 c (hands_after (release_task p s).1 hands)
  unfolding release_task
  release_task-Inv = elim (Bool-cases (not (is_current p s) || (s.tasks p).refs == 0)) [
    | inl skip ↦ rw skip h
    | inr go ↦ elim (Bool-cases (not ((s.tasks p).refs == 1))) [
      | inl more ↦ rw go (rw more kept-Inv)
      | inr only ↦ elim (Bool-cases ((s.tasks p).active && (s.tasks p).in_flight == 0)) [
        | inl idle ↦ rw go (
            rw only (
              rw idle (
                remove_active_task-Inv last_release c hands p (ground (arith, idle))
                  (ground (arith, idle)) last_release-Inv)))
        | inr other ↦ rw go (
            rw only (
              rw other
                (elim (Bool-cases (not (s.tasks p).active && is_idle (s.tasks p).activating)) [
                  | inl gone ↦
                      rw gone (
                        set_file-none-Inv (s.tasks p).task_id last_release c hands last_release-Inv)
                  | inr stays ↦ rw stays last_release-Inv
                ])))
      ]
    ]
  ]

-- A change of the file limiter, the capacity and the channel counter.
module _ (s : Scheduler) (c : Calls) (hands hands' used limit capacity next_ready : ℕ)
    (h : Inv s c hands) where
  retune-Inv :
      used + hands ≡ s.file_tokens.used + hands'
      → Inv
          (record s {
            file_tokens = record { limit = limit; used = used };
            capacity = capacity;
            next_ready = next_ready;
          })
          c
          hands'
  retune-Inv balance = record {
    permits = h.permits;
    lanes = h.lanes;
    queued = h.queued;
    listed = h.listed;
    owned = h.owned;
    busy = h.busy;
    waking = h.waking;
    held = h.held;
    allocated = h.allocated;
    known = h.known;
    tokens = omega (arith, h.tokens);
  }

pub acquire_token-Inv :
    (s s' : Scheduler) (c : Calls) (hands : ℕ)
    → acquire_token s ≡ some s'
    → Inv s c hands
    → Inv s' c (suc hands)
unfolding acquire_token
acquire_token-Inv s s' c hands e h =
    elim (Bool-cases (ltb s.file_tokens.used s.file_tokens.limit)) [
      | inl free ↦
          let taken : Scheduler = record s {
            file_tokens = record { limit = s.file_tokens.limit; used = s.file_tokens.used + 1 };
          } in
          let same : taken ≡ s' = ground (arith, free, e) in
          subst (λ (x : Scheduler). Inv x c (suc hands)) same
            (retune-Inv s c hands (suc hands) (s.file_tokens.used + 1) s.file_tokens.limit
              s.capacity s.next_ready h (omega arith))
      | inr full ↦ absurd (ground (arith, full, e))
    ]

dispatch_all-Inv :
    (ds : List ℕ) (s : Scheduler) (c : Calls) (hands : ℕ)
    → Inv s c hands
    → Inv (dispatch_all ds s) c hands
unfolding dispatch_all
dispatch_all-Inv [] s c hands h = h
dispatch_all-Inv (d ∷ ds) s c hands h =
    dispatch_all-Inv ds (dispatch d s) c hands (dispatch-Inv d s c hands h)

pub reconfigure-Inv :
    (max_files per_dc : ℕ) (s : Scheduler) (c : Calls) (hands : ℕ)
    → Inv s c hands
    → Inv (reconfigure max_files per_dc s) c hands
unfolding reconfigure
reconfigure-Inv max_files per_dc s c hands h =
    dispatch_all-Inv s.dc_ids _ c hands
      (retune-Inv s c hands hands s.file_tokens.used _ _ s.next_ready h refl)
