-- ===== src/Scheduler/Leases.antt =====
-- The sections that the methods of bsw/ecual/comif/scheduler.go run under the lock, one function
-- each. A goroutine's place between two sections is in `Scheduler/System.antt`.
use Prim.Native.String.{String}
use tdl.Prelude.{
  ℕ, suc, ◌+◌, ◌-◌, Bool, true, false, not, ◌&&◌, ◌||◌, Option, none, some, List, [], ◌∷◌, ◌++◌,
  ◌==◌, if◌then◌else◌,
}
use tdl.Scheduler.State.{
  Waiter, TaskState, DcState, Scheduler, set_task, set_waiter, set_dc, set_file, normalize_limit,
  release_token, resize, dc_locked, update,
}
use tdl.Scheduler.Dispatch.{dispatch}

-- The pointer test `s.files[state.taskID] == state`.
abbrev pub is_current : ℕ → Scheduler → Bool
is_current p s = elim (s.files (s.tasks p).task_id) [ none ↦ false | some q ↦ q == p ]

-- The loop of removeActiveTaskLocked over `dc.tasks`: the first occurrence goes.
unfoldable pub remove_first : ℕ → List ℕ → List ℕ
remove_first p [] = []
remove_first p (q ∷ qs) = if q == p then qs else q ∷ remove_first p qs

unfoldable pub unlist : ℕ → ℕ → (ℕ → Option DcState) → ℕ → Option DcState
unfolding remove_first
unlist p d dcs = elim (dcs d) [
  | none ↦ dcs
  | some dc ↦ update dcs d (some (record dc { tasks = remove_first p dc.tasks }))
]

-- removeActiveTaskLocked before its dispatch
unfoldable pub drop_active_task : ℕ → Scheduler → Scheduler
unfolding unlist
drop_active_task p s =
    let t = s.tasks p in
    set_file t.task_id none
      (set_task p (record t { active = false }) (record s { dcs = unlist p t.dc s.dcs }))

-- removeActiveTaskLocked
unfoldable pub remove_active_task : ℕ → Scheduler → Scheduler
unfolding drop_active_task
remove_active_task p s = dispatch (s.tasks p).dc (drop_active_task p s)

-- The two decrements of releaseChunkLocked.
unfoldable pub return_lane : ℕ → DcState → Scheduler → Scheduler
return_lane p dc s =
    let t = s.tasks p in
    set_dc t.dc (record dc { in_flight = dc.in_flight - 1 })
      (set_task p (record t { in_flight = t.in_flight - 1 }) s)

-- releaseChunkLocked; `none` is a panic, its own or that of the file limiter.
unfoldable pub release_chunk : ℕ → Scheduler → Option Scheduler
unfolding return_lane
release_chunk p s =
    let t = s.tasks p in
    elim (s.dcs t.dc) [
      | none ↦ none
      | some dc ↦
          let returned = return_lane p dc s in
          if t.in_flight == 0 || dc.in_flight == 0
          then none
          else if t.refs == 0 && t.in_flight - 1 == 0
          then release_token (remove_active_task p returned)
          else some (dispatch t.dc returned)
    ]

-- The loop of releaseTask over the waiters.
unfoldable pub cancel_waiters : List ℕ → (ℕ → Waiter) → ℕ → Waiter
cancel_waiters [] waiter = waiter
cancel_waiters (w ∷ ws) waiter =
    let v = waiter w in
    cancel_waiters ws (λ j.
      if j == w && not v.canceled then record v { canceled = true; ready = true } else waiter j)

abbrev pub is_idle : Option ℕ → Bool
is_idle none = true
is_idle (some _) = false

-- releaseTask under the lock; the flag is `releaseFile`, on which the caller returns a file token.
unfoldable pub release_task : ℕ → Scheduler → Scheduler × Bool
unfolding cancel_waiters
release_task p s =
    let t = s.tasks p in
    let kept = set_task p (record t { refs = t.refs - 1 }) s in
    let dropped = set_task p (record t { refs = 0; waiters = [] }) s in
    let last = record dropped { waiter = cancel_waiters t.waiters s.waiter } in
    if not (is_current p s) || t.refs == 0
    then (s, false)
    else if not (t.refs == 1)
    then (kept, false)
    else if t.active && t.in_flight == 0
    then (remove_active_task p last, true)
    else if not t.active && is_idle t.activating
    then (set_file t.task_id none last, false)
    else (last, false)

-- How a round of the loop of acquireTask goes on after the lock.
pub data Round : Type 0 where
  -- The context has ended, or the task changed its data centre: release the state, if registered.
  refused : Option ℕ → Round
  leased : ℕ → Round
  -- Wait for the activation that another goroutine runs.
  wait_activation : ℕ → ℕ → Round
  -- Acquire a file token, then complete the activation.
  activate : ℕ → ℕ → Round

abbrev pub fresh_task : String → ℕ → TaskState
fresh_task id d = record {
  task_id = id;
  dc = d;
  refs = 0;
  active = false;
  activating = none;
  in_flight = 0;
  waiters = [];
}

-- The `switch` of acquireTask.
unfoldable pub acquire_switch : ℕ → Scheduler → Scheduler × Round
acquire_switch p s =
    let t = s.tasks p in
    if t.active then (s, leased p) else elim t.activating [
      | some ready ↦ (s, wait_activation p ready)
      | none ↦ (
        record (set_task p (record t { activating = some s.next_ready }) s) {
          next_ready = s.next_ready + 1;
        },
        activate p s.next_ready,
      )
    ]

abbrev pub register : Option ℕ → ℕ → Scheduler → Scheduler
register (some _) p s = s
register none p s = let t = s.tasks p in set_task p (record t { refs = t.refs + 1 }) s

-- The state that is released on a changed data centre: the one looked up, if registered.
abbrev rejected : Option ℕ → ℕ → Option ℕ
rejected none p = none
rejected (some _) p = some p

-- One round of acquireTask's loop; `registered` is the state of the earlier rounds, if any, and
-- `ended` says that the context has ended.
unfoldable pub acquire_round : Bool → Option ℕ → String → ℕ → Scheduler → Scheduler × Round
unfolding acquire_switch
acquire_round ended registered id d s =
    if ended then (s, refused registered) else elim (s.files id) [
      | none ↦
          let p = s.next_task in
          let made = record (set_file id (some p) (set_task p (fresh_task id d) s)) {
            next_task = suc p;
          } in
          acquire_switch p (register registered p made)
      | some p ↦
          if not ((s.tasks p).dc == d)
          then (s, refused (rejected registered p))
          else acquire_switch p (register registered p s)
    ]

abbrev pub same_ready : Option ℕ → ℕ → Bool
same_ready none ready = false
same_ready (some r) ready = r == ready

unfoldable pub enlist : ℕ → ℕ → (ℕ → Option DcState) → ℕ → Option DcState
enlist p d dcs = elim (dcs d) [
  | none ↦ dcs
  | some dc ↦ update dcs d (some (record dc { tasks = dc.tasks ++ p ∷ [] }))
]

-- The success case of completeActivation before its dispatch.
unfoldable pub make_active : ℕ → Scheduler → Scheduler
unfolding enlist dc_locked
make_active p s =
    let t = s.tasks p in
    let located = dc_locked t.dc (set_task p (record t { activating = none; active = true }) s) in
    record located { dcs = enlist p t.dc located.dcs }

-- completeActivation under the lock; the flag is `releaseFile`.
unfoldable pub complete_activation : ℕ → ℕ → Bool → Scheduler → Scheduler × Bool
complete_activation p ready success s =
    let t = s.tasks p in
    if not (is_current p s)
    then (s, success)
    else if not (same_ready t.activating ready)
    then (s, success)
    else if success
    then (dispatch t.dc (make_active p s), false)
    else (set_task p (record t { activating = none }) s, false)

-- The waiter of AcquireChunk joins the queue of its task.
unfoldable pub queue_request : ℕ → Scheduler → Scheduler
queue_request p s =
    let t = s.tasks p in
    let w = s.next_waiter in
    let blank : Waiter = record { granted = false; canceled = false; ready = false } in
    record (set_task p (record t { waiters = t.waiters ++ w ∷ [] }) (set_waiter w blank s)) {
      next_waiter = suc w;
    }

-- AcquireChunk up to its `select`: the waiter, or `none` for an error.
unfoldable pub request_chunk : Bool → ℕ → Scheduler → Scheduler × Option ℕ
request_chunk ended p s =
    let t = s.tasks p in
    if ended || (not t.active || t.refs == 0)
    then (s, none)
    else (dispatch t.dc (queue_request p s), some s.next_waiter)

-- AcquireChunk at `<-w.ready`: whether a ChunkLease results; `none` is a panic.
unfoldable pub take_grant : Bool → ℕ → ℕ → Scheduler → Option (Scheduler × Bool)
take_grant ended p w s =
    let granted = (s.waiter w).granted in
    if granted && ended
    then elim (release_chunk p s) [ none ↦ none | some s' ↦ some (s', false) ]
    else some (s, granted)

-- AcquireChunk at `<-ctx.Done()`; `none` is a panic.
unfoldable pub abandon_wait : ℕ → ℕ → Scheduler → Option Scheduler
abandon_wait p w s =
    let v = s.waiter w in
    if v.granted
    then release_chunk p s
    else some (dispatch (s.tasks p).dc (set_waiter w (record v { canceled = true }) s))

unfoldable pub dispatch_all : List ℕ → Scheduler → Scheduler
dispatch_all [] s = s
dispatch_all (d ∷ ds) s = dispatch_all ds (dispatch d s)

-- Reconfigure
unfoldable pub reconfigure : ℕ → ℕ → Scheduler → Scheduler
unfolding normalize_limit resize dispatch_all
reconfigure max_files per_dc s =
    dispatch_all s.dc_ids
      (resize (normalize_limit max_files) (record s { capacity = normalize_limit per_dc }))
