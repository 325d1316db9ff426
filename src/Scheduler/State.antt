-- ===== src/Scheduler/State.antt =====
-- The state of bsw/ecual/comif/scheduler.go and file_limiter.go. A pointer to a task or a waiter is
-- the number under which it was allocated, and a map is a function. A data centre's number and a
-- task's identity are only compared.
use Prim.Native.String.{String}
use text.Mathlib.Text.{◌==◌ as str_eq}
use tdl.Prelude.{
  ℕ, ◌+◌, ◌-◌, Bool, false, Option, none, some, List, [], ◌∷◌, ◌++◌, ltb, ◌==◌, if◌then◌else◌,
}

-- chunkWaiter. `ready` says whether its channel is closed.
pub record Waiter : Type 0 where
  pub granted : Bool
  pub canceled : Bool
  pub ready : Bool

-- taskState. `activating` names the channel of the activation that runs.
pub record TaskState : Type 0 where
  pub task_id : String
  pub dc : ℕ
  pub refs : ℕ
  pub active : Bool
  pub activating : Option ℕ
  pub in_flight : ℕ
  pub waiters : List ℕ

-- dcState
pub record DcState : Type 0 where
  pub tasks : List ℕ
  pub in_flight : ℕ

-- fileLimiter. Who waits on `changed` tries again, so the channel itself is not kept.
pub record FileLimiter : Type 0 where
  pub limit : ℕ
  pub used : ℕ

-- Scheduler. `dc_ids` lists the keys of `dcs`; the three counters number what is allocated next.
pub record Scheduler : Type 0 where
  pub file_tokens : FileLimiter
  pub capacity : ℕ
  pub files : String → Option ℕ
  pub dcs : ℕ → Option DcState
  pub dc_ids : List ℕ
  pub tasks : ℕ → TaskState
  pub waiter : ℕ → Waiter
  pub next_task : ℕ
  pub next_waiter : ℕ
  pub next_ready : ℕ

abbrev pub update {ℓ} : {A : Type ℓ} → (ℕ → A) → ℕ → A → ℕ → A
update f k v j = if j == k then v else f j

abbrev pub set_task : ℕ → TaskState → Scheduler → Scheduler
set_task p t s = record s { tasks = update s.tasks p t }

abbrev pub set_waiter : ℕ → Waiter → Scheduler → Scheduler
set_waiter w v s = record s { waiter = update s.waiter w v }

abbrev pub set_dc : ℕ → DcState → Scheduler → Scheduler
set_dc d v s = record s { dcs = update s.dcs d (some v) }

abbrev pub set_file : String → Option ℕ → Scheduler → Scheduler
set_file k v s = record s { files = λ j. if str_eq j k then v else s.files j }

-- normalizeLimit; `int` limits below 1 are given as 0.
unfoldable pub normalize_limit : ℕ → ℕ
normalize_limit v = if ltb v 1 then 1 else v

abbrev no_task : TaskState
no_task = record {
  task_id = "";
  dc = 0;
  refs = 0;
  active = false;
  activating = none;
  in_flight = 0;
  waiters = [];
}

-- NewScheduler
unfoldable pub new_scheduler : ℕ → ℕ → Scheduler
unfolding normalize_limit
new_scheduler max_files per_dc = record {
  file_tokens = record { limit = normalize_limit max_files; used = 0 };
  capacity = normalize_limit per_dc;
  files = λ _. none;
  dcs = λ _. none;
  dc_ids = [];
  tasks = λ _. no_task;
  waiter = λ _. record { granted = false; canceled = false; ready = false };
  next_task = 0;
  next_waiter = 0;
  next_ready = 0;
}

-- The two outcomes of the test in `fileLimiter.acquire`: a token, or a wait for `changed`.
unfoldable pub acquire_token : Scheduler → Option Scheduler
acquire_token s =
    let t = s.file_tokens in
    if ltb t.used t.limit
    then some (record s { file_tokens = record t { used = t.used + 1 } })
    else none

-- fileLimiter.release; `none` is the panic.
unfoldable pub release_token : Scheduler → Option Scheduler
release_token s =
    let t = s.file_tokens in
    if t.used == 0 then none else some (record s { file_tokens = record t { used = t.used - 1 } })

-- fileLimiter.resize
unfoldable pub resize : ℕ → Scheduler → Scheduler
resize limit s = record s { file_tokens = record { limit = limit; used = s.file_tokens.used } }

-- dcLocked on the map and on the list of its keys
unfoldable pub dc_locked : ℕ → Scheduler → Scheduler
dc_locked d s = record s {
  dcs = elim (s.dcs d) [
    | some _ ↦ s.dcs
    | none ↦ update s.dcs d (some (record { tasks = []; in_flight = 0 }))
  ];
  dc_ids = elim (s.dcs d) [ some _ ↦ s.dc_ids | none ↦ s.dc_ids ++ d ∷ [] ];
}

abbrev pub flight_of : Option DcState → ℕ
flight_of none = 0
flight_of (some dc) = dc.in_flight

abbrev pub tasks_of : Option DcState → List ℕ
tasks_of none = []
tasks_of (some dc) = dc.tasks
