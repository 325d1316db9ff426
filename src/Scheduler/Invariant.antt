-- ===== src/Scheduler/Invariant.antt =====
-- What holds of the scheduler whenever its lock is free, and of the calls of AcquireChunk around it:
-- every lane in use is a permit that some call holds, for tasks and for data centres.
pub mod Grants
pub mod Removal
pub mod Chunks
pub mod Files
pub mod Tasks
use Prim.Native.String.{String}
use tdl.Prelude.{
  ℕ, suc, ◌+◌, ◌≤◌, ◌<◌, ◌≡◌, ◌≢◌, Bool, true, false, ◌&&◌, ◌||◌, Option, none, some, List, [], ◌∷◌,
  ◌==◌, if◌then◌else◌,
}
use tdl.Prelude.Sums.{sum_below}
use tdl.Scheduler.State.{Waiter, TaskState, Scheduler, flight_of, tasks_of}

-- A call of AcquireChunk, numbered like the waiter that it made: it waits, its lease is held, or it
-- has returned an error or released its lease.
pub data Phase : Type 0 where
  waiting holding finished : Phase

pub record Call : Type 0 where
  pub task : ℕ
  pub phase : Phase

abbrev pub Calls : Type 0
Calls = ℕ → Call

abbrev pub keeps : Phase → Bool → Bool
keeps waiting granted = granted
keeps holding granted = true
keeps finished granted = false

-- 1 if call `w` has a lane of task `p`.
abbrev pub permit : (ℕ → Waiter) → Calls → ℕ → ℕ → ℕ
permit waiter c p w = if (c w).task == p && keeps (c w).phase (waiter w).granted then 1 else 0

-- The lanes that task `p` uses in data centre `d`.
abbrev pub lane : (ℕ → TaskState) → ℕ → ℕ → ℕ
lane tasks d p = if (tasks p).dc == d then (tasks p).in_flight else 0

abbrev pub active_bit : (ℕ → TaskState) → ℕ → ℕ
active_bit tasks p = if (tasks p).active then 1 else 0

-- The queue of task `p`: numbers rise from `lo`, and each is a call for `p` that has no grant and, if
-- not canceled, still waits on an open channel.
abbrev pub QueueOk : (ℕ → Waiter) → Calls → ℕ → ℕ → ℕ → List ℕ → Type 0
QueueOk waiter c n p lo [] = Unit {0}
QueueOk waiter c n p lo (w ∷ ws) =
    (lo ≤ w)
    × (w < n)
    × ((waiter w).granted ≡ false)
    × ((c w).task ≡ p)
    × ((waiter w).canceled ≡ false → ((c w).phase ≡ waiting) × ((waiter w).ready ≡ false))
    × QueueOk waiter c n p (suc w) ws

abbrev pub Absent : ℕ → List ℕ → Type 0
Absent p [] = Unit {0}
Absent p (q ∷ qs) = (q ≢ p) × Absent p qs

-- The task list of data centre `d`: active tasks of `d`, each once.
abbrev pub Listed : (ℕ → TaskState) → ℕ → ℕ → List ℕ → Type 0
Listed tasks n d [] = Unit {0}
Listed tasks n d (p ∷ ps) =
    (p < n) × ((tasks p).dc ≡ d) × ((tasks p).active ≡ true) × Absent p ps × Listed tasks n d ps

-- `hands` counts the file tokens that goroutines hold outside the lock: between the acquisition of a
-- token and completeActivation, and between a section that gives one up and its return.
pub record Inv (s : Scheduler) (c : Calls) (hands : ℕ) : Type 0 where
  pub permits : (p : ℕ) → (s.tasks p).in_flight ≡ sum_below s.next_waiter (permit s.waiter c p)
  pub lanes : (d : ℕ) → flight_of (s.dcs d) ≡ sum_below s.next_task (lane s.tasks d)
  pub queued : (p : ℕ) → QueueOk s.waiter c s.next_waiter p 0 (s.tasks p).waiters
  pub listed : (d : ℕ) → Listed s.tasks s.next_task d (tasks_of (s.dcs d))
  pub owned : (w : ℕ) → w < s.next_waiter → (c w).task < s.next_task
  pub busy : (p : ℕ) → 0 < (s.tasks p).in_flight → (s.tasks p).active ≡ true
  pub waking : (p r : ℕ) → (s.tasks p).activating ≡ some r → (s.tasks p).active ≡ false
  pub held : (w : ℕ) → (c w).phase ≡ holding → (s.waiter w).granted ≡ true
  pub allocated : (p : ℕ) → (s.tasks p).active ≡ true → p < s.next_task
  pub known : (id : String) (p : ℕ) → s.files id ≡ some p → p < s.next_task
  pub tokens : s.file_tokens.used ≡ sum_below s.next_task (active_bit s.tasks) + hands
