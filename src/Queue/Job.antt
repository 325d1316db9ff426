-- ===== src/Queue/Job.antt =====
-- ForwardJob and ForwardActionResult of interfaces/types/forward.go, and the policy of
-- application/forwarder/config.go. A job's fields are in two groups: `route` has those that nothing
-- changes, `progress` those that the transport reports. A time or a duration is its nanoseconds.
use Prim.Native.String.{String}
use tdl.Prelude.{
  ℕ, zero, suc, ◌*◌, ◌/◌, ◌-◌, Bool, true, false, Option, none, some, List, if◌then◌else◌, leb, ltb,
}
use tdl.Prelude.Int.{ℤ}

-- The statuses; the field is a text, so that a stored job may have another one.
pub data Status : Type 0 where
  queued : Status
  running : Status
  paused : Status
  retrying : Status
  done : Status
  error : Status
  other : String → Status

pub data Source : Type 0 where
  command : Source
  watch : Source

-- Where a job comes from and where it goes.
pub record Route : Type 0 where
  pub source : Source
  pub source_link : String
  pub source_peer_id : ℤ
  pub source_peer_kind : String
  pub rule_id : String
  pub source_message_id : ℤ
  pub destination : String
  pub mode : String
  pub silent : Bool

pub record Progress : Type 0 where
  pub origin_name : String
  pub destination_name : String
  pub total : ℕ
  pub sent : ℕ
  pub clone_done : ℕ
  pub clone_total : ℕ

-- ForwardJob; `sent` of the progress is its field Done.
pub record Job : Type 0 where
  pub id : String
  pub route : Route
  pub progress : Progress
  pub status : Status
  pub attempts : ℕ
  pub message : String
  pub created_at : ℕ
  pub updated_at : ℕ
  pub started_at : Option ℕ
  pub finished_at : Option ℕ
  pub next_attempt_at : Option ℕ

abbrev pub is_queued : Status → Bool
is_queued queued = true
is_queued running = false
is_queued paused = false
is_queued retrying = false
is_queued done = false
is_queued error = false
is_queued (other _) = false

abbrev pub is_running : Status → Bool
is_running running = true
is_running queued = false
is_running paused = false
is_running retrying = false
is_running done = false
is_running error = false
is_running (other _) = false

-- Queued or retrying.
abbrev pub is_waiting : Status → Bool
is_waiting queued = true
is_waiting retrying = true
is_waiting running = false
is_waiting paused = false
is_waiting done = false
is_waiting error = false
is_waiting (other _) = false

-- Terminal
abbrev pub is_terminal : Status → Bool
is_terminal done = true
is_terminal error = true
is_terminal queued = false
is_terminal running = false
is_terminal paused = false
is_terminal retrying = false
is_terminal (other _) = false

-- terminalTime
abbrev pub terminal_time : Job → ℕ
terminal_time job = elim job.finished_at [ none ↦ job.created_at | some t ↦ t ]

-- ForwardActionResult; an error is the id that it is about.
pub record ActionResult : Type 0 where
  pub matched : ℕ
  pub changed : ℕ
  pub skipped : ℕ
  pub errors : List String

-- The part of the policy that the queue reads.
pub record Policy : Type 0 where
  pub base : ℕ
  pub maximum : ℕ
  pub retention : ℕ
  pub attempts : ℕ
  pub history : ℕ

-- The loop of backoff, on the rounds that are left.
unfoldable pub double_delay : ℕ → ℕ → ℕ → ℕ
double_delay maximum zero delay = if ltb maximum delay then maximum else delay
double_delay maximum (suc rounds) delay =
    let rest = double_delay maximum rounds (delay * 2) in
    if leb (maximum / 2) delay then maximum else rest

-- policy.backoff
unfoldable pub backoff : Policy → ℕ → ℕ
unfolding double_delay
backoff p attempts = double_delay p.maximum (attempts - 1) p.base

abbrev pub nanoseconds : ℕ
nanoseconds = 1000000000

-- PrepareConfig on the decoded fields of the queue, whose ranges the manifest has checked: seconds, hours
-- and numbers. `none` is the error.
unfoldable pub prepare_policy : ℕ → ℕ → ℕ → ℕ → ℕ → ℕ → Option Policy
prepare_policy base maximum attempts hours history dedupe =
    if ltb maximum base
    then none
    else if leb dedupe 0
    then none
    else some (record {
      base = base * nanoseconds;
      maximum = maximum * nanoseconds;
      retention = hours * 3600 * nanoseconds;
      attempts = attempts;
      history = history;
    })
