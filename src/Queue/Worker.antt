-- ===== src/Queue/Worker.antt =====
-- The worker of application/forwarder/queue.go: recoverRunning, pickNext, pruneTerminal and runJob, whose
-- critical sections are functions. The transport is the port ForwardTransport: it reports progress,
-- which `Progress` and the message hold, and ends with an outcome. The other fields are the queue's.
use Prim.Native.String.{String}
use tdl.Prelude.{
  ℕ, ◌+◌, ◌-◌, Bool, true, false, not, ◌&&◌, ◌||◌, Option, none, some, List, [], ◌∷◌, if◌then◌else◌,
  ltb, leb, length,
}
use tdl.Queue.Job.{
  Status, queued, running, paused, retrying, done, error, other, Job, is_running, is_waiting,
  is_terminal, terminal_time, Policy, backoff,
}
use tdl.Queue.Repository.{find_job, update_job, remove_job, records}

-- The callback of recoverRunning.
unfoldable pub recover_change : Job → Option Job
recover_change job =
    if is_running job.status then some (record job { status = queued; started_at = none }) else none

-- The loop of recoverRunning over the records; `fails` is about one update.
unfoldable pub recover_each : (String → Bool) → ℕ → List Job → List Job → List Job
recover_each fails now [] jobs = jobs
recover_each fails now (j ∷ js) jobs = recover_each fails now js (
    if is_running j.status && not (fails j.id)
    then (update_job now j.id recover_change jobs).1
    else jobs)

-- recoverRunning
unfoldable pub recover_running : Bool → (String → Bool) → ℕ → List Job → List Job
unfolding recover_each
recover_running fails_records fails now jobs =
    if fails_records then jobs else recover_each fails now (records jobs) jobs

unfoldable pub terminal_jobs : List Job → List Job
terminal_jobs [] = []
terminal_jobs (j ∷ js) = if is_terminal j.status then j ∷ terminal_jobs js else terminal_jobs js

-- The stable sort of pruneTerminal, oldest first.
unfoldable pub insert_ended : Job → List Job → List Job
insert_ended j [] = j ∷ []
insert_ended j (k ∷ ks) =
    let rest = insert_ended j ks in
    if ltb (terminal_time k) (terminal_time j) then k ∷ rest else j ∷ k ∷ ks

unfoldable pub sort_ended : List Job → List Job
sort_ended [] = []
sort_ended (j ∷ js) = insert_ended j (sort_ended js)

-- The last loop of pruneTerminal: `over` jobs are too many, the others go by their age.
unfoldable pub drop_ended : (String → Bool) → ℕ → ℕ → ℕ → List Job → List Job → List Job
drop_ended fails now retention over [] jobs = jobs
drop_ended fails now retention over (j ∷ js) jobs =
    let drops = ltb 0 over || ltb retention (now - terminal_time j) in
    drop_ended fails now retention (over - 1) js
      (if drops && not (fails j.id) then remove_job j.id jobs else jobs)

-- pruneTerminal
unfoldable pub prune_terminal : (String → Bool) → ℕ → Policy → List Job → List Job → List Job
unfolding terminal_jobs sort_ended insert_ended drop_ended
prune_terminal fails now p listed jobs =
    let ended = sort_ended (terminal_jobs listed) in
    drop_ended fails now p.retention (length ended - p.history) ended jobs

-- Waiting, and past its backoff.
unfoldable pub is_eligible : ℕ → Job → Bool
is_eligible now job =
    is_waiting job.status && elim job.next_attempt_at [ none ↦ true | some t ↦ leb t now ]

-- The loop of pickNext with the best job so far.
unfoldable pub pick_best : ℕ → List Job → Option Job → Option Job
pick_best now [] best = best
pick_best now (j ∷ js) best = pick_best now js (
    if is_eligible now j
    then elim best [
      | none ↦ some j
      | some b ↦ if ltb j.created_at b.created_at then some j else some b
    ]
    else best)

-- pickNext: the jobs after the pruning, and the choice among the records before it.
unfoldable pub pick_next : Bool → (String → Bool) → ℕ → Policy → List Job → List Job × Option Job
unfolding prune_terminal is_eligible pick_best
pick_next fails_records fails now p jobs =
    if fails_records
    then (jobs, none)
    else (prune_terminal fails now p (records jobs) jobs, pick_best now (records jobs) none)

-- The callback of the claim.
unfoldable pub claim_change : ℕ → Job → Option Job
claim_change now job =
    if is_waiting job.status
    then some (record job { status = running; started_at = some now; message = "" })
    else none

-- The callback of a progress report: the worker's copy with the progress, as running.
unfoldable pub report_change : Job → Job → Option Job
report_change progress current =
    if is_running current.status then some (record progress { status = running }) else none

-- How a transport ends.
pub data Outcome : Type 0 where
  sent : Outcome
  was_canceled : Outcome
  failed : String → Outcome

-- The switch of runJob on the outcome, at the time `now`.
unfoldable pub settle : Policy → ℕ → Outcome → Job → Job
settle p now sent job = record job {
  status = done;
  progress = record job.progress { sent = job.progress.total };
  message = "";
  finished_at = some now;
  next_attempt_at = none;
}
settle p now was_canceled job = record job { status = queued; started_at = none }
settle p now (failed text) job =
    let tried = record job { attempts = job.attempts + 1; message = text; started_at = none } in
    if leb p.attempts (job.attempts + 1)
    then record tried { status = error; finished_at = some now; next_attempt_at = none }
    else record tried {
      status = retrying;
      next_attempt_at = some (now + backoff p (job.attempts + 1));
    }

-- The callback of the last update of runJob.
unfoldable pub settle_change : Job → Job → Option Job
settle_change result current = if is_running current.status then some result else none

abbrev pub is_failure : Status → Bool
is_failure error = true
is_failure queued = false
is_failure running = false
is_failure paused = false
is_failure retrying = false
is_failure done = false
is_failure (other _) = false

-- The end of runJob after the transport: whether a notification of a failure is sent, and the jobs.
unfoldable pub finish_job : Bool → Bool → Policy → ℕ → Outcome → Job → List Job → Bool × List Job
unfolding settle settle_change
finish_job fails_get fails_update p now outcome job jobs =
    let result = settle p now outcome job in
    let saved = update_job now job.id (settle_change result) jobs in
    if fails_get then (false, jobs) else elim (find_job job.id jobs) [
      | none ↦ (false, jobs)
      | some _ ↦
          if fails_update then (false, jobs) else (saved.0 && is_failure result.status, saved.1)
    ]
