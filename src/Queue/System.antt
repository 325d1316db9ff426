-- ===== src/Queue/System.antt =====
-- The queue of application/forwarder/queue.go among its users and its worker: every section under
-- `dataMu`, and every single save, is one step, in any order and at any times. `Worker` is where Serve
-- stands: between pickNext and the claim, or in the transport, it has a job and the flag of the job's
-- context. `stuck` is no field of the program: it has the ids of the jobs that a worker left running,
-- because the process ended or because it could not read or save the result.
pub mod Keeps
pub mod Moves
pub mod Running
pub mod Recovery
pub mod Claim
pub mod Results
pub mod Flight
pub mod Sections
pub mod Stored
use Prim.Native.String.{String}
use text.Mathlib.Text.{◌==◌ as str_eq}
use tdl.Prelude.{
  ℕ, zero, suc, ◌≡◌, Bool, true, false, not, ◌&&◌, ◌||◌, Option, none, some, List, [], ◌∷◌, ◌++◌,
  if◌then◌else◌,
}
use tdl.Queue.Job.{Status, queued, Progress, Job, Policy, is_running}
use tdl.Queue.Repository.{find_job, save_job, update_job, records}
use tdl.Queue.Actions.{has_id, update_jobs, pause_change, resume_change, delete_jobs}
use tdl.Queue.Worker.{recover_running, pick_next, claim_change, report_change, Outcome, finish_job}

-- Where Serve stands.
pub data Worker : Type 0 where
  stopped : Worker
  idle : Worker
  picked : Job → Bool → Worker
  forwarding : Job → Bool → Worker

pub record Queue : Type 0 where
  pub jobs : List Job
  pub worker : Worker
  pub stuck : List String

-- cancelIfActive of every deleted job.
abbrev pub cancel_active : List String → Worker → Worker
cancel_active ids stopped = stopped
cancel_active ids idle = idle
cancel_active ids (picked job canceled) = picked job (canceled || has_id job.id ids)
cancel_active ids (forwarding job canceled) = forwarding job (canceled || has_id job.id ids)

abbrev pub delete_from : (String → Bool) → (String → Bool) → List String → Queue → Queue
delete_from fails_get fails_remove ids q =
    let r = delete_jobs fails_get fails_remove ids q.jobs in
    record q { jobs = r.1; worker = cancel_active r.2 q.worker }

-- pickNext and setActive, at a worker that has nothing to do.
abbrev pub picks_worker : Option Job → Worker
picks_worker none = idle
picks_worker (some job) = picked job false

abbrev pub pick_from : Bool → (String → Bool) → ℕ → Policy → Queue → Queue
pick_from fails_records fails now p q =
    let r = pick_next fails_records fails now p q.jobs in
    record q { jobs = r.0; worker = picks_worker r.1 }

-- The worker's copy of a claimed job.
abbrev pub claimed_copy : ℕ → Job → Option Job → Worker
claimed_copy now job none = idle
claimed_copy now job (some current) = elim (claim_change now current) [
  | none ↦ idle
  | some copy ↦ forwarding copy false
]

-- The claim of runJob: it fails with the store, or with the job's context.
unfoldable pub claim_from : Bool → ℕ → Job → Bool → Queue → Queue
claim_from fails now job canceled q =
    if fails || canceled then record q { worker = idle } else record q {
      jobs = (update_job now job.id (claim_change now) q.jobs).1;
      worker = claimed_copy now job (find_job job.id q.jobs);
    }

abbrev pub with_progress : Progress → String → Job → Job
with_progress progress text job = record job { progress = progress; message = text }

-- A report of the transport, which has changed its copy.
unfoldable pub report_from : Bool → ℕ → Progress → String → Job → Bool → Queue → Queue
report_from fails now progress text job canceled q =
    let copy = with_progress progress text job in
    record q {
      jobs =
          if fails || canceled
          then q.jobs
          else (update_job now job.id (report_change copy) q.jobs).1;
      worker = forwarding copy canceled;
    }

abbrev pub left_running : Bool → String → List String → List String
left_running true id stuck = id ∷ stuck
left_running false id stuck = stuck

-- The end of runJob when the process goes on.
unfoldable pub finish_from : Bool → Bool → Policy → ℕ → Outcome → Job → Queue → Queue
finish_from fails_get fails_update p now outcome job q = record {
  jobs = (finish_job fails_get fails_update p now outcome job q.jobs).1;
  worker = idle;
  stuck = left_running (fails_get || fails_update) job.id q.stuck;
}

-- The job that a worker leaves when its process ends.
abbrev pub left_by : Worker → List String
left_by stopped = []
left_by idle = []
left_by (picked job canceled) = []
left_by (forwarding job canceled) = job.id ∷ []

abbrev pub no_failure : String → Bool
no_failure id = false

pub data Step : Queue → Queue → Type 0 where
  -- a save of EnqueueLinks, EnqueueMessage or EnqueueRouted, under an id that is not stored
  saves :
      (q : Queue) (now : ℕ) (job : Job)
      → job.status ≡ queued
      → find_job job.id q.jobs ≡ none
      → Step q (record q { jobs = save_job now job q.jobs })
  pauses :
      (q : Queue) (fails : String → Bool) (now : ℕ) (ids : List String)
      → Step q (record q { jobs = (update_jobs fails now pause_change ids q.jobs).1 })
  resumes :
      (q : Queue) (fails : String → Bool) (now : ℕ) (ids : List String)
      → Step q (record q { jobs = (update_jobs fails now resume_change ids q.jobs).1 })
  deletes :
      (q : Queue) (fails_get fails_remove : String → Bool) (ids : List String)
      → Step q (delete_from fails_get fails_remove ids q)
  -- Serve begins: the recovery succeeds, or something in it fails
  starts :
      (q : Queue) (now : ℕ)
      → q.worker ≡ stopped
      → Step q
          (record { jobs = recover_running false no_failure now q.jobs; worker = idle; stuck = [] })
  starts_badly :
      (q : Queue) (fails_records : Bool) (fails : String → Bool) (now : ℕ)
      → q.worker ≡ stopped
      → Step q (record q { jobs = recover_running fails_records fails now q.jobs; worker = idle })
  picks :
      (q : Queue) (fails_records : Bool) (fails : String → Bool) (now : ℕ) (p : Policy)
      → q.worker ≡ idle
      → Step q (pick_from fails_records fails now p q)
  claims :
      (q : Queue) (fails : Bool) (now : ℕ) (job : Job) (canceled : Bool)
      → q.worker ≡ picked job canceled
      → Step q (claim_from fails now job canceled q)
  reports :
      (q : Queue) (fails : Bool) (now : ℕ) (progress : Progress) (text : String) (job : Job)
      (canceled : Bool)
      → q.worker ≡ forwarding job canceled
      → Step q (report_from fails now progress text job canceled q)
  finishes :
      (q : Queue) (fails_get fails_update : Bool) (p : Policy) (now : ℕ) (outcome : Outcome)
      (job : Job) (canceled : Bool)
      → q.worker ≡ forwarding job canceled
      → Step q (finish_from fails_get fails_update p now outcome job q)
  -- the process ends
  stops : (q : Queue) → Step q (record q { worker = stopped; stuck = left_by q.worker ++ q.stuck })

pub data Reach (q : Queue) : Queue → Type 0 where
  here : Reach q q
  next : {q' q'' : Queue} → Reach q q' → Step q' q'' → Reach q q''

abbrev pub empty_queue : Queue
empty_queue = record { jobs = []; worker = stopped; stuck = [] }
