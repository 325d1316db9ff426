-- ===== src/Queue/System/Stored.antt =====
-- How long a job of application/forwarder/queue.go stays stored while the queue takes its steps.
use Prim.Native.String.{String}
use tdl.Prelude.{◌≡◌, false, []}
use tdl.Queue.Repository.{save_job, stamp}
use tdl.Queue.Actions.{has_id, unique_ids, no_result, pause_change, resume_change, delete_jobs}
use tdl.Queue.System.{
  Queue, Step, saves, pauses, resumes, deletes, starts, starts_badly, picks, claims, reports,
  finishes, stops, finish_from, no_failure,
}
use tdl.Queue.System.Sections.{
  IsStored, IsRetained, put_job-IsStored, update_jobs-IsStored, delete_each-IsStored,
  recover_running-IsStored, pick_next-IsStored, claim_from-IsStored, report_from-IsStored,
  finish_job-IsStored,
}

-- A step that spares the job of an id: no Delete of it, and no pick that finds it ended and too much or too
-- old.
abbrev pub Spares : {q q' : Queue} → String → Step q q' → Type 0
Spares k (deletes _ fails_get fails_remove ids) = has_id k (unique_ids ids) ≡ false
Spares k (picks q fails_records fails now p idle) = IsRetained now p k q.jobs
Spares k (saves _ now job status free) = Unit {0}
Spares k (pauses _ fails now ids) = Unit {0}
Spares k (resumes _ fails now ids) = Unit {0}
Spares k (starts _ now w) = Unit {0}
Spares k (starts_badly _ fails_records fails now w) = Unit {0}
Spares k (claims _ fails now job canceled w) = Unit {0}
Spares k (reports _ fails now progress text job canceled w) = Unit {0}
Spares k (finishes _ fails_get fails_update p now outcome job canceled w) = Unit {0}
Spares k (stops _) = Unit {0}

-- Steps that all spare the job of an id.
pub data Spared (k : String) (q : Queue) : Queue → Type 0 where
  unmoved : Spared k q q
  spared : {q' q'' : Queue} → Spared k q q' → (step : Step q' q'') → Spares k step → Spared k q q''

Step-IsStored :
    (k : String) (q q' : Queue) (step : Step q q')
    → Spares k step
    → IsStored k q.jobs
    → IsStored k q'.jobs
unfolding save_job delete_jobs finish_from
Step-IsStored k q _ (saves _ now job status free) s h = put_job-IsStored k (stamp now job) q.jobs h
Step-IsStored k q _ (pauses _ fails now ids) s h =
    update_jobs-IsStored fails now pause_change ids q.jobs k h
Step-IsStored k q _ (resumes _ fails now ids) s h =
    update_jobs-IsStored fails now resume_change ids q.jobs k h
Step-IsStored k q _ (deletes _ fg fr ids) s h =
    delete_each-IsStored fg fr (unique_ids ids) q.jobs no_result [] k s h
Step-IsStored k q _ (starts _ now w) s h = recover_running-IsStored false no_failure now q.jobs k h
Step-IsStored k q _ (starts_badly _ fr f now w) s h = recover_running-IsStored fr f now q.jobs k h
Step-IsStored k q _ (picks _ fr f now p w) s h = pick_next-IsStored fr f now p q.jobs k s h
Step-IsStored k q _ (claims _ fails now job c w) s h = claim_from-IsStored fails now job c q k h
Step-IsStored k q _ (reports _ fails now p text job c w) s h =
    report_from-IsStored fails now p text job c q k h
Step-IsStored k q _ (finishes _ fg fu p now outcome job c w) s h =
    finish_job-IsStored fg fu p now outcome job q.jobs k h
Step-IsStored k q _ (stops _) s h = h

pub Spared-IsStored :
    (k : String) (q q' : Queue) → Spared k q q' → IsStored k q.jobs → IsStored k q'.jobs
Spared-IsStored k q _ unmoved h = h
Spared-IsStored k q q'' (spared {q' = q'} path step s) h =
    Step-IsStored k q' q'' step s (Spared-IsStored k q q' path h)
