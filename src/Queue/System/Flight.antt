-- ===== src/Queue/System/Flight.antt =====
-- The jobs of application/forwarder/queue.go that are running, whatever happens.
use tdl.Prelude.{refl, ◌∙◌, inl, inr, arith}
use tdl.Queue.Job.{is_queued, is_running, is_waiting}
use tdl.Queue.Repository.{find_job}
use tdl.Queue.Actions.{pause_change, resume_change}
use tdl.Queue.System.{
  stopped, idle, Queue, Step, saves, pauses, resumes, deletes, starts, starts_badly, picks, claims,
  reports, finishes, stops, Reach, here, next, empty_queue,
}
use tdl.Queue.System.Keeps.{
  is_paused, can_resume, pause_change-Changes, resume_change-Changes, update_jobs-Keeps,
  delete_jobs-Keeps, pick_next-Keeps, recover_running-Keeps,
}
use tdl.Queue.System.Running.{
  IsSingleFlight, paused-ends, queued-ends, holds-cancel_active, has_id-append, has_id_later,
}
use tdl.Queue.Actions.{delete_jobs}
use tdl.Queue.System.Recovery.{recover_running-none}
use tdl.Queue.System.Claim.{Keeps-Flight, claim-Flight}
use tdl.Queue.System.Results.{finish-Flight, report-Flight, save-Flight, nothing_held}

Step-Flight : (q q' : Queue) → IsSingleFlight q → Step q q' → IsSingleFlight q'
Step-Flight q _ inv (saves _ now job h free) = save-Flight q now job h inv
Step-Flight q q' inv (pauses _ fails now ids) =
    Keeps-Flight is_waiting is_paused paused-ends q q'
      (update_jobs-Keeps is_waiting is_paused fails now pause_change ids q.jobs
        pause_change-Changes)
      (λ k h. inl h) (λ k h. h) inv
Step-Flight q q' inv (resumes _ fails now ids) =
    Keeps-Flight can_resume is_queued queued-ends q q'
      (update_jobs-Keeps can_resume is_queued fails now resume_change ids q.jobs
        resume_change-Changes)
      (λ k h. inl h) (λ k h. h) inv
Step-Flight q q' inv (deletes _ fg fr ids) =
    Keeps-Flight is_waiting is_paused paused-ends q q'
      (delete_jobs-Keeps is_waiting is_paused fg fr ids q.jobs)
      (λ k h. inl (holds-cancel_active k (delete_jobs fg fr ids q.jobs).2 q.worker ∙ h)) (λ k h. h)
      inv
Step-Flight q _ inv (starts _ now w) =
    λ k j e r. let out = recover_running-none now q.jobs k j e in absurd (ground (arith, out, r))
Step-Flight q q' inv (starts_badly _ fr f now w) =
    Keeps-Flight is_running is_queued queued-ends q q' (recover_running-Keeps fr f now q.jobs)
      (λ k h. absurd (nothing_held k q.worker stopped w refl h)) (λ k h. h) inv
Step-Flight q q' inv (picks _ fr f now p w) =
    Keeps-Flight is_waiting is_paused paused-ends q q'
      (pick_next-Keeps is_waiting is_paused fr f now p q.jobs)
      (λ k h. absurd (nothing_held k q.worker idle w refl h)) (λ k h. h) inv
Step-Flight q _ inv (claims _ fails now job c w) = claim-Flight q fails now job c w inv
Step-Flight q _ inv (reports _ fails now p text job c w) =
    report-Flight q fails now p text job c w inv
Step-Flight q _ inv (finishes _ fg fu p now outcome job c w) =
    finish-Flight q fg fu p now outcome job c w inv
Step-Flight q _ inv (stops _) = λ k j e r. elim (inv k j e r) [
  | inl h ↦ inr (has_id-append k q.worker q.stuck h)
  | inr h ↦ inr (has_id_later k q.worker q.stuck h)
]

-- From an empty queue, whatever users and the worker do and whatever calls of the store fail: a stored job is
-- running only while the worker has it in the transport, or after a worker could not save its result or
-- stopped with it, until the next start puts it back.
pub Reach-IsSingleFlight : (q : Queue) → Reach empty_queue q → IsSingleFlight q
unfolding find_job
Reach-IsSingleFlight _ here = λ k j e r. absurd (ground (arith, e))
Reach-IsSingleFlight q (next {q' = before} path step) =
    Step-Flight before q (Reach-IsSingleFlight before path) step
