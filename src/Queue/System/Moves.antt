-- ===== src/Queue/System/Moves.antt =====
-- The statuses of a job of application/forwarder/queue.go as a state machine.
use Prim.Native.String.{String}
use text.Mathlib.Text.{◌==◌ as str_eq}
use text.Mathlib.TextEquality.{eq_iff}
use text.Mathlib.TextPositions.{eq_refl}
use tdl.Prelude.{
  ℕ, ◌≡◌, refl, ◌∙◌, subst, inl, inr, Bool, true, false, ◌||◌, Option, none, some, List, arith,
  Bool-cases,
}
use tdl.Queue.Job.{
  Status, queued, running, paused, retrying, done, error, other, Job, Progress, is_queued,
  is_running, is_waiting,
}
use tdl.Queue.Repository.{find_job, save_job, stamp, update_job}
use tdl.Queue.Repository.Laws.{find_job-put_job}
use tdl.Queue.Repository.Keeps.{Kept, same, moved, Keeps, update_job-Keeps}
use tdl.Queue.Actions.{pause_change, resume_change}
use tdl.Queue.Worker.{claim_change, report_change}
use tdl.Queue.System.{
  Queue, Step, saves, pauses, resumes, deletes, starts, starts_badly, picks, claims, reports,
  finishes, stops, claim_from, report_from, finish_from, no_failure, with_progress,
}
use tdl.Queue.System.Keeps.{
  is_paused, can_resume, is_settled, pause_change-Changes, resume_change-Changes,
  claim_change-Changes, report_change-Changes, update_jobs-Keeps, delete_jobs-Keeps,
  pick_next-Keeps, recover_running-Keeps, finish_job-Keeps,
}

abbrev is_other : String → Status → Bool
is_other s (other t) = str_eq s t
is_other s queued = false
is_other s running = false
is_other s paused = false
is_other s retrying = false
is_other s done = false
is_other s error = false

-- From a status to one of these; a job that is done stays so.
abbrev pub allowed : Status → Status → Bool
allowed queued b = is_queued b || is_running b || is_paused b
allowed retrying b = is_waiting b || is_running b || is_paused b
allowed running b = is_running b || is_settled b
allowed paused b = is_paused b || is_queued b
allowed error b = elim b [ error ↦ true | queued ↦ true | _ ↦ false ]
allowed done b = elim b [ done ↦ true | _ ↦ false ]
allowed (other s) b = is_other s b

-- What a step does to the job of one id.
pub data Moves : Option Job → Option Job → Type 0 where
  removed : {o : Option Job} → Moves o none
  created : {j : Job} → j.status ≡ queued → Moves none (some j)
  allows : {j j' : Job} → allowed j.status j'.status ≡ true → Moves (some j) (some j')

allowed_refl : (s : Status) → allowed s s ≡ true
allowed_refl queued = refl
allowed_refl running = refl
allowed_refl paused = refl
allowed_refl retrying = refl
allowed_refl done = refl
allowed_refl error = refl
allowed_refl (other t) = eq_refl t

module _ (from to : Status → Bool)
    (within : (a b : Status) → from a ≡ true → to b ≡ true → allowed a b ≡ true) where
  Kept-Moves : (a b : Option Job) → Kept from to a b → Moves a b
  Kept-Moves a none h = removed
  Kept-Moves none (some j') h = elim h [ ]
  Kept-Moves (some j) (some j') (same e) =
      allows (subst (λ (s : Status). allowed j.status s ≡ true) e (allowed_refl j.status))
  Kept-Moves (some j) (some j') (moved f t) = allows (within j.status j'.status f t)

  Keeps-Moves :
      (jobs jobs' : List Job) (k : String)
      → Keeps from to jobs jobs'
      → Moves (find_job k jobs) (find_job k jobs')
  Keeps-Moves jobs jobs' k h = Kept-Moves (find_job k jobs) (find_job k jobs') (h k)

pause-allowed : (a b : Status) → is_waiting a ≡ true → is_paused b ≡ true → allowed a b ≡ true
pause-allowed queued b f t = ground (arith, f, t)
pause-allowed a b f t = ground (arith, f, t)

resume-allowed : (a b : Status) → can_resume a ≡ true → is_queued b ≡ true → allowed a b ≡ true
resume-allowed paused b f t = ground (arith, f, t)
resume-allowed a b f t = ground (arith, f, t)

recover-allowed : (a b : Status) → is_running a ≡ true → is_queued b ≡ true → allowed a b ≡ true
recover-allowed running b f t = ground (arith, f, t)
recover-allowed a b f t = ground (arith, f, t)

claim-allowed : (a b : Status) → is_waiting a ≡ true → is_running b ≡ true → allowed a b ≡ true
claim-allowed queued b f t = ground (arith, f, t)
claim-allowed a b f t = ground (arith, f, t)

report-allowed : (a b : Status) → is_running a ≡ true → is_running b ≡ true → allowed a b ≡ true
report-allowed running b f t = ground (arith, f, t)
report-allowed a b f t = ground (arith, f, t)

settle-allowed : (a b : Status) → is_running a ≡ true → is_settled b ≡ true → allowed a b ≡ true
settle-allowed running b f t = ground (arith, f, t)
settle-allowed a b f t = ground (arith, f, t)

Moves-refl : (o : Option Job) → Moves o o
Moves-refl none = removed
Moves-refl (some j) = allows (allowed_refl j.status)

claim-Moves :
    (fails : Bool) (now : ℕ) (job : Job) (canceled : Bool) (q : Queue) (k : String)
    → Moves (find_job k q.jobs) (find_job k (claim_from fails now job canceled q).jobs)
unfolding claim_from
claim-Moves fails now job canceled q k = elim (Bool-cases (fails || canceled)) [
  | inl bad ↦ rw (bad, claim_from) (Moves-refl (find_job k q.jobs))
  | inr fine ↦
      rw (fine, claim_from)
        (Keeps-Moves is_waiting is_running claim-allowed q.jobs
          (update_job now job.id (claim_change now) q.jobs).1 k
          (update_job-Keeps is_waiting is_running now job.id (claim_change now) q.jobs
            (claim_change-Changes now)))
]

report-Moves :
    (fails : Bool) (now : ℕ) (progress : Progress) (text : String) (job : Job) (canceled : Bool)
    (q : Queue) (k : String)
    → Moves
        (find_job k q.jobs)
        (find_job k (report_from fails now progress text job canceled q).jobs)
unfolding report_from
report-Moves fails now progress text job canceled q k = elim (Bool-cases (fails || canceled)) [
  | inl bad ↦ rw (bad, report_from) (Moves-refl (find_job k q.jobs))
  | inr fine ↦
      let copy = with_progress progress text job in
      rw (fine, report_from)
        (Keeps-Moves is_running is_running report-allowed q.jobs
          (update_job now job.id (report_change copy) q.jobs).1 k
          (update_job-Keeps is_running is_running now job.id (report_change copy) q.jobs
            (report_change-Changes copy)))
]

save-Moves :
    (now : ℕ) (job : Job) (jobs : List Job) (k : String)
    → job.status ≡ queued
    → find_job job.id jobs ≡ none
    → Moves (find_job k jobs) (find_job k (save_job now job jobs))
unfolding save_job
save-Moves now job jobs k h free = elim (Bool-cases (str_eq job.id k)) [
  | inl here ↦
      let e : find_job k (save_job now job jobs) ≡ some (stamp now job) =
        find_job-put_job k (stamp now job) jobs ∙ rw here refl in
      let f : find_job k jobs ≡ none =
        subst (λ (z : String). find_job z jobs ≡ none) ((eq_iff job.id k).0 here) free in
      rw (e, f) (created h)
  | inr apart ↦
      let e : find_job k (save_job now job jobs) ≡ find_job k jobs =
        find_job-put_job k (stamp now job) jobs ∙ rw apart refl in
      rw e (Moves-refl (find_job k jobs))
]

-- Whatever step is taken, by a user, a producer or the worker, with or without failures of the store:
-- the job under an id is removed, is new and queued, or goes from its status to one that the table
-- `allowed` has for it.
pub Step-Moves :
    (q q' : Queue) (k : String) → Step q q' → Moves (find_job k q.jobs) (find_job k q'.jobs)
unfolding finish_from
Step-Moves q _ k (saves _ now job h free) = save-Moves now job q.jobs k h free
Step-Moves q q' k (pauses _ fails now ids) =
    Keeps-Moves is_waiting is_paused pause-allowed q.jobs q'.jobs k (
      update_jobs-Keeps is_waiting is_paused fails now pause_change ids q.jobs pause_change-Changes)
Step-Moves q q' k (resumes _ fails now ids) =
    Keeps-Moves can_resume is_queued resume-allowed q.jobs q'.jobs k (
      update_jobs-Keeps can_resume is_queued fails now resume_change ids q.jobs
        resume_change-Changes)
Step-Moves q q' k (deletes _ fg fr ids) =
    Keeps-Moves is_waiting is_paused pause-allowed q.jobs q'.jobs k
      (delete_jobs-Keeps is_waiting is_paused fg fr ids q.jobs)
Step-Moves q q' k (starts _ now w) =
    Keeps-Moves is_running is_queued recover-allowed q.jobs q'.jobs k
      (recover_running-Keeps false no_failure now q.jobs)
Step-Moves q q' k (starts_badly _ fr f now w) =
    Keeps-Moves is_running is_queued recover-allowed q.jobs q'.jobs k
      (recover_running-Keeps fr f now q.jobs)
Step-Moves q q' k (picks _ fr f now p w) =
    Keeps-Moves is_waiting is_paused pause-allowed q.jobs q'.jobs k
      (pick_next-Keeps is_waiting is_paused fr f now p q.jobs)
Step-Moves q q' k (claims _ fails now job c w) = claim-Moves fails now job c q k
Step-Moves q q' k (reports _ fails now p text job c w) = report-Moves fails now p text job c q k
Step-Moves q q' k (finishes _ fg fu p now outcome job c w) =
    Keeps-Moves is_running is_settled settle-allowed q.jobs q'.jobs k
      (finish_job-Keeps fg fu p now outcome job q.jobs)
Step-Moves q _ k (stops _) = Moves-refl (find_job k q.jobs)
