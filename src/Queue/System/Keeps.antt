-- ===== src/Queue/System/Keeps.antt =====
-- How far each section of application/forwarder/queue.go moves the statuses of the stored jobs.
use Prim.Native.String.{String}
use tdl.Prelude.{
  ℕ, ◌-◌, ◌≡◌, refl, subst, inl, inr, Bool, true, false, not, ◌&&◌, ◌||◌, Option, List, [], ◌∷◌,
  ltb, arith, Bool-cases, Option-cases, length,
}
use tdl.Queue.Job.{
  Status, queued, running, paused, retrying, done, error, other, Job, Policy, is_queued, is_running,
  is_waiting, terminal_time, ActionResult,
}
use tdl.Queue.Repository.{find_job, update_job, remove_job, records}
use tdl.Queue.Repository.Keeps.{
  Keeps, Kept-refl, Keeps-trans, remove_job-Keeps, Changes, update_job-Keeps,
}
use tdl.Queue.Actions.{
  update_each, update_jobs, with_error, with_outcome, pause_change, resume_change, delete_each,
  delete_jobs, unique_ids, no_result,
}
use tdl.Queue.Worker.{
  recover_change, recover_each, recover_running, drop_ended, prune_terminal, pick_next,
  claim_change, report_change, Outcome, sent, was_canceled, failed, settle, settle_change,
  finish_job, terminal_jobs, sort_ended,
}

module _ (from to : Status → Bool) where
  pub Keeps-refl : (jobs : List Job) → Keeps from to jobs jobs
  Keeps-refl jobs k = Kept-refl from to (find_job k jobs)

  update_each-Keeps :
      (fails : String → Bool) (now : ℕ) (change : Job → Option Job) (ids : List String)
      (jobs : List Job) (r : ActionResult)
      → Changes from to change
      → Keeps from to jobs (update_each fails now change ids jobs r).1
  unfolding update_each
  update_each-Keeps fails now change [] jobs r h = Keeps-refl jobs
  update_each-Keeps fails now change (id ∷ ids) jobs r h = elim (Bool-cases (fails id)) [
    | inl bad ↦
        rw (bad, update_each) (update_each-Keeps fails now change ids jobs (with_error id r) h)
    | inr fine ↦
        let u = update_job now id change jobs in
        rw (fine, update_each)
          (Keeps-trans from to jobs u.1
            (update_each fails now change ids u.1 (with_outcome u.0 r)).1
            (update_job-Keeps from to now id change jobs h)
            (update_each-Keeps fails now change ids u.1 (with_outcome u.0 r) h))
  ]

  pub update_jobs-Keeps :
      (fails : String → Bool) (now : ℕ) (change : Job → Option Job) (ids : List String)
      (jobs : List Job)
      → Changes from to change
      → Keeps from to jobs (update_jobs fails now change ids jobs).1
  unfolding update_jobs
  update_jobs-Keeps fails now change ids jobs h =
      update_each-Keeps fails now change (unique_ids ids) jobs no_result h

  delete_each-Keeps :
      (fails_get fails_remove : String → Bool) (ids : List String) (jobs : List Job)
      (r : ActionResult) (deleted : List String)
      → Keeps from to jobs (delete_each fails_get fails_remove ids jobs r deleted).1
  unfolding delete_each
  delete_each-Keeps fg fr [] jobs r d = Keeps-refl jobs
  delete_each-Keeps fg fr (id ∷ ids) jobs r d = elim (Bool-cases (fg id)) [
    | inl bad ↦ rw (bad, delete_each) (delete_each-Keeps fg fr ids jobs (with_error id r) d)
    | inr fine ↦ elim (Option-cases (find_job id jobs)) [
      | inl missing ↦
          rw (fine, missing, delete_each)
            (delete_each-Keeps fg fr ids jobs (with_outcome false r) d)
      | inr (_, found) ↦ elim (Bool-cases (fr id)) [
        | inl bad ↦
            rw (fine, found, bad, delete_each)
              (delete_each-Keeps fg fr ids jobs (with_error id r) d)
        | inr gone_too ↦
            rw (fine, found, gone_too, delete_each)
              (Keeps-trans from to jobs (remove_job id jobs)
                (delete_each fg fr ids (remove_job id jobs) (with_outcome true r) (id ∷ d)).1
                (remove_job-Keeps from to id jobs)
                (delete_each-Keeps fg fr ids (remove_job id jobs) (with_outcome true r) (id ∷ d)))
      ]
    ]
  ]

  pub delete_jobs-Keeps :
      (fails_get fails_remove : String → Bool) (ids : List String) (jobs : List Job)
      → Keeps from to jobs (delete_jobs fails_get fails_remove ids jobs).1
  unfolding delete_jobs
  delete_jobs-Keeps fg fr ids jobs = delete_each-Keeps fg fr (unique_ids ids) jobs no_result []

  drop_ended-Keeps :
      (fails : String → Bool) (now retention over : ℕ) (js jobs : List Job)
      → Keeps from to jobs (drop_ended fails now retention over js jobs)
  unfolding drop_ended
  drop_ended-Keeps fails now retention over [] jobs = Keeps-refl jobs
  drop_ended-Keeps fails now retention over (j ∷ js) jobs =
      elim (Bool-cases
        ((ltb 0 over || ltb retention (now - terminal_time j)) && not (fails j.id))) [
          | inl drop ↦ rw drop (
              Keeps-trans from to jobs (remove_job j.id jobs)
                (drop_ended fails now retention (over - 1) js (remove_job j.id jobs))
                (remove_job-Keeps from to j.id jobs)
                (drop_ended-Keeps fails now retention (over - 1) js (remove_job j.id jobs)))
          | inr keep ↦ rw keep (drop_ended-Keeps fails now retention (over - 1) js jobs)
        ]

  prune_terminal-Keeps :
      (fails : String → Bool) (now : ℕ) (p : Policy) (listed jobs : List Job)
      → Keeps from to jobs (prune_terminal fails now p listed jobs)
  unfolding prune_terminal
  prune_terminal-Keeps fails now p listed jobs =
      drop_ended-Keeps fails now p.retention
        (length (sort_ended (terminal_jobs listed)) - p.history) (sort_ended (terminal_jobs listed))
        jobs

  pub pick_next-Keeps :
      (fails_records : Bool) (fails : String → Bool) (now : ℕ) (p : Policy) (jobs : List Job)
      → Keeps from to jobs (pick_next fails_records fails now p jobs).0
  unfolding pick_next
  pick_next-Keeps true fails now p jobs = Keeps-refl jobs
  pick_next-Keeps false fails now p jobs = prune_terminal-Keeps fails now p (records jobs) jobs

abbrev pub is_paused : Status → Bool
is_paused paused = true
is_paused queued = false
is_paused running = false
is_paused retrying = false
is_paused done = false
is_paused error = false
is_paused (other _) = false

-- Paused, retrying or ended with an error.
abbrev pub can_resume : Status → Bool
can_resume paused = true
can_resume error = true
can_resume retrying = true
can_resume queued = false
can_resume running = false
can_resume done = false
can_resume (other _) = false

-- What a run can end with.
abbrev pub is_settled : Status → Bool
is_settled queued = true
is_settled retrying = true
is_settled done = true
is_settled error = true
is_settled paused = false
is_settled running = false
is_settled (other _) = false

pub pause_change-Changes : Changes is_waiting is_paused pause_change
unfolding pause_change
pause_change-Changes j j' e = ground (arith, e)

pub resume_change-Changes : Changes can_resume is_queued resume_change
unfolding resume_change
resume_change-Changes j j' e = ground (arith, e)

pub recover_change-Changes : Changes is_running is_queued recover_change
unfolding recover_change
recover_change-Changes j j' e = ground (arith, e)

pub claim_change-Changes : (now : ℕ) → Changes is_waiting is_running (claim_change now)
unfolding claim_change
claim_change-Changes now j j' e = ground (arith, e)

pub report_change-Changes : (copy : Job) → Changes is_running is_running (report_change copy)
unfolding report_change
report_change-Changes copy j j' e = ground (arith, e)

pub settle-is_settled :
    (p : Policy) (now : ℕ) (outcome : Outcome) (job : Job)
    → is_settled (settle p now outcome job).status ≡ true
unfolding settle
settle-is_settled p now sent job = refl
settle-is_settled p now was_canceled job = refl
settle-is_settled p now (failed text) job = ground arith

settle_change-Changes :
    (p : Policy) (now : ℕ) (outcome : Outcome) (job : Job)
    → Changes is_running is_settled (settle_change (settle p now outcome job))
unfolding settle_change
settle_change-Changes p now outcome job j j' e = elim (Bool-cases (is_running j.status)) [
  | inr apart ↦ absurd (ground (arith, e, apart))
  | inl runs ↦
      let result : settle p now outcome job ≡ j' = ground (arith, e, runs) in
      inr (
        runs,
        subst (λ (z : Job). is_settled z.status ≡ true) result
            (settle-is_settled p now outcome job),
      )
]

-- recoverRunning puts running jobs back into the queue.
recover_each-Keeps :
    (fails : String → Bool) (now : ℕ) (js jobs : List Job)
    → Keeps is_running is_queued jobs (recover_each fails now js jobs)
unfolding recover_each
recover_each-Keeps fails now [] jobs = Keeps-refl is_running is_queued jobs
recover_each-Keeps fails now (j ∷ js) jobs =
    elim (Bool-cases (is_running j.status && not (fails j.id))) [
      | inl back ↦
          let u = update_job now j.id recover_change jobs in
          rw (back, recover_each)
            (Keeps-trans is_running is_queued jobs u.1 (recover_each fails now js u.1)
              (update_job-Keeps is_running is_queued now j.id recover_change jobs
                recover_change-Changes)
              (recover_each-Keeps fails now js u.1))
      | inr stays ↦ rw (stays, recover_each) (recover_each-Keeps fails now js jobs)
    ]

pub recover_running-Keeps :
    (fails_records : Bool) (fails : String → Bool) (now : ℕ) (jobs : List Job)
    → Keeps is_running is_queued jobs (recover_running fails_records fails now jobs)
unfolding recover_running
recover_running-Keeps true fails now jobs = Keeps-refl is_running is_queued jobs
recover_running-Keeps false fails now jobs = recover_each-Keeps fails now (records jobs) jobs

pub finish_job-Keeps :
    (fails_get fails_update : Bool) (p : Policy) (now : ℕ) (outcome : Outcome) (job : Job)
    (jobs : List Job)
    → Keeps is_running is_settled jobs (finish_job fails_get fails_update p now outcome job jobs).1
unfolding finish_job
finish_job-Keeps true fails_update p now outcome job jobs = Keeps-refl is_running is_settled jobs
finish_job-Keeps false fails_update p now outcome job jobs =
    elim (Option-cases (find_job job.id jobs)) [
      | inl missing ↦ rw (missing, finish_job) (Keeps-refl is_running is_settled jobs)
      | inr (_, found) ↦ elim (Bool-cases fails_update) [
        | inl bad ↦ rw (found, bad, finish_job) (Keeps-refl is_running is_settled jobs)
        | inr fine ↦
            rw (found, fine, finish_job)
              (update_job-Keeps is_running is_settled now job.id
                (settle_change (settle p now outcome job)) jobs
                (settle_change-Changes p now outcome job))
      ]
    ]
