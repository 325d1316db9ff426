-- ===== src/Queue/System/Sections.antt =====
-- Which sections of application/forwarder/queue.go leave a job under the id of a stored job: all but Delete of
-- the id and pruneTerminal.
use Prim.Native.String.{String}
use text.Mathlib.Text.{◌==◌ as str_eq}
use text.Mathlib.TextEquality.{eq_iff}
use tdl.Prelude.{
  Among, ℕ, ◌-◌, ◌≤◌, ◌⊎◌, ltb, ◌≡◌, refl, ap, ◌∙◌, inl, inr, Bool, true, false, not, ◌&&◌, ◌||◌,
  Option, some, List, [], ◌∷◌, arith, Bool-cases, Option-cases, length,
}
use tdl.Queue.Job.{Job, Progress, Policy, ActionResult, is_running, is_terminal, terminal_time}
use tdl.Queue.Repository.{find_job, put_job, update_job, remove_job, records}
use tdl.Queue.Repository.Laws.{
  find_job-put_job, find_job-update_job, find_job-remove_job, after_change, kept_as,
}
use tdl.Queue.Actions.{
  has_id, unique_ids, no_result, with_error, with_outcome, update_each, update_jobs, delete_each,
}
use tdl.Queue.Worker.{
  recover_change, recover_each, recover_running, terminal_jobs, sort_ended, drop_ended,
  prune_terminal, pick_next, claim_change, report_change, Outcome, settle, settle_change,
  finish_job,
}
use tdl.Queue.Pick.{Among-records_back}
use tdl.Queue.Retention.{Among-sort_ended, Among-terminal_jobs, drop_ended-other}
use tdl.Queue.System.{Queue, claim_from, report_from, with_progress}

-- A job is stored under the id.
abbrev pub IsStored : String → List Job → Type 0
IsStored k jobs = (j : Job) × (find_job k jobs ≡ some j)

pub put_job-IsStored :
    (k : String) (job : Job) (jobs : List Job) → IsStored k jobs → IsStored k (put_job job jobs)
put_job-IsStored k job jobs (j, found) = elim (Bool-cases (str_eq job.id k)) [
  | inl this ↦ (job, find_job-put_job k job jobs ∙ rw this refl)
  | inr other ↦ (j, find_job-put_job k job jobs ∙ rw other found)
]

update_job-IsStored :
    (now : ℕ) (k id : String) (change : Job → Option Job) (jobs : List Job)
    → IsStored k jobs
    → IsStored k (update_job now id change jobs).1
update_job-IsStored now k id change jobs (j, found) = elim (Bool-cases (str_eq id k)) [
  | inr other ↦ (j, find_job-update_job now k id change jobs ∙ rw other found)
  | inl this ↦
      let found_id : find_job id jobs ≡ some j =
        ap (λ (z : String). find_job z jobs) ((eq_iff id k).0 this) ∙ found in
      (
        kept_as now id (change j) j,
        find_job-update_job now k id change jobs
            ∙ rw this (ap (after_change now id change) found_id),
      )
]

update_each-IsStored :
    (fails : String → Bool) (now : ℕ) (change : Job → Option Job) (ids : List String)
    (jobs : List Job) (r : ActionResult) (k : String)
    → IsStored k jobs
    → IsStored k (update_each fails now change ids jobs r).1
unfolding update_each
update_each-IsStored fails now change [] jobs r k h = h
update_each-IsStored fails now change (id ∷ ids) jobs r k h = elim (Bool-cases (fails id)) [
  | inl bad ↦
      rw (bad, update_each) (update_each-IsStored fails now change ids jobs (with_error id r) k h)
  | inr fine ↦
      let u = update_job now id change jobs in
      rw (fine, update_each)
        (update_each-IsStored fails now change ids u.1 (with_outcome u.0 r) k
          (update_job-IsStored now k id change jobs h))
]

pub update_jobs-IsStored :
    (fails : String → Bool) (now : ℕ) (change : Job → Option Job) (ids : List String)
    (jobs : List Job) (k : String)
    → IsStored k jobs
    → IsStored k (update_jobs fails now change ids jobs).1
unfolding update_jobs
update_jobs-IsStored fails now change ids jobs k h =
    update_each-IsStored fails now change (unique_ids ids) jobs no_result k h

pub delete_each-IsStored :
    (fg fr : String → Bool) (ids : List String) (jobs : List Job) (r : ActionResult)
    (d : List String) (k : String)
    → has_id k ids ≡ false
    → IsStored k jobs
    → IsStored k (delete_each fg fr ids jobs r d).1
unfolding delete_each has_id
delete_each-IsStored fg fr [] jobs r d k out h = h
delete_each-IsStored fg fr (id ∷ ids) jobs r d k out h =
    let later : has_id k ids ≡ false = ground (arith, out) in
    elim (Bool-cases (fg id)) [
      | inl bad ↦
          rw (bad, delete_each) (delete_each-IsStored fg fr ids jobs (with_error id r) d k later h)
      | inr fine ↦ elim (Option-cases (find_job id jobs)) [
        | inl missing ↦
            rw (fine, missing, delete_each)
              (delete_each-IsStored fg fr ids jobs (with_outcome false r) d k later h)
        | inr (_, found) ↦ elim (Bool-cases (fr id)) [
          | inl bad ↦
              rw (fine, found, bad, delete_each)
                (delete_each-IsStored fg fr ids jobs (with_error id r) d k later h)
          | inr good ↦
              let other : str_eq id k ≡ false = ground (arith, out) in
              rw (fine, found, good, delete_each)
                (delete_each-IsStored fg fr ids (remove_job id jobs) (with_outcome true r) (id ∷ d)
                  k later (h.0, find_job-remove_job k id jobs ∙ rw other h.1))
        ]
      ]
    ]

recover_each-IsStored :
    (fails : String → Bool) (now : ℕ) (js jobs : List Job) (k : String)
    → IsStored k jobs
    → IsStored k (recover_each fails now js jobs)
unfolding recover_each
recover_each-IsStored fails now [] jobs k h = h
recover_each-IsStored fails now (j ∷ js) jobs k h =
    elim (Bool-cases (is_running j.status && not (fails j.id))) [
      | inl back ↦
          rw (back, recover_each)
            (recover_each-IsStored fails now js (update_job now j.id recover_change jobs).1 k
              (update_job-IsStored now k j.id recover_change jobs h))
      | inr stays ↦ rw (stays, recover_each) (recover_each-IsStored fails now js jobs k h)
    ]

pub recover_running-IsStored :
    (fails_records : Bool) (fails : String → Bool) (now : ℕ) (jobs : List Job) (k : String)
    → IsStored k jobs
    → IsStored k (recover_running fails_records fails now jobs)
unfolding recover_running
recover_running-IsStored true fails now jobs k h = h
recover_running-IsStored false fails now jobs k h =
    recover_each-IsStored fails now (records jobs) jobs k h

-- The jobs that pruneTerminal goes over.
abbrev pub ended_jobs : List Job → List Job
ended_jobs jobs = sort_ended (terminal_jobs (records jobs))

-- A pick at `now` leaves a job that has ended under the id: there is none, or there are not more ended jobs
-- than the history has room for and it is not older than the retention.
abbrev pub IsRetained : ℕ → Policy → String → List Job → Type 0
IsRetained now p k jobs =
    ((x : Job) → Among x jobs → x.id ≡ k → is_terminal x.status ≡ false)
    ⊎ ((length (ended_jobs jobs) ≤ p.history)
        × ((x : Job) → Among x jobs → x.id ≡ k → now - terminal_time x ≤ p.retention))

drop_ended-young :
    (fails : String → Bool) (now retention : ℕ) (js jobs : List Job) (k : String)
    → ((x : Job) → Among x js → x.id ≡ k → now - terminal_time x ≤ retention)
    → find_job k (drop_ended fails now retention 0 js jobs) ≡ find_job k jobs
unfolding drop_ended
drop_ended-young fails now retention [] jobs k young = refl
drop_ended-young fails now retention (j ∷ js) jobs k young =
    let rest =
      λ (js' : List Job). drop_ended-young fails now retention js js' k (λ x a. young x (inr a)) in
    elim (Bool-cases (ltb retention (now - terminal_time j) && not (fails j.id))) [
      | inr keep ↦ rw (keep, drop_ended) (rest jobs)
      | inl drop ↦
          let other : str_eq j.id k ≡ false = elim (Bool-cases (str_eq j.id k)) [
            | inr apart ↦ apart
            | inl this ↦
                let bound = young j (inl refl) ((eq_iff j.id k).0 this) in
                absurd (ground (arith, bound, drop))
          ] in
          rw (drop, drop_ended)
            (rest (remove_job j.id jobs) ∙ (find_job-remove_job k j.id jobs ∙ rw other refl))
    ]

Among-ended_jobs :
    (x : Job) (jobs : List Job)
    → Among x (ended_jobs jobs)
    → Among x jobs × (is_terminal x.status ≡ true)
Among-ended_jobs x jobs h =
    let (m, t) =
      Among-terminal_jobs x (records jobs) (Among-sort_ended x (terminal_jobs (records jobs)) h) in
    (Among-records_back x jobs m, t)

pub pick_next-IsStored :
    (fails_records : Bool) (fails : String → Bool) (now : ℕ) (p : Policy) (jobs : List Job)
    (k : String)
    → IsRetained now p k jobs
    → IsStored k jobs
    → IsStored k (pick_next fails_records fails now p jobs).0
unfolding pick_next prune_terminal
pick_next-IsStored true fails now p jobs k kept h = h
pick_next-IsStored false fails now p jobs k (inl live) (j, found) = (
  j,
  drop_ended-other fails now p.retention (length (ended_jobs jobs) - p.history) (ended_jobs jobs)
        jobs k
        (λ x a same_id.
          let (m, t) = Among-ended_jobs x jobs a in
          let open_ = live x m same_id in ground (arith, t, open_))
      ∙ found,
)
pick_next-IsStored false fails now p jobs k (inr (room, young)) (j, found) =
    let none_over : length (ended_jobs jobs) - p.history ≡ 0 = omega (arith, room) in
    (
      j,
      ap (λ (over : ℕ). find_job k (drop_ended fails now p.retention over (ended_jobs jobs) jobs))
            none_over
          ∙ (drop_ended-young fails now p.retention (ended_jobs jobs) jobs k
                (λ x a. young x (Among-ended_jobs x jobs a).0)
              ∙ found),
    )

pub claim_from-IsStored :
    (fails : Bool) (now : ℕ) (job : Job) (canceled : Bool) (q : Queue) (k : String)
    → IsStored k q.jobs
    → IsStored k (claim_from fails now job canceled q).jobs
unfolding claim_from
claim_from-IsStored fails now job canceled q k h = elim (Bool-cases (fails || canceled)) [
  | inl bad ↦ rw (bad, claim_from) h
  | inr fine ↦ rw (fine, claim_from) (update_job-IsStored now k job.id (claim_change now) q.jobs h)
]

pub report_from-IsStored :
    (fails : Bool) (now : ℕ) (progress : Progress) (text : String) (job : Job) (canceled : Bool)
    (q : Queue) (k : String)
    → IsStored k q.jobs
    → IsStored k (report_from fails now progress text job canceled q).jobs
unfolding report_from
report_from-IsStored fails now progress text job canceled q k h =
    elim (Bool-cases (fails || canceled)) [
      | inl bad ↦ rw (bad, report_from) h
      | inr fine ↦
          rw (fine, report_from)
            (update_job-IsStored now k job.id (report_change (with_progress progress text job))
              q.jobs h)
    ]

pub finish_job-IsStored :
    (fails_get fails_update : Bool) (p : Policy) (now : ℕ) (outcome : Outcome) (job : Job)
    (jobs : List Job) (k : String)
    → IsStored k jobs
    → IsStored k (finish_job fails_get fails_update p now outcome job jobs).1
unfolding finish_job
finish_job-IsStored true fu p now outcome job jobs k h = h
finish_job-IsStored false fu p now outcome job jobs k h =
    elim (Option-cases (find_job job.id jobs)) [
      | inl missing ↦ rw (missing, finish_job) h
      | inr (_, found) ↦ elim (Bool-cases fu) [
        | inl bad ↦ rw (found, bad, finish_job) h
        | inr fine ↦
            rw (found, fine, finish_job)
              (update_job-IsStored now k job.id (settle_change (settle p now outcome job)) jobs h)
      ]
    ]
