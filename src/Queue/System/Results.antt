-- ===== src/Queue/System/Results.antt =====
-- The jobs of application/forwarder/queue.go that are running, after a report, a result and a save.
use Prim.Native.String.{String}
use text.Mathlib.Text.{◌==◌ as str_eq}
use text.Mathlib.TextEquality.{eq_iff}
use text.Mathlib.TextPositions.{eq_refl}
use tdl.Prelude.{
  ℕ, ◌≡◌, refl, sym, ap, ◌∙◌, subst, ◌⊎◌, inl, inr, Bool, true, false, ◌||◌, Option, none, some,
  List, arith, Bool-cases,
}
use tdl.Queue.Job.{queued, Job, Progress, Policy, is_running}
use tdl.Queue.Repository.{find_job, save_job, stamp, update_job}
use tdl.Queue.Repository.Laws.{find_job-put_job, find_job-update_job, after_change}
use tdl.Queue.Repository.Keeps.{Kept, same, moved, update_job-Keeps}
use tdl.Queue.Actions.{has_id}
use tdl.Queue.Worker.{report_change, Outcome, settle, settle_change, finish_job}
use tdl.Queue.System.{
  Worker, forwarding, Queue, report_from, finish_from, with_progress, left_running,
}
use tdl.Queue.System.Keeps.{is_settled, settle-is_settled, report_change-Changes, finish_job-Keeps}
use tdl.Queue.System.Running.{holds, IsSingleFlight, Running, Keeps-Running, settled-ends}

left_running-later :
    (lost : Bool) (id k : String) (stuck : List String)
    → has_id k stuck ≡ true
    → has_id k (left_running lost id stuck) ≡ true
unfolding has_id
left_running-later true id k stuck h = ground (arith, h)
left_running-later false id k stuck h = h

left_running-this :
    (id k : String) (stuck : List String)
    → str_eq id k ≡ true
    → has_id k (left_running true id stuck) ≡ true
unfolding has_id
left_running-this id k stuck h = ground (arith, h)

-- A saved result is no running job.
finish_job-settled :
    (p : Policy) (now : ℕ) (outcome : Outcome) (job x j : Job) (jobs : List Job)
    → find_job job.id jobs ≡ some x
    → is_running x.status ≡ true
    → find_job job.id (finish_job false false p now outcome job jobs).1 ≡ some j
    → is_running j.status ≡ false
unfolding finish_job
finish_job-settled p now outcome job x j jobs f r e =
    let result = settle p now outcome job in
    let saved = update_job now job.id (settle_change result) jobs in
    let fin : (finish_job false false p now outcome job jobs).1 ≡ saved.1 =
      rw (f, finish_job) refl in
    let e' : find_job job.id saved.1 ≡ some j = sym (ap (find_job job.id) fin) ∙ e in
    let law : find_job job.id saved.1 ≡ after_change now job.id (settle_change result) (some x) =
      find_job-update_job now job.id job.id (settle_change result) jobs
      ∙ rw (eq_refl job.id, f) refl in
    let saves_it : settle_change result x ≡ some result = rw (r, settle_change) refl in
    let kept : after_change now job.id (settle_change result) (some x)
        ≡ some (record result { id = job.id; updated_at = now }) =
      rw saves_it refl in
    let same_job : j ≡ record result { id = job.id; updated_at = now } =
      ground (arith, e', law, kept) in
    ap (λ (z : Job). is_running z.status) same_job
    ∙ settled-ends result.status (settle-is_settled p now outcome job)

pub finish-Flight :
    (q : Queue) (fg fu : Bool) (p : Policy) (now : ℕ) (outcome : Outcome) (job : Job)
    (canceled : Bool)
    → q.worker ≡ forwarding job canceled
    → IsSingleFlight q
    → IsSingleFlight (finish_from fg fu p now outcome job q)
unfolding finish_from
finish-Flight q fg fu p now outcome job canceled w inv k j e r =
    let kept = finish_job-Keeps fg fu p now outcome job q.jobs in
    let after = (finish_job fg fu p now outcome job q.jobs).1 in
    let (x, f, s) =
      Keeps-Running is_running is_settled settled-ends q.jobs after k kept (j, e, r) in
    elim (inv k x f s) [
      | inr h ↦ inr (left_running-later (fg || fu) job.id k q.stuck h)
      | inl h ↦
          let hit : str_eq job.id k ≡ true = subst (λ (v : Worker). holds k v ≡ true) w h in
          let id : job.id ≡ k = (eq_iff job.id k).0 hit in
          elim (Bool-cases (fg || fu)) [
            | inl lost ↦ rw lost (inr (left_running-this job.id k q.stuck hit))
            | inr fine ↦
                let no_get : fg ≡ false = ground (arith, fine) in
                let no_update : fu ≡ false = ground (arith, fine) in
                let jobs_same : (finish_job fg fu p now outcome job q.jobs).1
                    ≡ (finish_job false false p now outcome job q.jobs).1 =
                  rw (no_get, no_update) refl in
                let e' : find_job job.id (finish_job false false p now outcome job q.jobs).1
                    ≡ some j =
                  ap
                    (λ (z : String). find_job z (finish_job false false p now outcome job q.jobs).1)
                    id
                  ∙ sym (ap (find_job k) jobs_same)
                  ∙ e in
                let f' : find_job job.id q.jobs ≡ some x =
                  ap (λ (z : String). find_job z q.jobs) id ∙ f in
                let out = finish_job-settled p now outcome job x j q.jobs f' s e' in
                absurd (ground (arith, out, r))
          ]
    ]

pub nothing_held : (k : String) (v w : Worker) → v ≡ w → holds k w ≡ false → holds k v ≡ true → ⊥
nothing_held k v w e out h =
    let yes_w = subst (λ (u : Worker). holds k u ≡ true) e h in ground (arith, yes_w, out)

reported_hand :
    (q : Queue) (k : String) (job : Job) (canceled : Bool) (ids : List String)
    → q.worker ≡ forwarding job canceled
    → (holds k q.worker ≡ true) ⊎ (has_id k ids ≡ true)
    → (str_eq job.id k ≡ true) ⊎ (has_id k ids ≡ true)
reported_hand q k job canceled ids w (inl h) = inl (subst (λ (v : Worker). holds k v ≡ true) w h)
reported_hand q k job canceled ids w (inr h) = inr h

reported-Running : (a b : Option Job) → Kept is_running is_running a b → Running b → Running a
reported-Running a none h (j, e, r) = absurd (ground (arith, e))
reported-Running none (some j') h r = elim h [ ]
reported-Running (some j) (some j') (same e) (x, f, r) =
    let x_is : j' ≡ x = ground (arith, f) in
    (j, refl, ap is_running (e ∙ ap (λ (z : Job). z.status) x_is) ∙ r)
reported-Running (some j) (some j') (moved f t) (x, g, r) = (j, refl, f)

pub report-Flight :
    (q : Queue) (fails : Bool) (now : ℕ) (progress : Progress) (text : String) (job : Job)
    (canceled : Bool)
    → q.worker ≡ forwarding job canceled
    → IsSingleFlight q
    → IsSingleFlight (report_from fails now progress text job canceled q)
unfolding report_from
report-Flight q fails now progress text job canceled w inv k j e r =
    let reported = λ (h : (holds k q.worker ≡ true) ⊎ (has_id k q.stuck ≡ true)).
      reported_hand q k job canceled q.stuck w h in
    elim (Bool-cases (fails || canceled)) [
      | inl bad ↦
          let jobs_same : (report_from fails now progress text job canceled q).jobs ≡ q.jobs =
            rw (bad, report_from) refl in
          reported (inv k j (sym (ap (find_job k) jobs_same) ∙ e) r)
      | inr fine ↦
          let copy = with_progress progress text job in
          let u = (update_job now job.id (report_change copy) q.jobs).1 in
          let jobs_after : (report_from fails now progress text job canceled q).jobs ≡ u =
            rw (fine, report_from) refl in
          let (x, f, s) =
            reported-Running (find_job k q.jobs) (find_job k u)
              (update_job-Keeps is_running is_running now job.id (report_change copy) q.jobs
                (report_change-Changes copy) k)
              (j, sym (ap (find_job k) jobs_after) ∙ e, r) in
          reported (inv k x f s)
    ]

pub save-Flight :
    (q : Queue) (now : ℕ) (job : Job)
    → job.status ≡ queued
    → IsSingleFlight q
    → IsSingleFlight (record q { jobs = save_job now job q.jobs })
unfolding save_job
save-Flight q now job h inv k j e r = elim (Bool-cases (str_eq job.id k)) [
  | inr apart ↦ inv k j (sym (find_job-put_job k (stamp now job) q.jobs ∙ rw apart refl) ∙ e) r
  | inl hit ↦
      let law : find_job k (save_job now job q.jobs) ≡ some (stamp now job) =
        find_job-put_job k (stamp now job) q.jobs ∙ rw hit refl in
      let same_job : stamp now job ≡ j = ground (arith, law, e) in
      let out : is_running j.status ≡ false =
        sym (ap (λ (z : Job). is_running z.status) same_job) ∙ ap is_running h in
      absurd (ground (arith, out, r))
]
