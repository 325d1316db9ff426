-- ===== src/Queue/System/Claim.antt =====
-- The jobs of application/forwarder/queue.go that are running, after a claim and after other sections that
-- start no job.
use Prim.Native.String.{String}
use text.Mathlib.Text.{◌==◌ as str_eq}
use text.Mathlib.TextEquality.{eq_iff}
use tdl.Prelude.{
  ℕ, ◌≡◌, refl, sym, ap, ◌∙◌, subst, ◌⊎◌, inl, inr, Bool, true, false, ◌||◌, Option, none, some,
  arith, Bool-cases, Option-cases,
}
use tdl.Queue.Job.{Status, Job, is_running}
use tdl.Queue.Repository.{find_job, update_job}
use tdl.Queue.Repository.Laws.{find_job-update_job, find_job-id, after_change}
use tdl.Queue.Repository.Keeps.{Keeps}
use tdl.Queue.Actions.{has_id}
use tdl.Queue.Worker.{claim_change}
use tdl.Queue.System.{Worker, picked, forwarding, Queue, claim_from, claimed_copy}
use tdl.Queue.System.Running.{holds, IsSingleFlight, Keeps-Running}

-- A section that starts no job, and after which the worker holds what it held.
pub Keeps-Flight :
    (from to : Status → Bool) (ends : (s : Status) → to s ≡ true → is_running s ≡ false)
    (q q' : Queue)
    → Keeps from to q.jobs q'.jobs
    → ((k : String)
        → holds k q.worker ≡ true
        → (holds k q'.worker ≡ true) ⊎ (has_id k q'.stuck ≡ true))
    → ((k : String) → has_id k q.stuck ≡ true → has_id k q'.stuck ≡ true)
    → IsSingleFlight q
    → IsSingleFlight q'
Keeps-Flight from to ends q q' kept hands stays inv k j e r =
    let (x, f, s) = Keeps-Running from to ends q.jobs q'.jobs k kept (j, e, r) in
    elim (inv k x f s) [ inl h ↦ hands k h | inr h ↦ inr (stays k h) ]

-- Before a worker has a job in the transport, only the jobs left behind are running.
only_stuck :
    (q : Queue) (w : Worker)
    → q.worker ≡ w
    → ((k : String) → holds k w ≡ false)
    → IsSingleFlight q
    → (k : String) (j : Job) → find_job k q.jobs ≡ some j
    → is_running j.status ≡ true
    → has_id k q.stuck ≡ true
only_stuck q w e free inv k j f r = elim (inv k j f r) [
  | inr h ↦ h
  | inl h ↦
      let in_w : holds k w ≡ true = subst (λ (v : Worker). holds k v ≡ true) e h in
      let out : holds k w ≡ false = free k in absurd (ground (arith, in_w, out))
]

claim_change-id : (now : ℕ) (j j' : Job) → claim_change now j ≡ some j' → j'.id ≡ j.id
unfolding claim_change
claim_change-id now j j' e = ground (arith, e)

-- The found job after the claim of its record is the worker's, if it runs now and did not before.
claimed-holds :
    (now : ℕ) (job : Job) (found : Option Job) (k : String) (j : Job)
    → job.id ≡ k
    → ((x : Job) → found ≡ some x → x.id ≡ k)
    → after_change now job.id (claim_change now) found ≡ some j
    → (holds k (claimed_copy now job found) ≡ true) ⊎ (found ≡ some j)
claimed-holds now job none k j eq ids e = absurd (ground (arith, e))
claimed-holds now job (some x) k j eq ids e = elim (Option-cases (claim_change now x)) [
  | inl keep ↦ inr (rw⁻¹ e (rw keep refl))
  | inr (copy, new) ↦
      let id : copy.id ≡ k = claim_change-id now x copy new ∙ ids x refl in
      let taken : claimed_copy now job (some x) ≡ forwarding copy false =
        rw (new, claimed_copy) refl in
      inl (subst (λ (w : Worker). holds k w ≡ true) (sym taken) ((eq_iff copy.id k).1 id))
]

pub claim-Flight :
    (q : Queue) (fails : Bool) (now : ℕ) (job : Job) (canceled : Bool)
    → q.worker ≡ picked job canceled
    → IsSingleFlight q
    → IsSingleFlight (claim_from fails now job canceled q)
unfolding claim_from
claim-Flight q fails now job canceled w inv k j e r =
    let before = only_stuck q (picked job canceled) w (λ i. refl) inv in
    elim (Bool-cases (fails || canceled)) [
      | inl bad ↦
          let jobs_same : (claim_from fails now job canceled q).jobs ≡ q.jobs =
            rw (bad, claim_from) refl in
          rw (bad, claim_from) (inr (before k j (sym (ap (find_job k) jobs_same) ∙ e) r))
      | inr fine ↦
          let u = (update_job now job.id (claim_change now) q.jobs).1 in
          let jobs_after : (claim_from fails now job canceled q).jobs ≡ u =
            rw (fine, claim_from) refl in
          let e' : find_job k u ≡ some j = sym (ap (find_job k) jobs_after) ∙ e in
          let law = find_job-update_job now k job.id (claim_change now) q.jobs in
          rw (fine, claim_from)
            (elim (Bool-cases (str_eq job.id k)) [
              | inr apart ↦ inr (before k j (sym (law ∙ rw apart refl) ∙ e') r)
              | inl hit ↦
                  let id : job.id ≡ k = (eq_iff job.id k).0 hit in
                  let changed : after_change now job.id (claim_change now) (find_job job.id q.jobs)
                      ≡ some j =
                    sym (law ∙ rw hit refl) ∙ e' in
                  let ids = λ (x : Job) (f : find_job job.id q.jobs ≡ some x).
                    find_job-id job.id q.jobs x f ∙ id in
                  elim (claimed-holds now job (find_job job.id q.jobs) k j id ids changed) [
                    | inl h ↦ inl h
                    | inr f ↦
                        inr (before k j (sym (ap (λ (z : String). find_job z q.jobs) id) ∙ f) r)
                  ]
            ])
    ]
