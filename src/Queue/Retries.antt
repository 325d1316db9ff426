-- ===== src/Queue/Retries.antt =====
-- The attempts of a job of application/forwarder/queue.go that fails each time.
use Prim.Native.String.{String}
use tdl.Prelude.{
  ℕ, zero, suc, ◌+◌, ◌≤◌, ◌<◌, ◌≡◌, refl, sym, subst, ap, ◌∙◌, ◌⊎◌, inl, inr, true, false, none,
  some, arith, leb, Bool-cases,
}
use tdl.Queue.Job.{queued, retrying, error, Job, Policy, backoff, is_waiting}
use tdl.Queue.Worker.{claim_change, settle, failed, settle_change}

-- A claim at `now`, and a run that fails with the text.
unfoldable pub fail_once : Policy → ℕ → String → Job → Job
unfolding claim_change settle settle_change
fail_once p now text job = elim (claim_change now job) [
  | none ↦ job
  | some copy ↦ elim (settle_change (settle p now (failed text) copy) copy) [
    | none ↦ copy
    | some result ↦ result
  ]
]

-- The job after a number of rounds, the last at the head of the times.
unfoldable pub fail_times : Policy → (ℕ → ℕ) → (ℕ → String) → ℕ → Job → Job
fail_times p clock texts zero job = job
fail_times p clock texts (suc n) job =
    fail_once p (clock n) (texts n) (fail_times p clock texts n job)

abbrev pub RetryState : Policy → ℕ → ℕ → Job → Type 0
RetryState p n now job =
    (job.status ≡ retrying) × (job.attempts ≡ n) × (job.next_attempt_at ≡ some (now + backoff p n))

abbrev pub GaveUp : Policy → Job → Type 0
GaveUp p job = (job.status ≡ error) × (job.attempts ≡ p.attempts) × (job.next_attempt_at ≡ none)

fail_once-waiting :
    (p : Policy) (now : ℕ) (text : String) (job : Job)
    → is_waiting job.status ≡ true
    → job.attempts + 1 < p.attempts
    → RetryState p (job.attempts + 1) now (fail_once p now text job)
unfolding fail_once
fail_once-waiting p now text job w lt =
    (ground (arith, w, lt), ground (arith, w, lt), ground (arith, w, lt))

fail_once-last :
    (p : Policy) (now : ℕ) (text : String) (job : Job)
    → is_waiting job.status ≡ true
    → job.attempts + 1 ≡ p.attempts
    → GaveUp p (fail_once p now text job)
unfolding fail_once
fail_once-last p now text job w e =
    (ground (arith, w, e), ground (arith, w, e), ground (arith, w, e))

fail_once-ended :
    (p : Policy) (now : ℕ) (text : String) (job : Job)
    → job.status ≡ error
    → fail_once p now text job ≡ job
unfolding fail_once
fail_once-ended p now text job e =
    let idle : is_waiting job.status ≡ false = ap is_waiting e in rw (idle, fail_once) refl

-- A job after some failures: retried below the limit, given up from the limit on.
abbrev pub Fate : Policy → ℕ → ℕ → Job → Type 0
Fate p n now job = ((n < p.attempts) × RetryState p n now job) ⊎ ((p.attempts ≤ n) × GaveUp p job)

fail_once-Fate :
    (p : Policy) (n now : ℕ) (text : String) (job : Job)
    → is_waiting job.status ≡ true
    → job.attempts ≡ n
    → n < p.attempts
    → Fate p (suc n) now (fail_once p now text job)
fail_once-Fate p n now text job w e lt = elim (Bool-cases (leb p.attempts (suc n))) [
  | inr more ↦
      let (s, a, t) = fail_once-waiting p now text job w (ground (arith, e, more)) in
      let count : job.attempts + 1 ≡ suc n = omega (arith, e) in
      inl (ground (arith, more), (s, a ∙ count, t ∙ ap (λ (m : ℕ). some (now + backoff p m)) count))
  | inl reached ↦
      inr
        (ground (arith, reached), fail_once-last p now text job w (ground (arith, e, lt, reached)))
]

-- A new job whose every attempt fails is retried after each failure below the limit of the policy, with
-- the delay of the policy for this number of failures; the failure that reaches the limit ends it with
-- an error, and then it stays as it is, with exactly that many attempts.
pub fail_times-Fate :
    (p : Policy) (clock : ℕ → ℕ) (texts : ℕ → String) (n : ℕ) (job : Job)
    → job.status ≡ queued
    → job.attempts ≡ 0
    → 0 < p.attempts
    → Fate p (suc n) (clock n) (fail_times p clock texts (suc n) job)
unfolding fail_times
fail_times-Fate p clock texts zero job q z limit =
    fail_once-Fate p 0 (clock 0) (texts 0) job (ap is_waiting q) z limit
fail_times-Fate p clock texts (suc n) job q z limit =
    let before = fail_times p clock texts (suc n) job in
    elim (fail_times-Fate p clock texts n job q z limit) [
      | inl (lt, (s, a, t)) ↦
          fail_once-Fate p (suc n) (clock (suc n)) (texts (suc n)) before (ap is_waiting s) a lt
      | inr (le, (s, a, t)) ↦
          let same_job = fail_once-ended p (clock (suc n)) (texts (suc n)) before s in
          inr (omega (arith, le), subst (GaveUp p) (sym same_job) (s, a, t))
    ]
