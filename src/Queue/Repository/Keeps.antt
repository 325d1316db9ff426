-- ===== src/Queue/Repository/Keeps.antt =====
-- How far a call of the repository moves the statuses of the stored jobs: each job that is still there
-- has its status, or went from a status of `from` to one of `to`.
use Prim.Native.String.{String}
use text.Mathlib.Text.{◌==◌ as str_eq}
use text.Mathlib.TextEquality.{eq_iff}
use tdl.Prelude.{
  ℕ, ◌≡◌, refl, sym, ap, ◌∙◌, subst, ◌⊎◌, inl, inr, Bool, true, Option, none, some, List,
  Bool-cases, Option-cases,
}
use tdl.Queue.Job.{Status, Job}
use tdl.Queue.Repository.{find_job, update_job, remove_job}
use tdl.Queue.Repository.Laws.{after_change, find_job-update_job, find_job-remove_job}

module _ (from to : Status → Bool) where
  -- The two lookups of one id.
  pub data Kept : Option Job → Option Job → Type 0 where
    gone : {o : Option Job} → Kept o none
    same : {j j' : Job} → j.status ≡ j'.status → Kept (some j) (some j')
    moved : {j j' : Job} → from j.status ≡ true → to j'.status ≡ true → Kept (some j) (some j')

  abbrev pub Keeps : List Job → List Job → Type 0
  Keeps jobs jobs' = (k : String) → Kept (find_job k jobs) (find_job k jobs')

  pub Kept-refl : (o : Option Job) → Kept o o
  Kept-refl none = gone
  Kept-refl (some j) = same refl

  pub Kept-trans : (a b c : Option Job) → Kept a b → Kept b c → Kept a c
  Kept-trans a b none h k = gone
  Kept-trans none none (some j'') h k = elim k [ ]
  Kept-trans none (some j') (some j'') h k = elim h [ ]
  Kept-trans (some j) none (some j'') h k = elim k [ ]
  Kept-trans (some j) (some j') (some j'') (same e) (same f) = same (e ∙ f)
  Kept-trans (some j) (some j') (some j'') (same e) (moved f t) = moved (ap from e ∙ f) t
  Kept-trans (some j) (some j') (some j'') (moved f t) (same e) = moved f (ap to (sym e) ∙ t)
  Kept-trans (some j) (some j') (some j'') (moved f t) (moved f' t') = moved f t'

  pub Keeps-trans : (a b c : List Job) → Keeps a b → Keeps b c → Keeps a c
  Keeps-trans a b c h k id =
      Kept-trans (find_job id a) (find_job id b) (find_job id c) (h id) (k id)

  pub remove_job-Keeps : (id : String) (jobs : List Job) → Keeps jobs (remove_job id jobs)
  remove_job-Keeps id jobs k = elim (Bool-cases (str_eq id k)) [
    | inl here ↦
        let e : find_job k (remove_job id jobs) ≡ none =
          find_job-remove_job k id jobs ∙ rw here refl in
        subst (Kept (find_job k jobs)) (sym e) gone
    | inr apart ↦
        let e : find_job k (remove_job id jobs) ≡ find_job k jobs =
          find_job-remove_job k id jobs ∙ rw apart refl in
        subst (Kept (find_job k jobs)) (sym e) (Kept-refl (find_job k jobs))
  ]

  -- A callback moves a job's status no further.
  abbrev pub Changes : (Job → Option Job) → Type 0
  Changes change =
      (j j' : Job)
      → change j ≡ some j'
      → (j.status ≡ j'.status) ⊎ ((from j.status ≡ true) × (to j'.status ≡ true))

  after_change-Kept :
      (now : ℕ) (id : String) (change : Job → Option Job) (o : Option Job)
      → Changes change
      → Kept o (after_change now id change o)
  after_change-Kept now id change none h = gone
  after_change-Kept now id change (some j) h = elim (Option-cases (change j)) [
    | inl keep ↦ rw keep (same refl)
    | inr (j', new) ↦ rw new (elim (h j j' new) [ inl e ↦ same e | inr (f, t) ↦ moved f t ])
  ]

  pub update_job-Keeps :
      (now : ℕ) (id : String) (change : Job → Option Job) (jobs : List Job)
      → Changes change
      → Keeps jobs (update_job now id change jobs).1
  update_job-Keeps now id change jobs h k = elim (Bool-cases (str_eq id k)) [
    | inl here ↦
        let e : find_job k (update_job now id change jobs).1
            ≡ after_change now id change (find_job k jobs) =
          find_job-update_job now k id change jobs
          ∙ rw here (
              ap (λ (z : String). after_change now id change (find_job z jobs))
                ((eq_iff id k).0 here)) in
        subst (Kept (find_job k jobs)) (sym e) (after_change-Kept now id change (find_job k jobs) h)
    | inr apart ↦
        let e : find_job k (update_job now id change jobs).1 ≡ find_job k jobs =
          find_job-update_job now k id change jobs ∙ rw apart refl in
        subst (Kept (find_job k jobs)) (sym e) (Kept-refl (find_job k jobs))
  ]
