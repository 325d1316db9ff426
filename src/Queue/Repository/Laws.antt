-- ===== src/Queue/Repository/Laws.antt =====
-- What a lookup finds after each call of the repository of bsw/cdd/taskhub/forward_repository.go.
use Prim.Native.String.{String}
use text.Mathlib.Text.{◌==◌ as str_eq}
use text.Mathlib.TextEquality.{eq_iff}
use tdl.Prelude.{
  ℕ, ◌≡◌, refl, subst, inl, inr, Bool, true, false, Option, none, some, List, [], ◌∷◌,
  if◌then◌else◌, arith, Bool-cases, Option-cases,
}
use tdl.Queue.Job.{Job}
use tdl.Queue.Repository.{find_job, put_job, update_job, remove_job}

-- A changed job as the repository keeps it.
abbrev pub kept_as : ℕ → String → Option Job → Job → Job
kept_as now id none j = j
kept_as now id (some j') j = record j' { id = id; updated_at = now }

abbrev pub after_change : ℕ → String → (Job → Option Job) → Option Job → Option Job
after_change now id change none = none
after_change now id change (some j) = some (kept_as now id (change j) j)

abbrev pub has_changed : (Job → Option Job) → Option Job → Bool
has_changed change none = false
has_changed change (some j) = elim (change j) [ none ↦ false | some _ ↦ true ]

pub find_job-put_job :
    (k : String) (job : Job) (jobs : List Job)
    → find_job k (put_job job jobs) ≡ (if str_eq job.id k then some job else find_job k jobs)
unfolding find_job put_job
find_job-put_job k job [] = refl
find_job-put_job k job (j ∷ js) =
    ground (arith, eq_iff j.id job.id, eq_iff job.id k, eq_iff j.id k, find_job-put_job k job js)

pub find_job-remove_job :
    (k id : String) (jobs : List Job)
    → find_job k (remove_job id jobs) ≡ (if str_eq id k then none else find_job k jobs)
unfolding find_job remove_job
find_job-remove_job k id [] = ground arith
find_job-remove_job k id (j ∷ js) =
    ground (arith, eq_iff j.id id, eq_iff id k, eq_iff j.id k, find_job-remove_job k id js)

pub find_job-id : (k : String) (jobs : List Job) (j : Job) → find_job k jobs ≡ some j → j.id ≡ k
unfolding find_job
find_job-id k [] j e = absurd (ground (arith, e))
find_job-id k (x ∷ xs) j e = elim (Bool-cases (str_eq x.id k)) [
  | inl here ↦
      let same : x ≡ j = ground (arith, e, here) in
      subst (λ (z : Job). z.id ≡ k) same ((eq_iff x.id k).0 here)
  | inr other ↦ find_job-id k xs j (ground (arith, e, other))
]

pub find_job-update_job :
    (now : ℕ) (k id : String) (change : Job → Option Job) (jobs : List Job)
    → find_job k (update_job now id change jobs).1
      ≡ (if str_eq id k then after_change now id change (find_job id jobs) else find_job k jobs)
unfolding find_job update_job
find_job-update_job now k id change [] = ground arith
find_job-update_job now k id change (j ∷ js) = elim (Bool-cases (str_eq j.id id)) [
  | inl here ↦ elim (Option-cases (change j)) [
    | inl keep ↦ ground (arith, keep, here, eq_iff j.id k, eq_iff id k, eq_iff j.id id)
    | inr (j', new) ↦ ground (arith, new, here, eq_iff j.id k, eq_iff id k, eq_iff j.id id)
  ]
  | inr other ↦ ground (
    arith,
    other,
    eq_iff j.id k,
    eq_iff id k,
    eq_iff j.id id,
    find_job-update_job now k id change js,
  )
]

pub update_job-changed :
    (now : ℕ) (id : String) (change : Job → Option Job) (jobs : List Job)
    → (update_job now id change jobs).0 ≡ has_changed change (find_job id jobs)
unfolding find_job update_job
update_job-changed now id change [] = refl
update_job-changed now id change (j ∷ js) = elim (Bool-cases (str_eq j.id id)) [
  | inl here ↦ elim (Option-cases (change j)) [
    | inl keep ↦ rw (here, keep) refl
    | inr (j', new) ↦ rw (here, new) refl
  ]
  | inr other ↦ rw other (update_job-changed now id change js)
]
