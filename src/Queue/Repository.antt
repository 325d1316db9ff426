-- ===== src/Queue/Repository.antt =====
-- ForwardRepository of bsw/cdd/taskhub/forward_repository.go. The stored jobs are a list without two jobs
-- of one id, and a record is kept decoded. A call that fails changes nothing: its caller sees the failure.
pub mod Laws
pub mod Keeps
use Prim.Native.String.{String}
use text.Mathlib.Text.{◌==◌ as str_eq}
use tdl.Prelude.{
  ℕ, Bool, true, false, not, ◌&&◌, ◌||◌, Option, none, some, List, [], ◌∷◌, if◌then◌else◌, ltb,
  ◌==◌,
}
use tdl.Prelude.Text.{text_lt}
use tdl.Queue.Job.{Job}

-- Get
unfoldable pub find_job : String → List Job → Option Job
find_job id [] = none
find_job id (j ∷ js) = let rest = find_job id js in if str_eq j.id id then some j else rest

abbrev pub stamp : ℕ → Job → Job
stamp now job = record job {
  created_at = if job.created_at == 0 then now else job.created_at;
  updated_at = now;
}

unfoldable pub put_job : Job → List Job → List Job
put_job job [] = job ∷ []
put_job job (j ∷ js) =
    let rest = put_job job js in if str_eq j.id job.id then job ∷ js else j ∷ rest

-- Save, of a job whose id is not blank and which has a status.
unfoldable pub save_job : ℕ → Job → List Job → List Job
unfolding put_job
save_job now job jobs = put_job (stamp now job) jobs

abbrev pub add_head : Job → Bool × List Job → Bool × List Job
add_head j (changed, js) = (changed, j ∷ js)

-- Update: the callback answers `none` for no change. A missing record is never created.
unfoldable pub update_job : ℕ → String → (Job → Option Job) → List Job → Bool × List Job
update_job now id change [] = (false, [])
update_job now id change (j ∷ js) =
    let rest = update_job now id change js in
    if str_eq j.id id
    then elim (change j) [
      | none ↦ (false, j ∷ js)
      | some j' ↦ (true, record j' { id = id; updated_at = now } ∷ js)
    ]
    else add_head j rest

-- Remove
unfoldable pub remove_job : String → List Job → List Job
remove_job id [] = []
remove_job id (j ∷ js) = let rest = remove_job id js in if str_eq j.id id then rest else j ∷ rest

-- The order of Records: by creation, then by id.
unfoldable pub comes_before : Job → Job → Bool
comes_before a b =
    if a.created_at == b.created_at then text_lt a.id b.id else ltb a.created_at b.created_at

unfoldable pub insert_job : Job → List Job → List Job
insert_job j [] = j ∷ []
insert_job j (k ∷ ks) =
    let rest = insert_job j ks in if comes_before k j then k ∷ rest else j ∷ k ∷ ks

-- Records
unfoldable pub records : List Job → List Job
records [] = []
records (j ∷ js) = insert_job j (records js)
