-- ===== src/Queue/Actions.antt =====
-- What users ask of application/forwarder/queue.go (Pause, Resume, Delete). A call of the repository may fail: `fails`
-- says for which id it does. `cancel` of the active job's context is the flag of `Worker`.
use Prim.Native.String.{String}
use text.Mathlib.Text.{◌==◌ as str_eq}
use tdl.Prelude.{
  ℕ, ◌+◌, Bool, true, false, ◌||◌, Option, none, some, List, [], ◌∷◌, ◌++◌, if◌then◌else◌,
}
use tdl.Prelude.Text.{trim_text}
use tdl.Queue.Job.{queued, paused, retrying, error, Job, ActionResult}
use tdl.Queue.Repository.{find_job, update_job, remove_job}

unfoldable pub has_id : String → List String → Bool
has_id id [] = false
has_id id (x ∷ xs) = str_eq x id || has_id id xs

-- The loop of uniqueIDs.
unfoldable pub unique_from : List String → List String → List String
unique_from seen [] = []
unique_from seen (raw ∷ ids) =
    let id = trim_text raw in
    let skipped = unique_from seen ids in
    let kept = id ∷ unique_from (id ∷ seen) ids in
    if str_eq id "" then skipped else if has_id id seen then skipped else kept

-- uniqueIDs
unfoldable pub unique_ids : List String → List String
unfolding unique_from
unique_ids ids = unique_from [] ids

abbrev pub no_result : ActionResult
no_result = record { matched = 0; changed = 0; skipped = 0; errors = [] }

abbrev pub with_error : String → ActionResult → ActionResult
with_error id r = record r { errors = r.errors ++ (id ∷ []) }

abbrev pub with_outcome : Bool → ActionResult → ActionResult
with_outcome true r = record r { matched = r.matched + 1; changed = r.changed + 1 }
with_outcome false r = record r { skipped = r.skipped + 1 }

-- The callback of Pause.
unfoldable pub pause_change : Job → Option Job
pause_change job = elim job.status [
  | queued ↦ some (record job { status = paused; next_attempt_at = none })
  | retrying ↦ some (record job { status = paused; next_attempt_at = none })
  | _ ↦ none
]

abbrev pub requeued : Job → Job
requeued job = record job {
  status = queued;
  next_attempt_at = none;
  message = "";
  attempts = 0;
  finished_at = none;
}

-- The callback of Resume.
unfoldable pub resume_change : Job → Option Job
resume_change job = elim job.status [
  | paused ↦ some (requeued job)
  | error ↦ some (requeued job)
  | retrying ↦ some (requeued job)
  | _ ↦ none
]

-- The loop of update, which Pause and Resume share.
unfoldable pub update_each :
    (String → Bool)
    → ℕ
    → (Job → Option Job)
    → List String
    → List Job
    → ActionResult
    → ActionResult × List Job
update_each fails now change [] jobs r = (r, jobs)
update_each fails now change (id ∷ ids) jobs r = elim (fails id) [
  | true ↦ update_each fails now change ids jobs (with_error id r)
  | false ↦
      let (changed, jobs') = update_job now id change jobs in
      update_each fails now change ids jobs' (with_outcome changed r)
]

-- update
unfoldable pub update_jobs :
    (String → Bool) → ℕ → (Job → Option Job) → List String → List Job → ActionResult × List Job
unfolding unique_ids update_each
update_jobs fails now change ids jobs = update_each fails now change (unique_ids ids) jobs no_result

-- The loop of Delete: the ids to cancel come with the result.
unfoldable pub delete_each :
    (String → Bool)
    → (String → Bool)
    → List String
    → List Job
    → ActionResult
    → List String
    → ActionResult × List Job × List String
delete_each fails_get fails_remove [] jobs r deleted = (r, jobs, deleted)
delete_each fails_get fails_remove (id ∷ ids) jobs r deleted = elim (fails_get id) [
  | true ↦ delete_each fails_get fails_remove ids jobs (with_error id r) deleted
  | false ↦ elim (find_job id jobs) [
    | none ↦ delete_each fails_get fails_remove ids jobs (with_outcome false r) deleted
    | some _ ↦ elim (fails_remove id) [
      | true ↦ delete_each fails_get fails_remove ids jobs (with_error id r) deleted
      | false ↦
          delete_each fails_get fails_remove ids (remove_job id jobs) (with_outcome true r)
            (id ∷ deleted)
    ]
  ]
]

-- Delete
unfoldable pub delete_jobs :
    (String → Bool)
    → (String → Bool)
    → List String
    → List Job
    → ActionResult × List Job × List String
unfolding unique_ids delete_each
delete_jobs fails_get fails_remove ids jobs =
    delete_each fails_get fails_remove (unique_ids ids) jobs no_result []
