-- ===== src/Queue/Requests.antt =====
-- The answers of Pause, Resume and Delete of application/forwarder/queue.go, and what they change.
pub mod Ids
use Prim.Native.String.{String, ◌++◌ as join}
use text.Mathlib.Text.{◌==◌ as str_eq}
use tdl.Prelude.{
  none, if◌then◌else◌, ◌||◌, not, ◌&&◌, map, ℕ, ◌+◌, ◌≡◌, sym, Bool, Option, some, List, length,
}
use tdl.Prelude.Int.{ℤ}
use tdl.Prelude.Text.{trim_text}
use tdl.Forward.Rules.{ForwardDestination}
use tdl.Queue.Job.{Job, ActionResult}
use tdl.Queue.Repository.{find_job, save_job, stamp}
use tdl.Queue.Repository.Laws.{find_job-put_job, after_change}
use tdl.Queue.Actions.{has_id, unique_from}
use tdl.Queue.Enqueue.{route_identity, is_zero, enqueue_routed, routed_job}

-- Every id is in the answer once: as matched, as skipped or as an error.
abbrev answered : ActionResult → ℕ
answered r = r.matched + r.skipped + length r.errors

abbrev Answers : ActionResult → ℕ → ActionResult → Type 0
Answers before n r = (answered r ≡ answered before + n) × (r.matched ≡ r.changed)

-- What an update leaves under an id: the change of the callback, where the id is handled and no call fails.
abbrev pub after_update :
    (String → Bool) → ℕ → (Job → Option Job) → List String → List Job → String → Option Job
after_update fails now change ids jobs k =
    if has_id k ids && not (fails k)
    then after_change now k change (find_job k jobs)
    else find_job k jobs

-- What Delete leaves under an id: nothing, where the id is handled and no call fails.
abbrev pub after_delete :
    (String → Bool) → (String → Bool) → List String → List Job → String → Option Job
after_delete fails_get fails_remove ids jobs k =
    if has_id k ids && not (fails_get k || fails_remove k) then none else find_job k jobs

-- What an answer says of the ids that were handled.
abbrev pub IsComplete : List String → ActionResult → Type 0
IsComplete handled r =
    (r.matched + r.skipped + length r.errors ≡ length handled) × (r.matched ≡ r.changed)
