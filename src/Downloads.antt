-- ===== src/Downloads.antt =====
-- The states of downloads: interfaces/types/download_state.go, and where they change in
-- bsw/cdd/taskhub/download_state.go (aria2; the control of a record and the observer are in Control) and
-- local_update.go (local). `lower` is strings.ToLower. A record is kept decoded, with its stamp of the index;
-- a revision is an unsigned integer of 64 bits.
pub mod Control
pub mod Stale
pub mod Local
pub mod Final
pub mod Examples
use Prim.Native.String.{String}
use text.Mathlib.Text.{◌==◌ as str_eq}
use tdl.Prelude.{
  ℕ, ◌+◌, ◌%◌, ◌^◌, Bool, true, false, not, ◌&&◌, ◌||◌, Option, none, some, if◌then◌else◌, ltb,
  ◌==◌,
}
use tdl.Prelude.Text.{trim_text}

pub data DownloadState : Type 0 where
  queued : DownloadState
  active : DownloadState
  paused : DownloadState
  complete : DownloadState
  error : DownloadState
  removed : DownloadState
  unknown : DownloadState

-- The texts that have a state.
unfoldable pub state_of : String → DownloadState
state_of text =
    if str_eq text "waiting" || str_eq text "queued"
    then queued
    else if str_eq text "active"
    then active
    else if str_eq text "paused"
    then paused
    else if str_eq text "complete"
    then complete
    else if str_eq text "error"
    then error
    else if str_eq text "removed"
    then removed
    else unknown

-- NormalizeDownloadState
unfoldable pub normalize : (String → String) → String → DownloadState
unfolding state_of
normalize lower status = state_of (lower (trim_text status))

abbrev pub rank : DownloadState → ℕ
rank queued = 0
rank active = 1
rank paused = 2
rank complete = 3
rank error = 4
rank removed = 5
rank unknown = 6

abbrev pub same_state : DownloadState → DownloadState → Bool
same_state a b = rank a == rank b

-- DownloadTransition
unfoldable pub can_follow : DownloadState → DownloadState → Bool
can_follow from to =
    if same_state from to
    then true
    else if same_state to unknown
    then false
    else if same_state from removed
    then false
    else if same_state from complete
    then same_state to removed
    else true

-- The fields of a record, of aria2 or a local one, that are read or changed here; its id and times are left out. A
-- pause_owner or a control_until that is absent is empty or 0.
pub record Download : Type 0 where
  pub task_id : String
  pub status : String
  pub state : DownloadState
  pub total : ℕ
  pub completed : ℕ
  pub message : String
  pub revision : ℕ
  pub deleted : Bool
  pub control_until : ℕ
  pub pause_owner : String
  pub stamp : ℕ

abbrev pub next_revision : ℕ → ℕ
next_revision r = (r + 1) % 2 ^ 64

-- A remote observation.
pub record Observation : Type 0 where
  pub task_id : String
  pub status : String
  pub total : ℕ
  pub completed : ℕ
  pub message : String

-- Report, on the record that is stored: `none` for no change. `revision` was captured before the request.
unfoldable pub report : (String → String) → ℕ → Observation → ℕ → Download → Option Download
report lower now seen revision d =
    if d.deleted
      || not (str_eq d.task_id seen.task_id)
      || not (d.revision == revision)
      || ltb now d.control_until
    then none
    else if not (can_follow (normalize lower d.status) (normalize lower seen.status))
    then none
    else some (record d {
      status = seen.status;
      state = normalize lower seen.status;
      total = seen.total;
      completed = seen.completed;
      message = seen.message;
      revision = next_revision revision;
      stamp = if same_state (normalize lower seen.status) complete then d.stamp else now;
    })

-- A metadata refresh: its fields may be absent; an absent status is empty.
pub record Refresh : Type 0 where
  pub status : String
  pub total : Option ℕ
  pub completed : Option ℕ
  pub message : Option String

abbrev pub given {ℓ} : {A : Type ℓ} → Option A → A → A
given none x = x
given (some y) x = y

-- A refresh without a status keeps these fields.
abbrev pub without_state : Refresh → Download → Refresh
without_state u d = record {
  status = if str_eq d.status "" then "waiting" else d.status;
  total = none;
  completed = none;
  message = none;
}

-- mergeAria2State, with the merge of these fields that follows: `none` is the error.
unfoldable pub merge_state : (String → String) → Refresh → Download → Option Download
merge_state lower u d =
    let v = if str_eq u.status "" then without_state u d else u in
    if not (can_follow (normalize lower d.status) (normalize lower v.status))
    then none
    else some (record d {
      status = v.status;
      state = normalize lower v.status;
      total = given v.total d.total;
      completed = given v.completed d.completed;
      message = given v.message d.message;
      revision = next_revision d.revision;
    })

-- Update of the local repository on a stored record: what the callback made of it, when it changed it. `none`
-- is the error. The old state is the stored one.
unfoldable pub update_local :
    (String → String) → (Download → Option Download) → Download → Option (Bool × Download)
update_local lower change d = elim (change d) [
  | none ↦ some (false, d)
  | some d' ↦
      if not (can_follow d.state (normalize lower d'.status))
      then none
      else some (
        true,
        record d' {
          state = normalize lower d'.status;
          revision = next_revision d.revision;
          stamp = d.stamp;
        },
      )
]
