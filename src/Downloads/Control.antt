-- ===== src/Downloads/Control.antt =====
-- The control of an aria2 record around a network call, bsw/cdd/taskhub/aria2_control.go, and what an
-- observation changes of a record that is stored, bsw/cdd/taskhub/aria2_observation.go. A record is decoded, and
-- a transaction that fails changes nothing.
use Prim.Native.String.{String}
use text.Mathlib.Text.{◌==◌ as str_eq}
use tdl.Prelude.{ℕ, Bool, not, ◌&&◌, ◌||◌, Option, none, some, if◌then◌else◌, ltb, ◌==◌}
use tdl.Downloads.{normalize, can_follow, Download, next_revision}

-- How a reservation ends: the error of a deadline that has passed, no lease, or the lease.
pub data Reservation : Type 0 where
  deadline_expired not_reserved : Reservation
  reserved : Download → Reservation

-- ReserveControl on the record that is stored: `asked` is the time at the call, `now` that of the transaction.
unfoldable pub reserve_control : ℕ → ℕ → ℕ → Download → Download → Reservation
reserve_control asked now until expected d =
    if not (ltb asked until)
    then deadline_expired
    else if d.deleted
        || not (d.revision == expected.revision)
        || not (str_eq d.task_id expected.task_id)
        || ltb now d.control_until
    then not_reserved
    else reserved
        (record d { revision = next_revision d.revision; control_until = until; stamp = now })

-- The status that FinishControl stores, when it stores one.
pub finish_status : (String → String) → Download → String → Download → Download
finish_status lower lease status d =
    if not (str_eq status "") && can_follow (normalize lower d.status) (normalize lower status)
    then record d {
      status = status;
      state = normalize lower status;
      pause_owner =
          if str_eq status "paused" && not (str_eq lease.pause_owner "")
          then lease.pause_owner
          else "";
    }
    else d

-- FinishControl on the record that is stored: `none` for no change.
unfoldable pub finish_control :
    (String → String) → ℕ → Download → String → Bool → Download → Option Download
unfolding finish_status
finish_control lower now lease status remove d =
    if not (d.revision == lease.revision) || not (str_eq d.task_id lease.task_id)
    then none
    else (let d' = finish_status lower lease (if remove then "removed" else status) d in
        some (record d' {
          control_until = 0;
          deleted = remove || d.deleted;
          revision = next_revision d.revision;
          stamp = now;
        }))

-- The stamp that an observation gives, never below that of before: `created` is the time of its creation.
pub applied_stamp : ℕ → ℕ → Download → ℕ → ℕ
applied_stamp now created observed before =
    let complete =
      str_eq observed.status "complete"
      && (observed.total == 0 || not (ltb observed.completed observed.total)) in
    let stamp = if complete then created else now in if ltb stamp before then before else stamp

-- Apply of an observation, on the record that is stored, where its link is unchanged: `none` for no change.
unfoldable pub apply_observed : (String → String) → ℕ → ℕ → Download → Download → Option Download
unfolding applied_stamp
apply_observed lower now created observed d =
    if d.deleted
      || not (d.revision == observed.revision)
      || ltb now d.control_until
      || not (str_eq d.task_id observed.task_id)
      || not (can_follow (normalize lower d.status) (normalize lower observed.status))
    then none
    else some (record d {
      status = observed.status;
      state = normalize lower observed.status;
      total = observed.total;
      completed = observed.completed;
      message = observed.message;
      revision = next_revision observed.revision;
      stamp = applied_stamp now created observed d.stamp;
    })
