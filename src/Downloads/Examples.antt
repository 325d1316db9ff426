-- ===== src/Downloads/Examples.antt =====
-- The theorems on the states of downloads at concrete inputs, with lower-case texts.
use Prim.Native.String.{String}
use tdl.Prelude.{ℕ, ◌≡◌, refl, ◌⊎◌, true, false, Option, none, some, arith}
use tdl.Prelude.Text.{trim_text, is_space}
use tdl.Downloads.{
  active, complete, removed, normalize, can_follow, Download, Observation, report, update_local,
}
use tdl.Downloads.Final.{reported, History, start, then_one, History-can_follow}
use tdl.Downloads.Stale.{Edits, untouched, edited, leased, ended, report-stale}
use tdl.Downloads.Control.{
  deadline_expired, not_reserved, reserved, reserve_control, finish_control, apply_observed,
}
use tdl.Downloads.Local.{unchanged, then_update, LocalHistory-can_follow}

abbrev as_is : String → String
as_is s = s

abbrev fresh : Download
fresh = record {
  task_id = "t1";
  status = "active";
  state = active;
  total = 100;
  completed = 10;
  message = "";
  revision = 4;
  deleted = false;
  control_until = 0;
  pause_owner = "";
  stamp = 5;
}

abbrev seen_complete : Observation
seen_complete = record {
  task_id = "t1";
  status = "complete";
  total = 100;
  completed = 100;
  message = "";
}

abbrev finished : Download
finished = record fresh { status = "complete"; state = complete; completed = 100; revision = 5 }

report_run : report as_is 9 seen_complete 4 fresh ≡ some finished
unfolding report normalize can_follow trim_text is_space
report_run = refl

one_report : History as_is fresh 1 finished
one_report = then_one start (reported 9 seen_complete 4 report_run)

History-can_follow_example :
    (can_follow (normalize as_is "active") (normalize as_is "complete") ≡ true)
    × (◌≡◌ {A = ℕ} 1 0 ⊎ (complete ≡ normalize as_is "complete"))
History-can_follow_example = History-can_follow as_is fresh 1 finished one_report

abbrev seen_active : Observation
seen_active = record {
  task_id = "t1";
  status = "active";
  total = 100;
  completed = 50;
  message = "";
}

-- The record with a lease of control, and after the end of control by a call that removed the download.
abbrev held : Download
held = record fresh { control_until = 30; revision = 5; stamp = 9 }

abbrev gone : Download
gone = record fresh {
  status = "removed";
  state = removed;
  revision = 6;
  deleted = true;
  stamp = 12;
}

held_run : reserve_control 8 9 30 fresh fresh ≡ reserved held
unfolding reserve_control
held_run = refl

gone_run : finish_control as_is 12 held "" true held ≡ some gone
unfolding finish_control normalize can_follow trim_text is_space
gone_run = refl

held_then_gone : Edits as_is fresh 2 gone
held_then_gone =
    edited (edited untouched (leased 8 9 30 fresh held_run)) (ended 12 held "" true gone_run)

report-stale_example :
    (report as_is 13 seen_active 4 gone ≡ none)
    × (apply_observed as_is 13 3 fresh gone ≡ none)
    × ((reserve_control 12 13 30 fresh gone ≡ deadline_expired)
        ⊎ (reserve_control 12 13 30 fresh gone ≡ not_reserved))
    × (finish_control as_is 13 fresh "paused" false gone ≡ none)
report-stale_example =
    report-stale as_is 2 fresh gone fresh seen_active 12 13 30 3 "paused" false refl (omega arith)
      (omega arith) (omega arith) held_then_gone

abbrev completes : Download → Option Download
completes d = some (record d { status = "complete" })

update_run :
    update_local as_is completes fresh
    ≡ some (true, record fresh { status = "complete"; state = complete; revision = 5 })
unfolding update_local normalize can_follow trim_text is_space
update_run = refl

LocalHistory-can_follow_example : can_follow active complete ≡ true
LocalHistory-can_follow_example =
    LocalHistory-can_follow as_is fresh
      (record fresh { status = "complete"; state = complete; revision = 5 })
      (then_update completes true unchanged update_run)
