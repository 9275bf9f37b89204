-- ===== src/Schedules/Tests.antt =====
-- The theorems about the tables at concrete rows.
use bolodb.Prelude.{
  ℕ, ◌+◌, ◌*◌, ◌≤◌, ◌≡◌, refl, true, false, List, [], ◌∷◌, none, some, arith, length, filter_by,
  ◌==◌, All,
}
use bolodb.Text.{codes}
use bolodb.Datetime.{Datetime, before}
use bolodb.Schedules.{
  Schedule, ScheduleRun, Tables, success, failed, always, count_schedules,
  max_schedules_per_workspace, run_history_limit, run_of, record_run,
}
use bolodb.Schedules.Claims.{wins-le-one}
use bolodb.Schedules.Processes.{Op, claim, finish, record_one, wins}
use bolodb.Schedules.History.{IsConsistent, record_run-history}
use bolodb.Schedules.Trim.{StaysOrTrimmed, record_run-latest}
use bolodb.Schedules.Capacity.{create, delete, schedule_op, changes, changes-IsWithinCap}

abbrev at_minute : ℕ → Datetime
at_minute n = record { minutes = n; micros = 0 }

abbrev pub daily : Schedule
daily = record {
  id = 7;
  workspace_id = 1;
  name = codes "Daily";
  sql = codes "SELECT 1";
  database_id = some 3;
  cron = codes "30 9 * * *";
  starts_at = none;
  ends_at = none;
  is_active = true;
  recipients = codes "ana@example.com" ∷ [];
  display_columns = [];
  max_rows = 50;
  attach_csv = false;
  send_condition = always;
  condition_value = none;
  next_run_at = some (record { minutes = 738945 * 1440 + 570; micros = 0 });
  last_run_at = none;
  last_status = none;
  consecutive_failures = 0;
}

abbrev run : ScheduleRun
run = record {
  id = 0;
  schedule_id = 7;
  workspace_id = 1;
  status = success;
  started_at = at_minute 5;
  row_count = some 1;
  detail = none;
  delivered_to = none;
  manual = false;
}

abbrev pub one_schedule : Tables
one_schedule = record { schedules = daily ∷ []; runs = []; next_id = 8 }

-- Two processes race for the slot, and one of them writes its result back.
abbrev race : List Op
race =
    claim 7 (at_minute 1064081370) (some (at_minute 1064082810)) (at_minute 1064081371)
    ∷ claim 7 (at_minute 1064081370) (some (at_minute 1064082810)) (at_minute 1064081371)
    ∷ finish 7 failed 1 none
    ∷ []

wins-le-one_example : wins 7 (at_minute 1064081370) race one_schedule ≤ 1
wins-le-one_example =
    wins-le-one 7 (at_minute 1064081370) race one_schedule (tt, tt)
      (unfold before in (refl, (refl, (tt, tt))))

record_run-history_example :
    (length (filter_by (run_of run.schedule_id) (record_run run one_schedule).runs)
      ≤ run_history_limit)
    × ((i : ℕ)
        → (i == run.schedule_id) ≡ false
        → filter_by (run_of i) (record_run run one_schedule).runs
          ≡ filter_by (run_of i) one_schedule.runs)
    × ((record_run run one_schedule).schedules ≡ one_schedule.schedules)
    × IsConsistent (record_run run one_schedule)
record_run-history_example =
    record_run-history run one_schedule (record { distinct = tt; fresh = tt })

record_run-latest_example :
    let mine =
      filter_by (run_of 7) (record run { id = one_schedule.next_id } ∷ one_schedule.runs) in
    let after = (record_run run one_schedule).runs in
    (length (filter_by (run_of 7) after) ≤ run_history_limit) × All (StaysOrTrimmed mine after) mine
record_run-latest_example =
    record_run-latest run one_schedule (record { distinct = tt; fresh = tt })

changes-IsWithinCap_example :
    count_schedules 1
      (changes (create 1 daily ∷ delete 1 7 ∷ schedule_op (record_one run) ∷ []) one_schedule)
    ≤ max_schedules_per_workspace
changes-IsWithinCap_example =
    changes-IsWithinCap 1 (create 1 daily ∷ delete 1 7 ∷ schedule_op (record_one run) ∷ [])
      one_schedule (unfold count_schedules filter_by in omega arith)
