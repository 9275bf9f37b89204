-- ===== src/Scheduler/Run.antt =====
-- `run_schedule` and `_write_back_state` of backend/app/services/scheduler.py.
use bolodb.Prelude.{
  ℕ, ◌+◌, Bool, false, List, [], ◌∷◌, ◌++◌, Option, none, some, leb, is_empty, if◌then◌else◌,
  Result, ok, err,
}
use bolodb.Text.{Text}
use bolodb.Datetime.{Datetime}
use bolodb.Schedules.{
  Schedule, ScheduleRun, Tables, Status, success, failed, skipped, Detail, restarted, timed_out,
  record_run, finish_schedule_run,
}
use bolodb.Scheduler.Delivery.{App, Mail, Outcome, addressed, execute_and_deliver}

-- Which statements reach the tables, for each schedule: those that do not raise and change nothing.
pub record Reach : Type 0 where
  pub claims : ℕ → Bool
  pub finishes : ℕ → Bool
  pub records : ℕ → Bool

-- The alert about a schedule that has been paused.
pub record Alert : Type 0 where
  pub to : List Text
  pub schedule_id : ℕ
  pub error : Option Detail
  pub failures : ℕ

-- What a run changes: the tables, and the mails that went out.
pub record World : Type 0 where
  pub tables : Tables
  pub mails : List Mail
  pub alerts : List Alert

-- How the wait for a run ends. A run that is cut short may have sent its mail.
pub data Ending : Type 0 where
  completes : Ending
  times_out cancelled : Bool → Ending

abbrev pub failure : Option Detail → Outcome
failure detail = record { status = failed; row_count = none; detail = detail; delivered_to = none }

abbrev pub outcome_of : Result Detail Outcome → Outcome
outcome_of (ok o) = o
outcome_of (err e) = failure (some e)

abbrev pub sent_if : Bool → List Mail → List Mail
sent_if sent mails = if sent then mails else []

abbrev add_mails : List Mail → World → World
add_mails mails w = record w { mails = w.mails ++ mails }

-- `record_run`, with its exceptions suppressed.
unfoldable pub try_record : Reach → ScheduleRun → World → World
try_record reach r w =
    if reach.records r.schedule_id then record w { tables = record_run r w.tables } else w

abbrev pub run_row : Schedule → Bool → Datetime → Outcome → ScheduleRun
run_row s manual started o = record {
  id = 0;
  schedule_id = s.id;
  workspace_id = s.workspace_id;
  status = o.status;
  started_at = started;
  row_count = o.row_count;
  detail = o.detail;
  delivered_to = o.delivered_to;
  manual = manual;
}

-- `finish_schedule_run`, with its exceptions suppressed.
unfoldable pub try_finish : Reach → ℕ → Status → ℕ → Option Bool → World → World
try_finish reach schedule_id status failures is_active w =
    if reach.finishes schedule_id
    then record w {
      tables = (finish_schedule_run schedule_id status failures is_active w.tables).0;
    }
    else w

-- The new failure counter, and whether the schedule is to be paused.
unfoldable pub failure_state : ℕ → ℕ → Status → ℕ × Bool
failure_state max_failures previous failed = (previous + 1, leb max_failures (previous + 1))
failure_state max_failures previous success = (0, false)
failure_state max_failures previous skipped = (0, false)

-- The alert goes to the recipients, where there are any and the provider takes it.
unfoldable pub alert_paused : (Alert → Bool) → Schedule → Option Detail → ℕ → World → World
alert_paused send_alert s detail failures w =
    let alert : Alert = record {
      to = addressed s;
      schedule_id = s.id;
      error = detail;
      failures = failures;
    } in
    if is_empty (addressed s)
    then w
    else if send_alert alert
    then record w { alerts = w.alerts ++ alert ∷ [] }
    else w

-- `_write_back_state`
unfoldable pub write_back_state :
    Reach → (Alert → Bool) → ℕ → Schedule → Status → Option Detail → World → World
write_back_state reach send_alert max_failures s status detail w =
    let (failures, pause) = failure_state max_failures s.consecutive_failures status in
    let w' = try_finish reach s.id status failures (if pause then some false else none) w in
    if pause then alert_paused send_alert s detail failures w' else w'

-- After the wait: the run is recorded, and a run that is not a test moves the failure counter.
unfoldable pub finish_run :
    Reach → (Alert → Bool) → ℕ → Schedule → Bool → Datetime → Outcome → World → World
finish_run reach send_alert max_failures s manual started o w =
    let w' = try_record reach (run_row s manual started o) w in
    if manual then w' else write_back_state reach send_alert max_failures s o.status o.detail w'

-- `run_schedule`: the outcome, or `none` where the cancellation goes on, and the world after it.
unfoldable pub run_schedule :
    App
    → Reach
    → (Alert → Bool)
    → ℕ
    → Schedule
    → Bool
    → Datetime
    → Ending
    → World
    → Option Outcome × World
run_schedule app reach send_alert max_failures s manual started completes w =
    let (result, mails) = execute_and_deliver app s manual in
    let o = outcome_of result in
    (some o, finish_run reach send_alert max_failures s manual started o (add_mails mails w))
run_schedule app reach send_alert max_failures s manual started (times_out sent) w =
    let o = failure (some timed_out) in
    (
      some o,
      finish_run reach send_alert max_failures s manual started o
          (add_mails (sent_if sent (execute_and_deliver app s manual).1) w),
    )
run_schedule app reach send_alert max_failures s manual started (cancelled sent) w = (
  none,
  try_record reach (run_row s manual started (failure (some restarted)))
      (add_mails (sent_if sent (execute_and_deliver app s manual).1) w),
)
