-- ===== src/Scheduler/Tick.antt =====
-- `tick` of backend/app/services/scheduler.py. The pass over the due rows is `claim_due`; the runs that
-- it starts are then taken in turn by `gather`, with the ending that each one is given.
use bolodb.Prelude.{
  ℕ, ◌+◌, ◌*◌, Bool, false, not, List, [], ◌∷◌, ◌++◌, Option, none, some, length, ltb,
  if◌then◌else◌, Result, ok, err, ◌>>=◌, get_or,
}
use bolodb.Datetime.{Datetime, Stamp, east}
use bolodb.Cron.Error.{CronError}
use bolodb.Cron.Window.{next_run}
use bolodb.Schedules.{
  Schedule, ScheduleRun, Tables, success, skipped, missed, claim_schedule, list_due_schedules,
}
use bolodb.Scheduler.Delivery.{App}
use bolodb.Scheduler.Run.{Alert, Ending, Reach, World, run_schedule, try_finish, try_record}

abbrev pub due_batch_size : ℕ
due_batch_size = 50

-- The settings SCHEDULE_MAX_FAILURES and SCHEDULE_MISFIRE_GRACE_SECONDS.
pub record Settings : Type 0 where
  pub max_failures : ℕ
  pub grace_seconds : ℕ

-- A stored moment is aware, in UTC.
abbrev pub aware : Datetime → Stamp
aware d = record { local = d; tzinfo = some (east 0) }

abbrev pub aware_of : Option Datetime → Option Stamp
aware_of none = none
aware_of (some d) = some (aware d)

-- A claim that raises is a claim that is lost.
unfoldable pub try_claim :
    Reach → ℕ → Datetime → Option Datetime → Datetime → Tables → Tables × Bool
try_claim reach schedule_id slot upcoming moment t =
    if reach.claims schedule_id
    then claim_schedule schedule_id (some slot) upcoming moment t
    else (t, false)

-- A schedule without a next occurrence is switched off.
unfoldable pub retire : Reach → Schedule → Option Datetime → World → World
retire reach s none w =
    try_finish reach s.id (get_or s.last_status success) s.consecutive_failures (some false) w
retire reach s (some upcoming) w = w

-- `moment - slot > grace`
abbrev pub total_micros : Datetime → ℕ
total_micros d = d.minutes * 60_000_000 + d.micros

unfoldable pub too_late : ℕ → Datetime → Datetime → Bool
too_late grace_seconds slot moment =
    ltb (total_micros slot + grace_seconds * 1_000_000) (total_micros moment)

abbrev pub missed_row : Schedule → Datetime → Datetime → ScheduleRun
missed_row s slot moment = record {
  id = 0;
  schedule_id = s.id;
  workspace_id = s.workspace_id;
  status = skipped;
  started_at = moment;
  row_count = none;
  detail = some (missed slot);
  delivered_to = none;
  manual = false;
}

-- One due row, once its next occurrence is known: claimed, retired where there is none, and either
-- recorded as missed or started.
unfoldable pub take_slot :
    Reach
    → Settings
    → Datetime
    → Schedule
    → Datetime
    → Option Datetime
    → World
    → World × List Schedule
take_slot reach settings moment s slot upcoming w =
    let (t, won) = try_claim reach s.id slot upcoming moment w.tables in
    let w' = record w { tables = t } in
    let w'' = retire reach s upcoming w' in
    if not won
    then (w', [])
    else if too_late settings.grace_seconds slot moment
    then (try_record reach (missed_row s slot moment) w'', [])
    else (w'', s ∷ [])

-- `cron.next_run` of the row
abbrev pub upcoming_of : Datetime → Schedule → Result CronError (Option Datetime)
upcoming_of moment s =
    next_run s.cron moment (some (aware moment)) (aware_of s.starts_at) (aware_of s.ends_at)

-- `cron.next_run` is outside the `try` of the loop: an expression that does not parse ends the pass.
unfoldable pub take_upcoming :
    Reach
    → Settings
    → Datetime
    → Schedule
    → Datetime
    → Result CronError (Option Datetime)
    → World
    → World × Result CronError (List Schedule)
take_upcoming reach settings moment s slot (err e) w = (w, err e)
take_upcoming reach settings moment s slot (ok upcoming) w =
    let (w', started) = take_slot reach settings moment s slot upcoming w in (w', ok started)

-- A row without a slot is passed over.
unfoldable pub take_row :
    Reach
    → Settings
    → Datetime
    → Schedule
    → Option Datetime
    → World
    → World × Result CronError (List Schedule)
take_row reach settings moment s none w = (w, ok [])
take_row reach settings moment s (some slot) w =
    take_upcoming reach settings moment s slot (upcoming_of moment s) w

-- What the rest of the loop adds to a row; an exception loses the runs that were about to start.
abbrev pub and_rest :
    World × Result CronError (List Schedule)
    → World × Result CronError (List Schedule)
    → World × Result CronError (List Schedule)
and_rest (w, err e) rest = (w, err e)
and_rest (w, ok started) (w', rest) = (w', rest >>= λ others. ok (started ++ others))

-- The loop of `tick` over the due rows.
unfoldable pub claim_due :
    Reach → Settings → Datetime → List Schedule → World → World × Result CronError (List Schedule)
claim_due reach settings moment [] w = (w, ok [])
claim_due reach settings moment (s ∷ due) w =
    let taken = take_row reach settings moment s s.next_run_at w in
    and_rest taken (claim_due reach settings moment due taken.0)

-- The runs, each taken to start at the moment of the tick.
unfoldable pub gather :
    App
    → Reach
    → (Alert → Bool)
    → Settings
    → Datetime
    → (ℕ → Ending)
    → List Schedule
    → World
    → World
gather app reach send_alert settings moment endings [] w = w
gather app reach send_alert settings moment endings (s ∷ started) w =
    gather app reach send_alert settings moment endings started
      (run_schedule app reach send_alert settings.max_failures s false moment (endings s.id) w).1

-- After the pass: the runs, or the exception that ended it.
unfoldable pub after_pass :
    App
    → Reach
    → (Alert → Bool)
    → Settings
    → (ℕ → Ending)
    → Datetime
    → World × Result CronError (List Schedule)
    → World × Result CronError ℕ
after_pass app reach send_alert settings endings moment (w, err e) = (w, err e)
after_pass app reach send_alert settings endings moment (w, ok runs) =
    (gather app reach send_alert settings moment endings runs w, ok (length runs))

-- `tick`: the number of runs started.
unfoldable pub tick :
    App
    → Reach
    → (Alert → Bool)
    → Settings
    → (ℕ → Ending)
    → Datetime
    → World
    → World × Result CronError ℕ
tick app reach send_alert settings endings moment w =
    after_pass app reach send_alert settings endings moment
      (claim_due reach settings moment (list_due_schedules moment due_batch_size w.tables) w)
