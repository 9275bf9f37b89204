-- ===== src/Requests/Changes.antt =====
-- `compute_next_run`, `create_schedule`, `update_schedule` and `set_active` of
-- backend/app/controllers/schedules.py. A row in its table has the fields of `Schedule`; a null for a
-- column that cannot be null is not modelled.
use bolodb.Prelude.{
  ℕ, Bool, true, false, not, ◌&&◌, List, [], ◌∷◌, Option, none, some, is_none, is_empty, filter_by,
  if◌then◌else◌, Result, ok, err, ◌>>=◌, get_or, String,
}
use bolodb.Prelude.Rows.{update_rows}
use bolodb.Prelude.Int.{ℤ, pos}
use bolodb.Text.{Text}
use bolodb.Datetime.{Datetime}
use bolodb.Cron.Error.{CronError}
use bolodb.Cron.Window.{next_run}
use bolodb.Schedules.{
  Schedule, Tables, Condition, has_id, in_workspace, ScheduleLimitError,
  create_schedule as insert_schedule,
}
use bolodb.Scheduler.Tick.{aware, aware_of}
use bolodb.Requests.{
  BadRequest, unhandled, no_recipients, no_runs_left, too_many_schedules, Payload, condition_of,
  validate_payload,
}

-- `compute_next_run`
unfoldable pub compute_next_run : Datetime → Schedule → Result CronError (Option Datetime)
compute_next_run now s =
    if s.is_active
    then next_run s.cron now (some (aware now)) (aware_of s.starts_at) (aware_of s.ends_at)
    else ok none

abbrev rows_or : Option (Option ℤ) → ℕ → ℕ
rows_or (some (some (pos n))) stored = n
rows_or _ stored = stored

abbrev condition_or : Option (Option String) → Condition → Condition
condition_or (some (some c)) stored = get_or (condition_of c) stored
condition_or _ stored = stored

abbrev natural : Option ℤ → Option ℕ
natural (some (pos n)) = some n
natural _ = none

abbrev value_or : Option (Option ℤ) → Option ℕ → Option ℕ
value_or none stored = stored
value_or (some value) stored = natural value

-- The columns that the request gives.
unfoldable pub apply : Payload → Schedule → Schedule
apply p s = record s {
  name = get_or p.name s.name;
  sql = get_or p.sql s.sql;
  cron = get_or p.cron s.cron;
  recipients = get_or p.recipients s.recipients;
  starts_at = get_or p.starts_at s.starts_at;
  ends_at = get_or p.ends_at s.ends_at;
  is_active = get_or p.is_active s.is_active;
  max_rows = rows_or p.max_rows s.max_rows;
  send_condition = condition_or p.send_condition s.send_condition;
  condition_value = value_or p.condition_value s.condition_value;
}

abbrev pub or_unhandled : Result CronError (Option Datetime) → Result BadRequest (Option Datetime)
or_unhandled (err e) = err (unhandled e)
or_unhandled (ok next) = ok next

-- The next slot of a row, which an active schedule has to have.
unfoldable pub slot_of : Datetime → Schedule → Result BadRequest (Option Datetime)
slot_of now s = or_unhandled (compute_next_run now s) >>= λ next.
    if is_none next && s.is_active then err no_runs_left else ok next

abbrev pub some_recipients : Option (List Text) → Result BadRequest (Unit {0})
some_recipients none = ok tt
some_recipients (some recipients) = if is_empty recipients then err no_recipients else ok tt

-- The row that a request describes: active, unless it says otherwise. `defaults` holds the columns that
-- it leaves out.
abbrev pub described : Payload → Schedule → Schedule
described clean defaults = apply clean (record defaults { is_active = true })

-- The row that `create_schedule` inserts.
unfoldable pub new_row :
    (Text → Option Text) → Datetime → Schedule → Payload → Result BadRequest Schedule
new_row readonly_violation now defaults p =
    validate_payload readonly_violation now false p >>= λ clean.
    some_recipients clean.recipients >>= λ given. slot_of now (described clean defaults) >>= λ next.
    ok (record (described clean defaults) { next_run_at = next })

abbrev pub or_limit : Result ScheduleLimitError Tables → Result BadRequest Tables
or_limit (err e) = err too_many_schedules
or_limit (ok t) = ok t

-- `create_schedule`
unfoldable pub create_schedule :
    (Text → Option Text) → Datetime → Schedule → ℕ → Payload → Tables → Result BadRequest Tables
create_schedule readonly_violation now defaults workspace_id p t =
    new_row readonly_violation now defaults p >>= λ s. or_limit (insert_schedule workspace_id s t)

-- Does the request move the firing times?
abbrev pub touches : Payload → Bool
touches p = not (is_none p.cron && is_none p.starts_at && is_none p.ends_at && is_none p.is_active)

abbrev pub switches_on : Payload → Schedule → Bool
switches_on p existing = get_or p.is_active false && not existing.is_active

-- The columns given, the new slot, and a clean slate for a schedule that is switched on again.
abbrev pub with_slot : Payload → Schedule → Option Datetime → Schedule → Schedule
with_slot clean existing next r = record (apply clean r) {
  next_run_at = next;
  consecutive_failures = (if switches_on clean existing then 0 else r.consecutive_failures);
}

unfoldable pub timed_change :
    Datetime → Schedule → Payload → Result BadRequest (Schedule → Schedule)
timed_change now existing clean =
    slot_of now (apply clean existing) >>= λ next. ok (with_slot clean existing next)

-- What `update_schedule` writes to the row, from the row that it read.
unfoldable pub row_change :
    (Text → Option Text) → Datetime → Schedule → Payload → Result BadRequest (Schedule → Schedule)
row_change readonly_violation now existing p =
    validate_payload readonly_violation now true p >>= λ clean.
    some_recipients clean.recipients >>= λ given.
    (if touches clean then timed_change now existing clean else ok (apply clean))

abbrev pub found : List Schedule → Option Schedule
found [] = none
found (s ∷ rows) = some s

abbrev pub is_row : ℕ → ℕ → Schedule → Bool
is_row workspace_id schedule_id s = has_id schedule_id s && in_workspace workspace_id s

unfoldable pub update_found :
    (Text → Option Text)
    → Datetime
    → ℕ
    → ℕ
    → Payload
    → Option Schedule
    → Tables
    → Result BadRequest (Tables × Bool)
update_found readonly_violation now workspace_id schedule_id p none t = ok (t, false)
update_found readonly_violation now workspace_id schedule_id p (some existing) t =
    row_change readonly_violation now existing p >>= λ values. ok (
      record t { schedules = update_rows (is_row workspace_id schedule_id) values t.schedules },
      true,
    )

-- `update_schedule`: the tables, and whether there is such a schedule.
unfoldable pub update_schedule :
    (Text → Option Text) → Datetime → ℕ → ℕ → Payload → Tables → Result BadRequest (Tables × Bool)
update_schedule readonly_violation now workspace_id schedule_id p t =
    update_found readonly_violation now workspace_id schedule_id p
      (found (filter_by (is_row workspace_id schedule_id) t.schedules)) t

abbrev pub only_active : Bool → Payload
only_active is_active = record {
  name = none;
  sql = none;
  cron = none;
  recipients = none;
  starts_at = none;
  ends_at = none;
  is_active = some is_active;
  max_rows = none;
  send_condition = none;
  condition_value = none;
}

-- `set_active`
unfoldable pub set_active :
    (Text → Option Text) → Datetime → ℕ → ℕ → Bool → Tables → Result BadRequest (Tables × Bool)
set_active readonly_violation now workspace_id schedule_id is_active t =
    update_schedule readonly_violation now workspace_id schedule_id (only_active is_active) t
