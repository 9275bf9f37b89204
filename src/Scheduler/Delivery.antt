-- ===== src/Scheduler/Delivery.antt =====
-- `should_send` and `_execute_and_deliver` of backend/app/services/scheduler.py, and `select_columns` of
-- backend/app/services/email_templates.py. The database, the connections and the mail provider are
-- fields of `App`; a mail is what it is rendered from.
use bolodb.Prelude.{
  ℕ, zero, suc, Bool, true, false, not, List, [], ◌∷◌, Option, none, some, length, take, filter_by,
  ltb, ◌==◌, String, is_empty, if◌then◌else◌, Result, ok, err, get_or,
}
use bolodb.Prelude.Dict.{Dict, mem_text}
use bolodb.Text.{Text, strip}
use bolodb.Schedules.{
  Schedule, Status, success, skipped, Condition, always, non_empty, row_count_gte, row_count_lte,
  Detail, no_sql, not_connected, no_recipients, no_rows, not_sent, too_few, too_many, raised,
}

abbrev pub Row : Type 0
Row = Dict (Option String)

-- What `db.execute` returns.
pub data QueryResult : Type 0 where
  query_error : String → QueryResult
  rows_of : List String → List Row → Option ℕ → Bool → QueryResult

-- A report: whom it is for, whether the subject begins with "[Test]", and what the HTML and the CSV hold.
pub record Mail : Type 0 where
  pub to : List Text
  pub test : Bool
  pub columns : List String
  pub rows : List Row
  pub total_rows : ℕ
  pub truncated : Bool
  pub attachment : Option (List String × List Row)

-- What `run_schedule` reports of a run.
pub record Outcome : Type 0 where
  pub status : Status
  pub row_count : Option ℕ
  pub detail : Option Detail
  pub delivered_to : Option (List Text)

-- The services that a run calls. `ensure_connection` may raise; `send_email` returns whether it sent.
pub record App : Type 0 where
  pub ensure_connection : ℕ → Option ℕ → Result String (Option ℕ)
  pub execute : ℕ → Text → ℕ → QueryResult
  pub send_email : Mail → Bool

-- `threshold or 0`
abbrev limit_of : Option ℕ → ℕ
limit_of threshold = get_or threshold 0

-- Whether to send, and why not.
unfoldable pub should_send : Condition → Option ℕ → ℕ → Bool × Option Detail
should_send non_empty threshold row_count =
    if row_count == 0 then (false, some no_rows) else (true, none)
should_send row_count_gte threshold row_count =
    if ltb row_count (limit_of threshold)
    then (false, some (too_few row_count (limit_of threshold)))
    else (true, none)
should_send row_count_lte threshold row_count =
    if ltb (limit_of threshold) row_count
    then (false, some (too_many row_count (limit_of threshold)))
    else (true, none)
should_send always threshold row_count = (true, none)

abbrev or_all : List String → List String → List String
or_all [] columns = columns
or_all (c ∷ chosen) columns = c ∷ chosen

-- An empty list of display columns stands for none.
unfoldable pub select_columns : List String → List String → List String
select_columns columns [] = columns
select_columns columns (d ∷ display) =
    or_all (filter_by (λ c. mem_text c columns) (d ∷ display)) columns

-- `int(result.get("row_count") or len(all_rows))`
abbrev pub total_of : Option ℕ → List Row → ℕ
total_of none rows = length rows
total_of (some zero) rows = length rows
total_of (some (suc n)) rows = suc n

-- `int(schedule.get("max_rows") or 50)`
abbrev pub max_rows_of : ℕ → ℕ
max_rows_of zero = 50
max_rows_of (suc n) = suc n

-- `[r for r in recipients if r]`
abbrev pub addressed : Schedule → List Text
addressed s = filter_by (λ r. not (is_empty r)) s.recipients

unfoldable pub report : Schedule → Bool → List String → List Row → Option ℕ → Bool → Mail
report s manual all_columns all_rows row_count truncated =
    let columns = select_columns all_columns s.display_columns in
    record {
      to = addressed s;
      test = manual;
      columns = columns;
      rows = take (max_rows_of s.max_rows) all_rows;
      total_rows = total_of row_count all_rows;
      truncated = truncated;
      attachment = (if s.attach_csv then some (columns, all_rows) else none);
    }

abbrev pub skip : ℕ → Option Detail → Outcome
skip total detail = record {
  status = skipped;
  row_count = some total;
  detail = detail;
  delivered_to = none;
}

abbrev pub delivered : Mail → Outcome
delivered mail = record {
  status = success;
  row_count = some mail.total_rows;
  detail = none;
  delivered_to = some mail.to;
}

-- The mail goes out, or the run raises.
unfoldable pub send : App → Mail → Result Detail Outcome × List Mail
send app mail = if app.send_email mail then (ok (delivered mail), mail ∷ []) else (err not_sent, [])

-- A manual run delivers whatever the condition says.
unfoldable pub decision : Schedule → Bool → ℕ → Bool × Option Detail
decision s true total = (true, none)
decision s false total = should_send s.send_condition s.condition_value total

unfoldable pub deliver : App → Schedule → Bool → Mail → Result Detail Outcome × List Mail
deliver app s manual mail =
    let choice = decision s manual mail.total_rows in
    if is_empty mail.to
    then (ok (skip mail.total_rows (some no_recipients)), [])
    else if choice.0
    then send app mail
    else (ok (skip mail.total_rows choice.1), [])

unfoldable pub with_result : App → Schedule → Bool → QueryResult → Result Detail Outcome × List Mail
with_result app s manual (query_error e) = (err (raised e), [])
with_result app s manual (rows_of columns rows row_count truncated) =
    deliver app s manual (report s manual columns rows row_count truncated)

unfoldable pub with_connection :
    App → Schedule → Bool → Text → Result String (Option ℕ) → Result Detail Outcome × List Mail
with_connection app s manual sql (err e) = (err (raised e), [])
with_connection app s manual sql (ok none) = (err not_connected, [])
with_connection app s manual sql (ok (some db_id)) =
    with_result app s manual (app.execute s.workspace_id sql db_id)

-- `_execute_and_deliver`: what it returns or raises, and the mails that were accepted.
unfoldable pub execute_and_deliver : App → Schedule → Bool → Result Detail Outcome × List Mail
execute_and_deliver app s manual =
    let sql = strip s.sql in
    if is_empty sql
    then (err no_sql, [])
    else with_connection app s manual sql (app.ensure_connection s.workspace_id s.database_id)
