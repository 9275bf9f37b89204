-- ===== src/Schedules.antt =====
-- The tables of scheduled queries and of their runs, and the statements that read and write them
-- (backend/app/models/scheduled_query.py, backend/app/pgdatabase/schedules.py). A table is the list of
-- its rows; each statement is one transaction. UUIDs are numbers, and rows are made with fresh ones.
pub mod Processes
pub mod Claims
pub mod History
pub mod Trim
pub mod Capacity
pub mod Tests
use bolodb.Prelude.{
  ℕ, zero, suc, ◌+◌, ◌*◌, Bool, true, false, not, ◌&&◌, ◌||◌, List, [], ◌∷◌, ◌++◌, Option, none,
  some, is_none, length, take, filter_by, map, contains, ltb, leb, ◌==◌, String, if◌then◌else◌,
  Result, ok, err, is_empty, get_or,
}
use bolodb.Prelude.Rows.{update_rows, any_row}
use bolodb.Text.{Text}
use bolodb.Datetime.{Datetime, before, at_most}

pub data Status : Type 0 where
  success failed skipped : Status

pub data Condition : Type 0 where
  always non_empty row_count_gte row_count_lte : Condition

-- What the `detail` of a run says: each constructor stands for one message of the scheduler.
pub data Detail : Type 0 where
  no_sql not_connected no_recipients no_rows not_sent restarted : Detail
  too_few too_many : ℕ → ℕ → Detail
  missed : Datetime → Detail
  timed_out : Detail
  raised : String → Detail

-- A row of `scheduled_queries`, without the texts that only decorate the mail.
pub record Schedule : Type 0 where
  pub id : ℕ
  pub workspace_id : ℕ
  pub name : Text
  pub sql : Text
  pub database_id : Option ℕ
  pub cron : Text
  pub starts_at : Option Datetime
  pub ends_at : Option Datetime
  pub is_active : Bool
  pub recipients : List Text
  pub display_columns : List String
  pub max_rows : ℕ
  pub attach_csv : Bool
  pub send_condition : Condition
  pub condition_value : Option ℕ
  pub next_run_at : Option Datetime
  pub last_run_at : Option Datetime
  pub last_status : Option Status
  pub consecutive_failures : ℕ

-- A row of `schedule_runs`.
pub record ScheduleRun : Type 0 where
  pub id : ℕ
  pub schedule_id : ℕ
  pub workspace_id : ℕ
  pub status : Status
  pub started_at : Datetime
  pub row_count : Option ℕ
  pub detail : Option Detail
  pub delivered_to : Option (List Text)
  pub manual : Bool

pub record Tables : Type 0 where
  pub schedules : List Schedule
  pub runs : List ScheduleRun
  pub next_id : ℕ

abbrev pub max_schedules_per_workspace : ℕ
max_schedules_per_workspace = 100

abbrev pub run_history_limit : ℕ
run_history_limit = 100

-- `a == b` on moments, and `IS NOT DISTINCT FROM` on optional ones.
abbrev pub same_moment : Datetime → Datetime → Bool
same_moment a b = a.minutes == b.minutes && a.micros == b.micros

abbrev pub same_slot : Option Datetime → Option Datetime → Bool
same_slot none none = true
same_slot none (some b) = false
same_slot (some a) none = false
same_slot (some a) (some b) = same_moment a b

abbrev pub in_workspace : ℕ → Schedule → Bool
in_workspace workspace_id s = s.workspace_id == workspace_id

abbrev pub has_id : ℕ → Schedule → Bool
has_id schedule_id s = s.id == schedule_id

unfoldable pub count_schedules : ℕ → Tables → ℕ
count_schedules workspace_id t = length (filter_by (in_workspace workspace_id) t.schedules)

pub data ScheduleLimitError : Type 0 where
  limit_reached : ScheduleLimitError

-- `create_schedule`: the advisory lock makes the count and the insert one step.
unfoldable pub create_schedule : ℕ → Schedule → Tables → Result ScheduleLimitError Tables
unfolding count_schedules
create_schedule workspace_id values t =
    if leb max_schedules_per_workspace (count_schedules workspace_id t)
    then err limit_reached
    else ok (record t {
      schedules = t.schedules ++ record values { id = t.next_id; workspace_id = workspace_id } ∷ [];
      next_id = suc t.next_id;
    })

unfoldable pub delete_schedule : ℕ → ℕ → Tables → Tables × Bool
delete_schedule workspace_id schedule_id t =
    let matching : Schedule → Bool = λ s. has_id schedule_id s && in_workspace workspace_id s in
    (
      record t {
        schedules = filter_by (λ s. not (matching s)) t.schedules;
        runs =
            (if any_row matching t.schedules
              then filter_by (λ (r : ScheduleRun). not (r.schedule_id == schedule_id)) t.runs
              else t.runs);
      },
      any_row matching t.schedules,
    )

-- Due: active, with a slot that has passed.
abbrev pub is_due : Datetime → Schedule → Bool
is_due moment s =
    s.is_active && elim s.next_run_at [ none ↦ false | some slot ↦ at_most slot moment ]

abbrev slot_before : Option Datetime → Option Datetime → Bool
slot_before (some a) (some b) = before a b
slot_before _ _ = false

insert_by_slot : Schedule → List Schedule → List Schedule
insert_by_slot s [] = s ∷ []
insert_by_slot s (r ∷ rows) =
    let later = r ∷ insert_by_slot s rows in
    if slot_before r.next_run_at s.next_run_at then later else s ∷ r ∷ rows

sort_by_slot : List Schedule → List Schedule
unfolding insert_by_slot
sort_by_slot [] = []
sort_by_slot (s ∷ rows) = insert_by_slot s (sort_by_slot rows)

-- `list_due_schedules`: the oldest slots first.
unfoldable pub list_due_schedules : Datetime → ℕ → Tables → List Schedule
unfolding sort_by_slot
list_due_schedules moment limit t =
    take limit (sort_by_slot (filter_by (is_due moment) t.schedules))

-- `claim_schedule`: a compare-and-swap on the slot of an active schedule.
abbrev pub claimable : ℕ → Option Datetime → Schedule → Bool
claimable schedule_id expected s =
    has_id schedule_id s && s.is_active && same_slot s.next_run_at expected

abbrev pub claimed : Option Datetime → Datetime → Schedule → Schedule
claimed upcoming moment s = record s { next_run_at = upcoming; last_run_at = some moment }

unfoldable pub claim_schedule :
    ℕ → Option Datetime → Option Datetime → Datetime → Tables → Tables × Bool
claim_schedule schedule_id expected upcoming moment t = (
  record t {
    schedules = update_rows (claimable schedule_id expected) (claimed upcoming moment) t.schedules;
  },
  any_row (claimable schedule_id expected) t.schedules,
)

-- What `finish_schedule_run` writes: a schedule that is switched off has no slot.
abbrev pub finished : Status → ℕ → Option Bool → Schedule → Schedule
finished status failures none s = record s {
  last_status = some status;
  consecutive_failures = failures;
}
finished status failures (some true) s = record s {
  last_status = some status;
  consecutive_failures = failures;
  is_active = true;
}
finished status failures (some false) s = record s {
  last_status = some status;
  consecutive_failures = failures;
  is_active = false;
  next_run_at = none;
}

unfoldable pub finish_schedule_run : ℕ → Status → ℕ → Option Bool → Tables → Tables × Bool
finish_schedule_run schedule_id status failures is_active t = (
  record t {
    schedules = update_rows (has_id schedule_id) (finished status failures is_active) t.schedules;
  },
  any_row (has_id schedule_id) t.schedules,
)

abbrev pub run_of : ℕ → ScheduleRun → Bool
run_of schedule_id r = r.schedule_id == schedule_id

insert_latest : ScheduleRun → List ScheduleRun → List ScheduleRun
insert_latest r [] = r ∷ []
insert_latest r (q ∷ rows) =
    let later = q ∷ insert_latest r rows in
    if before r.started_at q.started_at then later else r ∷ q ∷ rows

-- `order_by(started_at.desc())`
unfoldable pub latest_first : List ScheduleRun → List ScheduleRun
unfolding insert_latest
latest_first [] = []
latest_first (r ∷ rows) = insert_latest r (latest_first rows)

-- The identifiers that the trim keeps.
unfoldable pub kept_ids : ℕ → List ScheduleRun → List ℕ
kept_ids schedule_id runs =
    map (λ (r : ScheduleRun). r.id)
      (take run_history_limit (latest_first (filter_by (run_of schedule_id) runs)))

-- `record_run`: append, and trim the history of the schedule in the same transaction.
unfoldable pub record_run : ScheduleRun → Tables → Tables
record_run values t =
    let runs = record values { id = t.next_id } ∷ t.runs in
    let keep = kept_ids values.schedule_id runs in
    record t {
      runs =
          filter_by
            (λ (r : ScheduleRun). not (run_of values.schedule_id r && not (contains r.id keep)))
            runs;
      next_id = suc t.next_id;
    }

-- `list_runs`
unfoldable pub list_runs : ℕ → ℕ → ℕ → Tables → List ScheduleRun
list_runs workspace_id schedule_id limit t = take limit (
    latest_first (
      filter_by (λ (r : ScheduleRun). run_of schedule_id r && r.workspace_id == workspace_id)
        t.runs))
