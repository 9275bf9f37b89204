-- ===== src/Cron/Window.antt =====
-- `next_run`, `next_runs` and `validate` of backend/app/services/cron.py: firing times inside the
-- active window of a schedule. `now` is the clock's answer, where the source calls it.
pub mod First
pub mod Runs
pub mod Repeats
pub mod Occurs
use bolodb.Prelude.{
  ℕ, zero, suc, Bool, true, false, not, List, [], ◌∷◌, Option, none, some, is_none, if◌then◌else◌,
  Result, ok, err, ◌>>=◌,
}
use bolodb.Text.{Text}
use bolodb.Datetime.{Datetime, Stamp, as_utc, before, at_most, minute_earlier}
use bolodb.Cron.Error.{CronError, never_occurs}
use bolodb.Cron.Schedule.{CronSchedule, parse, next_after}

-- `_as_utc(after) if after else datetime.now(timezone.utc)`
unfoldable pub cursor_of : Datetime → Option Stamp → Datetime
cursor_of now none = now
cursor_of now (some after) = as_utc after

-- A start that lies ahead moves the cursor to a minute before it.
unfoldable pub pushed : Datetime → Option Stamp → Datetime
pushed cursor none = cursor
pushed cursor (some starts_at) =
    let begin = as_utc starts_at in if before cursor begin then minute_earlier begin else cursor

-- The window is closed once `ends_at` has passed.
unfoldable pub closed : Option Stamp → Datetime → Bool
closed none upcoming = false
closed (some ends_at) upcoming = before (as_utc ends_at) upcoming

unfoldable pub inside : Option Stamp → Option Datetime → Option Datetime
unfolding closed
inside ends_at none = none
inside ends_at (some upcoming) = if closed ends_at upcoming then none else some upcoming

-- `next_run`, from the cursor on, for an expression that has been parsed.
unfoldable pub next_in_window :
    CronSchedule → Datetime → Option Stamp → Option Stamp → Option Datetime
next_in_window s cursor starts_at ends_at = inside ends_at (next_after s (pushed cursor starts_at))

-- `next_run`
unfoldable pub next_run :
    Text
    → Datetime
    → Option Stamp
    → Option Stamp
    → Option Stamp
    → Result CronError (Option Datetime)
next_run expression now after starts_at ends_at =
    parse expression >>= λ s. ok (next_in_window s (cursor_of now after) starts_at ends_at)

abbrev utc : Datetime → Stamp
utc d = record { local = d; tzinfo = none }

-- The loop of `next_runs`, on the rounds left.
unfoldable pub runs_from :
    ℕ → Text → Datetime → Datetime → Option Stamp → Option Stamp → Result CronError (List Datetime)
runs_from zero expression now cursor starts_at ends_at = ok []
runs_from (suc count) expression now cursor starts_at ends_at =
    next_run expression now (some (utc cursor)) starts_at ends_at >>= elim [
      | none ↦ ok []
      | some upcoming ↦
          runs_from count expression now upcoming starts_at ends_at >>= λ rest. ok (upcoming ∷ rest)
    ]

-- `next_runs`
unfoldable pub next_runs :
    Text
    → ℕ
    → Datetime
    → Option Stamp
    → Option Stamp
    → Option Stamp
    → Result CronError (List Datetime)
next_runs expression count now after starts_at ends_at =
    runs_from count expression now (cursor_of now after) starts_at ends_at

-- The loop of the method `next_runs` of a schedule, which has no window.
unfoldable pub schedule_runs : ℕ → CronSchedule → Datetime → List Datetime
schedule_runs zero s cursor = []
schedule_runs (suc count) s cursor = elim (next_after s cursor) [
  | none ↦ []
  | some upcoming ↦ upcoming ∷ schedule_runs count s upcoming
]

-- `validate`: the normalised expression of a schedule that occurs.
unfoldable pub validate : Text → Datetime → Result CronError Text
validate expression now = parse expression >>= λ s.
    if is_none (next_after s now) then err never_occurs else ok s.expression
