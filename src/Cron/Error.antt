-- ===== src/Cron/Error.antt =====
-- `CronError` of backend/app/services/cron.py, with a constructor for each place that raises it and
-- the values that its message quotes.
use bolodb.Prelude.{ℕ}
use bolodb.Prelude.Int.{ℤ}

-- The names of the fields in the messages.
pub data Label : Type 0 where
  minute hour day_of_month month day_of_week : Label

pub data CronError : Type 0 where
  expression_required : CronError
  field_count : ℕ → CronError
  empty_field empty_entry empty_value step_not_whole unrecognised : Label → CronError
  step_too_small : Label → ℤ → CronError
  runs_backwards matches_nothing : Label → CronError
  outside : Label → ℤ → ℕ → ℕ → CronError
  never_occurs : CronError
