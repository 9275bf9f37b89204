-- ===== src/Datetime/Calendar.antt =====
-- Months and days of the month stay within the calendar.
use bolodb.Prelude.{ℕ, ◌≤◌, ◌<◌, true, false, Bool, arith, if◌then◌else◌}
use bolodb.Datetime.{year_day, month_lengths, find_month, month_day, month_of, day_of}

-- A day of the year, counted from 0, in a year that may be a leap year.
year_day_bound : (day : ℕ) → (year_day day).day < (if (year_day day).leap then 366 else 365)
unfolding year_day
year_day_bound day = ground arith

abbrev IsDate : ℕ × ℕ → Type 0
IsDate (month, day) = (1 ≤ month) × (month ≤ 12) × (1 ≤ day) × (day ≤ 31)

find_month-IsDate :
    (leap : Bool) (n : ℕ)
    → n < (if leap then 366 else 365)
    → IsDate (find_month 1 (month_lengths leap) n)
unfolding find_month month_lengths
find_month-IsDate true n h = ground arith
find_month-IsDate false n h = ground arith

pub month_day-IsDate :
    (day : ℕ) → (1 ≤ month_of day) × (month_of day ≤ 12) × (1 ≤ day_of day) × (day_of day ≤ 31)
unfolding month_of day_of month_day
month_day-IsDate day = find_month-IsDate (year_day day).leap (year_day day).day (year_day_bound day)
