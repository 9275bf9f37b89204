-- ===== src/Datetime.antt =====
-- Python's `datetime`, as far as the schedules use it. A UTC `datetime` is the number of whole minutes
-- since midnight of the proleptic ordinal 0 (so `ordinal` is Python's `toordinal()`), and the
-- microseconds within the minute. The end of the calendar, the year 9999, is not modelled.
pub mod Order
pub mod Calendar
use bolodb.Prelude.{
  ℕ, zero, suc, ◌+◌, ◌-◌, ◌*◌, ◌/◌, ◌%◌, Bool, true, false, not, ◌&&◌, ◌||◌, List, [], ◌∷◌, Option,
  none, some, ltb, leb, ◌==◌, if◌then◌else◌,
}

pub record Datetime : Type 0 where
  pub minutes : ℕ
  pub micros : ℕ

abbrev pub minutes_per_day : ℕ
minutes_per_day = 1440

-- `moment.date().toordinal()`
abbrev pub ordinal : ℕ → ℕ
ordinal minutes = minutes / 1440

abbrev pub hour_of : ℕ → ℕ
hour_of minutes = minutes / 60 % 24

abbrev pub minute_of : ℕ → ℕ
minute_of minutes = minutes % 60

-- `datetime(day.year, day.month, day.day, hour, minute)`
abbrev pub at_time : ℕ → ℕ → ℕ → ℕ
at_time day hour minute = day * 1440 + hour * 60 + minute

-- `weekday()`: Monday is 0. Ordinal 1 is a Monday.
unfoldable pub weekday : ℕ → ℕ
weekday day = (day + 6) % 7

-- The year, whether it is a leap year, and the day of the year from 0, of an ordinal.
pub record YearDay : Type 0 where
  pub year : ℕ
  pub leap : Bool
  pub day : ℕ

last_day : ℕ → YearDay
last_day year = record { year = year; leap = true; day = 365 }

-- The cycles of 400, 100, 4 and 1 years, and the days left; the last day of a cycle of 400 or of 4
-- years would open a fifth part.
in_cycle : ℕ → ℕ → ℕ → ℕ → ℕ → YearDay
unfolding last_day
in_cycle n400 n100 n4 n1 n =
    let year = n400 * 400 + n100 * 100 + n4 * 4 + n1 in
    if n1 == 4 || n100 == 4
    then last_day year
    else record { year = year + 1; leap = n1 == 3 && (not (n4 == 24) || n100 == 3); day = n }

pub year_day : ℕ → YearDay
unfolding in_cycle
year_day day =
    let n = day - 1 in
    let r400 = n % 146097 in
    let r100 = r400 % 36524 in
    let r4 = r100 % 1461 in in_cycle (n / 146097) (r400 / 36524) (r100 / 1461) (r4 / 365) (r4 % 365)

-- The lengths of the months from January.
month_lengths : Bool → List ℕ
month_lengths leap =
    31 ∷ (if leap then 29 else 28) ∷ 31 ∷ 30 ∷ 31 ∷ 30 ∷ 31 ∷ 31 ∷ 30 ∷ 31 ∷ 30 ∷ 31 ∷ []

-- The month and the day of the month, of a day of the year.
find_month : ℕ → List ℕ → ℕ → ℕ × ℕ
find_month month [] n = (month, n + 1)
find_month month (length ∷ lengths) n =
    let later = find_month (month + 1) lengths (n - length) in
    if ltb n length then (month, n + 1) else later

month_day : ℕ → ℕ × ℕ
unfolding find_month month_lengths
month_day day = let y = year_day day in find_month 1 (month_lengths y.leap) y.day

unfoldable pub year_of : ℕ → ℕ
unfolding year_day
year_of day = (year_day day).year

unfoldable pub month_of : ℕ → ℕ
unfolding month_day year_day
month_of day = (month_day day).0

unfoldable pub day_of : ℕ → ℕ
unfolding month_day year_day
day_of day = (month_day day).1

-- `a < b` and `a <= b` on UTC moments.
unfoldable pub before : Datetime → Datetime → Bool
before a b = ltb a.minutes b.minutes || (a.minutes == b.minutes && ltb a.micros b.micros)

unfoldable pub at_most : Datetime → Datetime → Bool
unfolding before
at_most a b = not (before b a)

-- `tzinfo` as an offset from UTC in minutes.
pub data Offset : Type 0 where
  east west : ℕ → Offset

-- A `datetime` that may be naive.
pub record Stamp : Type 0 where
  pub local : Datetime
  pub tzinfo : Option Offset

shift : Datetime → Offset → Datetime
shift d (east n) = record d { minutes = d.minutes - n }
shift d (west n) = record d { minutes = d.minutes + n }

to_utc : Datetime → Option Offset → Datetime
unfolding shift
to_utc d none = d
to_utc d (some o) = shift d o

-- `_as_utc`: a naive moment is read as UTC.
unfoldable pub as_utc : Stamp → Datetime
unfolding to_utc
as_utc s = to_utc s.local s.tzinfo

-- `moment - timedelta(minutes=1)`
abbrev pub minute_earlier : Datetime → Datetime
minute_earlier d = record d { minutes = d.minutes - 1 }
