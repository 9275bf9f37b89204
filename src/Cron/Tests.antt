-- ===== src/Cron/Tests.antt =====
-- Runs of the parser and of the search, and the theorems at concrete expressions.
use bolodb.Prelude.{
  ℕ, ◌+◌, ◌*◌, ◌<◌, ◌≤◌, ◌≡◌, refl, true, false, ◌&&◌, List, [], ◌∷◌, Option, none, some, arith,
  contains, sorted, insert_sorted, remove, Result, ok, err, ◌⊎◌, ◌↔◌,
}
use bolodb.Text.{
  Text, codes, strip, split, split_on, has_char, partition, join_space, upper, eq_text,
}
use bolodb.Text.Number.{to_int}
use bolodb.Datetime.{
  Datetime, Stamp, ordinal, weekday, year_of, month_of, day_of, hour_of, minute_of, before, as_utc,
}
use bolodb.Cron.Error.{
  CronError, Label, never_occurs, field_count, runs_backwards, outside, unrecognised,
}
use bolodb.Prelude.Int.{pos}
use bolodb.Cron.Range.{range}
use bolodb.Cron.Field.{
  month_names, day_names, named, in_bounds, whole_value, value_of, parse_value, whole_step,
  parse_step, parse_span, parse_part, parse_parts, some_value, parse_field,
}
use bolodb.Cron.Field.Written.{IsEntry, parse_part-IsGrid}
use bolodb.Cron.Schedule.{
  CronSchedule, max_search_days, normalise_weekdays, attributes, of_fields, of_words, parse,
  day_matches, matches, first_minute, first_time, time_on, search, next_after,
}
use bolodb.Cron.Schedule.Parsed.{IsValid, parse-IsValid}
use bolodb.Cron.Schedule.Matching.{vixie_day, matches-eq-vixie_day}
use bolodb.Cron.Window.{cursor_of, pushed, inside, next_in_window, next_run, next_runs, validate}
use bolodb.Cron.Window.First.{Since, Until, next_run_first, next_run-none}
use bolodb.Cron.Window.Runs.{Listing, next_runs-Listing}
use bolodb.Cron.Window.Repeats.{replicate, minute_start, next_runs_repeat}
use bolodb.Cron.Window.Occurs.{validate_occurs}

-- The whole of the parser, for tests by evaluation.
unfoldable pub parsed : Text → Result CronError CronSchedule
unfolding parse of_words of_fields attributes normalise_weekdays parse_field parse_parts parse_part
    parse_step parse_span parse_value value_of whole_value in_bounds whole_step some_value named
    month_names day_names strip split split_on has_char partition join_space upper eq_text to_int
    range contains remove
parsed = parse

-- The search too.
unfoldable pub upcoming :
    Text
    → Datetime
    → Option Stamp
    → Option Stamp
    → Option Stamp
    → Result CronError (Option Datetime)
unfolding parsed next_run next_in_window pushed inside cursor_of as_utc before next_after search
    time_on first_time first_minute day_matches sorted insert_sorted month_of day_of weekday
upcoming = next_run

-- 2024-02-29 was a Thursday; here at 03:10 and 30 seconds.
abbrev leap_day : ℕ
leap_day = 738945

abbrev pub early : Datetime
early = record { minutes = 738945 * 1440 + 190; micros = 30_000_000 }

abbrev utc_stamp : Datetime → Stamp
utc_stamp d = record { local = d; tzinfo = none }

abbrev workdays : Text
workdays = codes "30 9 * * MON-FRI"

abbrev workday_schedule : CronSchedule
workday_schedule = record {
  expression = workdays;
  minutes = 30 ∷ [];
  hours = 9 ∷ [];
  days = range 1 32 1;
  months = range 1 13 1;
  weekdays = 1 ∷ 2 ∷ 3 ∷ 4 ∷ 5 ∷ [];
  dom_restricted = false;
  dow_restricted = true;
}

parse-workdays : parse workdays ≡ ok workday_schedule
unfolding parsed
parse-workdays = refl

parse_errors :
    (parse (codes "61 * * * *") ≡ err (outside Label.minute (pos 61) 0 59))
    × (parse (codes "0 9-5 * * *") ≡ err (runs_backwards Label.hour))
    × (parse (codes "0 0 1 FOO *") ≡ err (unrecognised Label.month))
    × (parse (codes "* * * *") ≡ err (field_count 4))
unfolding parsed
parse_errors = (refl, refl, refl, refl)

calendar :
    (year_of 738945 ≡ 2024) × (month_of 738945 ≡ 2) × (day_of 738945 ≡ 29) × (weekday 738945 ≡ 3)
unfolding year_of month_of day_of weekday
calendar = (refl, refl, refl, refl)

abbrev half_past_nine : Datetime
half_past_nine = record { minutes = 738945 * 1440 + 570; micros = 0 }

next_run-workdays : next_run workdays early none none none ≡ ok (some half_past_nine)
unfolding upcoming
next_run-workdays = refl

next_run_first_example :
    (s : CronSchedule) × (parse workdays ≡ ok s)
    × (half_past_nine.micros ≡ 0)
    × ((cursor_of early none).minutes < half_past_nine.minutes)
    × Since none half_past_nine.minutes
    × Until none half_past_nine
    × (matches s half_past_nine.minutes ≡ true)
    × ((t : ℕ)
        → (cursor_of early none).minutes < t
        → Since none t
        → t < half_past_nine.minutes
        → matches s t ≡ false)
next_run_first_example =
    next_run_first workdays early none none none half_past_nine tt next_run-workdays

-- 30 February never comes.
abbrev never : Text
never = codes "0 0 30 2 *"

next_run-never : next_run never early none none none ≡ ok none
unfolding upcoming
next_run-never = refl

next_run-none_example :
    (s : CronSchedule) × (parse never ≡ ok s) × (matches s (738945 * 1440 + 1440) ≡ false)
unfolding cursor_of pushed
next_run-none_example =
    next_run-none never early none none none (738945 * 1440 + 1440) tt next_run-never (omega arith)
      tt tt (omega arith)

next_runs-Listing_example :
    (rs : List Datetime) × (next_runs workdays 3 early none none none ≡ ok rs)
    × Listing workday_schedule none none 3 (cursor_of early none) rs
next_runs-Listing_example =
    next_runs-Listing workdays 3 early none none none workday_schedule parse-workdays tt

matches-eq-vixie_day_example : matches workday_schedule 1064080800 ≡ (
    contains (month_of (ordinal 1064080800)) workday_schedule.months
    && vixie_day workday_schedule (ordinal 1064080800)
    && contains (hour_of 1064080800) workday_schedule.hours
    && contains (minute_of 1064080800) workday_schedule.minutes)
matches-eq-vixie_day_example =
    matches-eq-vixie_day workdays workday_schedule 1064080800 parse-workdays

parse-IsValid_example : IsValid workday_schedule
parse-IsValid_example = parse-IsValid workdays workday_schedule parse-workdays

-- Every 20 minutes from 5.
stepped : parse_part (codes " 5/20 ") 0 59 Label.minute [] ≡ ok (5 ∷ 25 ∷ 45 ∷ [])
unfolding parsed
stepped = refl

parse_part-IsGrid_example :
    (parse_part (codes " 5/20 ") 0 59 Label.minute [] ≡ ok (5 ∷ 25 ∷ 45 ∷ []))
    ↔ IsEntry 0 59 [] (strip (codes " 5/20 ")) (5 ∷ 25 ∷ 45 ∷ [])
parse_part-IsGrid_example =
    parse_part-IsGrid 0 59 Label.minute [] (omega arith) tt (codes " 5/20 ") (5 ∷ 25 ∷ 45 ∷ [])

abbrev six_minutes : List ℕ
six_minutes = 1 ∷ 2 ∷ 3 ∷ 5 ∷ 25 ∷ 45 ∷ []

two_entries : parse_field (codes "1-3,5/20") 0 59 Label.minute [] ≡ ok six_minutes
unfolding parsed
two_entries = refl

-- A start 15 seconds after the moment that is asked about, in a minute at which the schedule fires.
abbrev late_start : Stamp
late_start = utc_stamp (record { minutes = 738945 * 1440 + 570; micros = 45_000_000 })

abbrev asked : Datetime
asked = record { minutes = 738945 * 1440 + 570; micros = 30_000_000 }

fires_then : matches workday_schedule (as_utc late_start).minutes ≡ true
unfolding matches upcoming
fires_then = refl

next_runs_repeat_example :
    (next_runs workdays 3 asked none (some late_start) none
      ≡ ok (replicate 3 (minute_start (as_utc late_start))))
    × (before (minute_start (as_utc late_start)) (as_utc late_start) ≡ true)
next_runs_repeat_example =
    next_runs_repeat workdays 3 asked none late_start workday_schedule parse-workdays
      (unfold as_utc in omega arith) (unfold as_utc in omega arith)
      (unfold as_utc before cursor_of in refl) fires_then

validate_occurs_example :
    ((validate workdays early ≡ ok workday_schedule.expression)
      × ((t : ℕ) × (early.minutes < t) × (matches workday_schedule t ≡ true)))
    ⊎ ((validate workdays early ≡ err never_occurs)
        × ((t : ℕ)
            → early.minutes < t
            → ordinal t ≤ ordinal (early.minutes + 1) + max_search_days
            → matches workday_schedule t ≡ false))
validate_occurs_example = validate_occurs workdays early workday_schedule parse-workdays
