-- ===== src/Cron/Schedule.antt =====
-- `CronSchedule` of backend/app/services/cron.py: parsing, `matches` and `next_after`.
pub mod Parsed
pub mod Matching
pub mod Clock
pub mod Search
pub mod Next
use bolodb.Prelude.{
  ℕ, zero, suc, ◌+◌, ◌*◌, ◌%◌, Bool, true, false, not, ◌&&◌, ◌||◌, List, [], ◌∷◌, Option, none,
  some, leb, ltb, ◌==◌, if◌then◌else◌, is_empty, length, contains, remove, sorted, Result, ok, err,
  ◌>>=◌,
}
use bolodb.Text.{Text, strip, split, join_space, eq_text}
use bolodb.Datetime.{
  Datetime, ordinal, hour_of, minute_of, at_time, weekday as weekday_of, month_of, day_of,
}
use bolodb.Cron.Error.{CronError, Label, expression_required, field_count}
use bolodb.Cron.Field.{month_names, day_names, parse_field, star}

abbrev pub max_search_days : ℕ
max_search_days = 366 * 8

pub record CronSchedule : Type 0 where
  pub expression : Text
  pub minutes : List ℕ
  pub hours : List ℕ
  pub days : List ℕ
  pub months : List ℕ
  pub weekdays : List ℕ
  pub dom_restricted : Bool
  pub dow_restricted : Bool

-- 7 is a second spelling of Sunday.
unfoldable pub normalise_weekdays : List ℕ → List ℕ
normalise_weekdays weekdays =
    if contains 7 weekdays then 0 ∷ remove 0 (remove 7 weekdays) else weekdays

-- The attributes, in the order in which `__init__` computes them: the first field that does not
-- parse decides the error.
unfoldable pub attributes :
    Text
    → Text
    → Text
    → Result CronError (List ℕ)
    → Result CronError (List ℕ)
    → Result CronError (List ℕ)
    → Result CronError (List ℕ)
    → Result CronError (List ℕ)
    → Result CronError CronSchedule
attributes expression dom dow minute hour day month weekday = do
  minutes ← minute
  hours ← hour
  days ← day
  months ← month
  weekdays ← weekday
  ok (record {
    expression = expression;
    minutes = minutes;
    hours = hours;
    days = days;
    months = months;
    weekdays = normalise_weekdays weekdays;
    dom_restricted = not (eq_text (strip dom) star);
    dow_restricted = not (eq_text (strip dow) star);
  })

-- `CronSchedule.__init__`, from the five fields.
unfoldable pub of_fields : Text → Text → Text → Text → Text → Result CronError CronSchedule
of_fields minute hour dom month dow =
    attributes (join_space (minute ∷ hour ∷ dom ∷ month ∷ dow ∷ [])) dom dow
      (parse_field minute 0 59 Label.minute []) (parse_field hour 0 23 Label.hour [])
      (parse_field dom 1 31 Label.day_of_month []) (parse_field month 1 12 Label.month month_names)
      (parse_field dow 0 7 Label.day_of_week day_names)

unfoldable pub of_words : List Text → Result CronError CronSchedule
of_words (a ∷ b ∷ c ∷ d ∷ e ∷ []) = of_fields a b c d e
of_words words = err (field_count (length words))

-- `parse`
unfoldable pub parse : Text → Result CronError CronSchedule
parse expression =
    if is_empty (strip expression)
    then err expression_required
    else of_words (split (strip expression))

-- `_day_matches`, on the ordinal of the day. Python's Monday is 0, cron's Sunday is 0.
unfoldable pub day_matches : CronSchedule → ℕ → Bool
day_matches s day =
    let dow = (weekday_of day + 1) % 7 in
    let dom_hit = contains (day_of day) s.days in
    let dow_hit = contains dow s.weekdays in
    if s.dom_restricted && s.dow_restricted
    then dom_hit || dow_hit
    else if s.dom_restricted
    then dom_hit
    else if s.dow_restricted
    then dow_hit
    else true

-- `matches`, on the minute of the moment.
unfoldable pub matches : CronSchedule → ℕ → Bool
matches s moment =
    if not (contains (month_of (ordinal moment)) s.months)
    then false
    else if not (day_matches s (ordinal moment))
    then false
    else contains (hour_of moment) s.hours && contains (minute_of moment) s.minutes

-- The inner loop of `next_after`: the first minute that is not passed over.
unfoldable pub first_minute : Bool → ℕ → List ℕ → Option ℕ
first_minute same_hour now_minute [] = none
first_minute same_hour now_minute (m ∷ ms) =
    let later = first_minute same_hour now_minute ms in
    if same_hour && ltb m now_minute then later else some m

abbrev and_hour : ℕ → Option ℕ → Option (ℕ × ℕ) → Option (ℕ × ℕ)
and_hour h none later = later
and_hour h (some m) later = some (h, m)

-- The loop over the hours: the first hour and minute of the day, from `now` on if it is the first day.
unfoldable pub first_time : Bool → ℕ → ℕ → List ℕ → List ℕ → Option (ℕ × ℕ)
first_time first_day now_hour now_minute minutes [] = none
first_time first_day now_hour now_minute minutes (h ∷ hs) =
    let later = first_time first_day now_hour now_minute minutes hs in
    if first_day && ltb h now_hour
    then later
    else and_hour h (first_minute (first_day && h == now_hour) now_minute minutes) later

-- One round of the loop over the days.
unfoldable pub time_on : CronSchedule → ℕ → ℕ → Option (ℕ × ℕ)
time_on s moment day =
    if contains (month_of day) s.months && day_matches s day
    then first_time (day == ordinal moment) (hour_of moment) (minute_of moment) (sorted s.minutes)
        (sorted s.hours)
    else none

-- `while day <= limit`, with a round of fuel for each day.
unfoldable pub search : ℕ → CronSchedule → ℕ → ℕ → ℕ → Option ℕ
search zero s moment day limit = none
search (suc fuel) s moment day limit = elim (leb day limit) [
  | true ↦ elim (time_on s moment day) [
    | some (h, m) ↦ some (at_time day h m)
    | none ↦ search fuel s moment (day + 1) limit
  ]
  | false ↦ none
]

-- `next_after`: from the minute after `after`, at most `max_search_days` days on.
unfoldable pub next_after : CronSchedule → Datetime → Option Datetime
next_after s after =
    let moment = after.minutes + 1 in
    elim (search (max_search_days + 1) s moment (ordinal moment)
      (ordinal moment + max_search_days)) [
        | none ↦ none
        | some t ↦ some (record { minutes = t; micros = 0 })
      ]
