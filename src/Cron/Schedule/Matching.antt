-- ===== src/Cron/Schedule/Matching.antt =====
-- When a schedule fires, read from its fields.
use bolodb.Prelude.{ℕ, ◌+◌, ◌%◌, ◌≡◌, Bool, false, ◌&&◌, ◌||◌, arith, if◌then◌else◌, contains, ok}
use bolodb.Text.{Text}
use bolodb.Datetime.{ordinal, hour_of, minute_of, weekday, month_of, day_of}
use bolodb.Datetime.Calendar.{month_day-IsDate}
use bolodb.Cron.Schedule.{CronSchedule, parse, day_matches, matches}
use bolodb.Cron.Schedule.Parsed.{IsValid, parse-IsValid}

-- The day of the week as cron counts it: Sunday is 0.
abbrev pub cron_weekday : ℕ → ℕ
cron_weekday day = (weekday day + 1) % 7

-- Vixie cron's rule: with both day fields restricted either one will do, else both have to agree.
abbrev pub vixie_day : CronSchedule → ℕ → Bool
vixie_day s day =
    let dom_hit = contains (day_of day) s.days in
    let dow_hit = contains (cron_weekday day) s.weekdays in
    if s.dom_restricted && s.dow_restricted then dom_hit || dow_hit else dom_hit && dow_hit

day_matches-eq : (s : CronSchedule) (day : ℕ) → IsValid s → day_matches s day ≡ vixie_day s day
unfolding day_matches
day_matches-eq s day valid =
    let date = month_day-IsDate day in
    ground (
      arith,
      λ (f : s.dom_restricted ≡ false). valid.every_day f (day_of day) (date.2, date.3),
      λ (f : s.dow_restricted ≡ false). valid.every_weekday f (cron_weekday day) (omega arith),
    )

-- A parsed schedule fires at a minute exactly when the month, the hour and the minute are in their
-- fields and the day obeys the rule of the two day fields: with both of them restricted, one of them
-- holds the day; otherwise both do.
pub matches-eq-vixie_day :
    (expression : Text) (s : CronSchedule) (t : ℕ)
    → parse expression ≡ ok s
    → matches s t ≡ (
        contains (month_of (ordinal t)) s.months
        && vixie_day s (ordinal t)
        && contains (hour_of t) s.hours
        && contains (minute_of t) s.minutes)
unfolding matches
matches-eq-vixie_day expression s t parsed =
    ground (arith, day_matches-eq s (ordinal t) (parse-IsValid expression s parsed))
