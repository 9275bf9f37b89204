-- ===== src/Cron/Schedule/Parsed.antt =====
-- What a cron expression that parses is: every field is within its bounds, none is empty, and a field
-- that is not restricted holds every day.
use bolodb.Prelude.{
  not, ℕ, ◌<◌, ◌≡◌, refl, true, false, contains, contains-remove, remove, is_empty, arith, Result,
  ok, err, List, [], ◌∷◌, Bool-cases, inl, inr,
}
use bolodb.Text.{Text, eq_text, strip, split}
use bolodb.Cron.Field.{month_names, day_names}
use bolodb.Cron.Field.Bounds.{Within, NamesWithin, parse_field-IsUnion, parse_field-Within}
use bolodb.Cron.Field.{star}
use bolodb.Cron.Field.Star.{parse_field-star}
use bolodb.Cron.Error.{Label, CronError}
use bolodb.Cron.Schedule.{CronSchedule, normalise_weekdays, attributes, of_fields, of_words, parse}

-- The numbers of a schedule are those of a clock and a calendar, each field has one, and a day field
-- that is `*` has all.
pub record IsValid (s : CronSchedule) : Type 0 where
  pub minutes : (v : ℕ) → contains v s.minutes ≡ true → v < 60
  pub hours : (v : ℕ) → contains v s.hours ≡ true → v < 24
  pub days : (v : ℕ) → contains v s.days ≡ true → Within 1 31 v
  pub months : (v : ℕ) → contains v s.months ≡ true → Within 1 12 v
  pub weekdays : (v : ℕ) → contains v s.weekdays ≡ true → v < 7
  pub some_minute : is_empty s.minutes ≡ false
  pub some_hour : is_empty s.hours ≡ false
  pub some_day : is_empty s.days ≡ false
  pub some_month : is_empty s.months ≡ false
  pub some_weekday : is_empty s.weekdays ≡ false
  pub every_day : s.dom_restricted ≡ false → (v : ℕ) → Within 1 31 v → contains v s.days ≡ true
  pub every_weekday : s.dow_restricted ≡ false → (v : ℕ) → v < 7 → contains v s.weekdays ≡ true

month_names-Within : NamesWithin 1 12 month_names
unfolding month_names
month_names-Within = omega arith

day_names-Within : NamesWithin 0 7 day_names
unfolding day_names
day_names-Within = omega arith

normalise_weekdays-lt :
    (ws : List ℕ) (v : ℕ)
    → ((u : ℕ) → contains u ws ≡ true → Within 0 7 u)
    → contains v (normalise_weekdays ws) ≡ true
    → v < 7
unfolding normalise_weekdays contains
normalise_weekdays-lt ws v h m =
    ground (arith, h v, h 7, contains-remove v 0 (remove 7 ws), contains-remove v 7 ws)

normalise_weekdays-keeps :
    (ws : List ℕ) (v : ℕ) → v < 7 → contains v ws ≡ true → contains v (normalise_weekdays ws) ≡ true
unfolding normalise_weekdays contains
normalise_weekdays-keeps ws v lt m =
    ground (arith, contains-remove v 0 (remove 7 ws), contains-remove v 7 ws)

is_empty-normalise_weekdays :
    (ws : List ℕ) → is_empty ws ≡ false → is_empty (normalise_weekdays ws) ≡ false
unfolding normalise_weekdays
is_empty-normalise_weekdays ws h = ground arith

-- What the fields are when the schedule is made.
attributes_inv :
    (expression dom dow : Text) (minute hour day month weekday : Result CronError (List ℕ))
    (s : CronSchedule)
    → attributes expression dom dow minute hour day month weekday ≡ ok s
    → (weekdays : List ℕ) × (minute ≡ ok s.minutes)
      × (hour ≡ ok s.hours)
      × (day ≡ ok s.days)
      × (month ≡ ok s.months)
      × (weekday ≡ ok weekdays)
      × (s.weekdays ≡ normalise_weekdays weekdays)
      × (s.dom_restricted ≡ not (eq_text (strip dom) star))
      × (s.dow_restricted ≡ not (eq_text (strip dow) star))
unfolding attributes
attributes_inv x dom dow (ok a) (ok b) (ok c) (ok d) (ok e) s h = (
  e,
  ground arith,
  ground arith,
  ground arith,
  ground arith,
  refl,
  ground arith,
  ground arith,
  ground arith,
)
attributes_inv x dom dow (err _) b c d e s h = cc
attributes_inv x dom dow (ok a) (err _) c d e s h = cc
attributes_inv x dom dow (ok a) (ok b) (err _) d e s h = cc
attributes_inv x dom dow (ok a) (ok b) (ok c) (err _) e s h = cc
attributes_inv x dom dow (ok a) (ok b) (ok c) (ok d) (err _) s h = cc

of_fields-IsValid : (a b c d e : Text) (s : CronSchedule) → of_fields a b c d e ≡ ok s → IsValid s
unfolding of_fields
of_fields-IsValid a b c d e s h =
    let (ws, pa, pb, pc, pd, pe, same, dom_star, dow_star) = attributes_inv _ c e _ _ _ _ _ s h in
    record {
      minutes = λ v m.
          ground
            (arith, parse_field-Within 0 59 Label.minute [] (omega arith) tt a s.minutes v pa m);
      hours = λ v m.
          ground (arith, parse_field-Within 0 23 Label.hour [] (omega arith) tt b s.hours v pb m);
      days = λ v m. parse_field-Within 1 31 Label.day_of_month [] (omega arith) tt c s.days v pc m;
      months = λ v m.
          parse_field-Within 1 12 Label.month month_names (omega arith) month_names-Within d
            s.months v pd m;
      weekdays = λ v m.
          normalise_weekdays-lt ws v
            (λ u.
              parse_field-Within 0 7 Label.day_of_week day_names (omega arith) day_names-Within e ws
                u pe)
            (rw same at m);
      some_minute = (parse_field-IsUnion 0 59 Label.minute [] (omega arith) tt a s.minutes pa).1;
      some_hour = (parse_field-IsUnion 0 23 Label.hour [] (omega arith) tt b s.hours pb).1;
      some_day = (parse_field-IsUnion 1 31 Label.day_of_month [] (omega arith) tt c s.days pc).1;
      some_month =
          (parse_field-IsUnion 1 12 Label.month month_names (omega arith) month_names-Within d
            s.months pd).1;
      some_weekday = rw same (
          is_empty-normalise_weekdays ws
            (parse_field-IsUnion 0 7 Label.day_of_week day_names (omega arith) day_names-Within e ws
              pe).1);
      every_day = λ free v within.
          parse_field-star 1 31 Label.day_of_month [] c s.days v (ground (arith, dom_star)) pc
            within;
      every_weekday = λ free v lt. rw same (
          normalise_weekdays-keeps ws v lt (
            parse_field-star 0 7 Label.day_of_week day_names e ws v (ground (arith, dow_star)) pe
              (omega arith)));
    }

of_words-IsValid : (ws : List Text) (s : CronSchedule) → of_words ws ≡ ok s → IsValid s
unfolding of_words
of_words-IsValid (a ∷ b ∷ c ∷ d ∷ e ∷ []) s h = of_fields-IsValid a b c d e s h
of_words-IsValid _ s h = cc

-- A cron expression that parses is a schedule whose minutes are below 60, hours below 24, days within
-- 1 to 31, months within 1 to 12 and weekdays below 7; no field is empty; and a day of the month or of
-- the week that is not restricted holds every day.
pub parse-IsValid : (expression : Text) (s : CronSchedule) → parse expression ≡ ok s → IsValid s
unfolding parse
parse-IsValid expression s h = elim (Bool-cases (is_empty (strip expression))) [
  | inl blank ↦ absurd (cc (rw blank at h))
  | inr given ↦ of_words-IsValid (split (strip expression)) s (rw given at h)
]
