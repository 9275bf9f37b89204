-- ===== src/Cron/Window/Repeats.antt =====
-- A start with seconds: the cursor moves to before the minute in which the window opens, also when it
-- stood later in that minute.
use bolodb.Prelude.{
  ℕ, zero, suc, ◌-◌, ◌<◌, ◌≡◌, refl, true, List, [], ◌∷◌, Option, none, some, arith, ok, ◌>>=◌, ◌∙◌,
  ap,
}
use bolodb.Text.{Text}
use bolodb.Datetime.{Datetime, Stamp, as_utc, before}
use bolodb.Cron.Schedule.{CronSchedule, parse, matches}
use bolodb.Cron.Schedule.Parsed.{parse-IsValid}
use bolodb.Cron.Schedule.Next.{next_after_first}
use bolodb.Cron.Window.{cursor_of, pushed, closed, inside, next_in_window, runs_from, next_runs}
use bolodb.Cron.Window.Runs.{runs_from_more}

-- The whole minute in which a moment lies.
abbrev pub minute_start : Datetime → Datetime
minute_start d = record d { micros = 0 }

abbrev pub replicate : ℕ → Datetime → List Datetime
replicate zero d = []
replicate (suc n) d = d ∷ replicate n d

module _ (expression : Text) (now : Datetime) (starts_at : Stamp) (s : CronSchedule)
    (parsed : parse expression ≡ ok s) where
  abbrev begin : Datetime
  begin = as_utc starts_at

  next_in_window_start :
      (cursor : Datetime)
      → 0 < begin.minutes
      → before cursor begin ≡ true
      → matches s begin.minutes ≡ true
      → next_in_window s cursor (some starts_at) none ≡ some (minute_start begin)
  unfolding next_in_window pushed inside closed
  next_in_window_start cursor positive ahead fires = rw (
    ahead,
    next_after_first s (record begin { minutes = begin.minutes - 1 }) begin.minutes
        (parse-IsValid expression s parsed) (omega arith) (omega arith) fires
        (λ u a b. absurd (omega arith)),
  )

  runs_repeat :
      (count : ℕ) (cursor : Datetime)
      → 0 < begin.minutes
      → 0 < begin.micros
      → before cursor begin ≡ true
      → matches s begin.minutes ≡ true
      → runs_from count expression now cursor (some starts_at) none
        ≡ ok (replicate count (minute_start begin))
  runs_repeat zero cursor p q ahead fires = unfold runs_from in refl
  runs_repeat (suc count) cursor p q ahead fires =
      runs_from_more expression now (some starts_at) none s parsed count cursor (minute_start begin)
        (next_in_window_start cursor p ahead fires)
      ∙ ap (λ m. m >>= λ rest. ok (minute_start begin ∷ rest))
          (runs_repeat count (minute_start begin) p q (unfold before in ground arith) fires)

-- Where the window has no end, and `starts_at` has seconds, lies ahead, is not in the first minute of
-- the calendar, and the schedule fires in its minute: every run that the preview lists is the start of
-- that one minute, which is before `starts_at`.
pub next_runs_repeat :
    (expression : Text) (count : ℕ) (now : Datetime) (after : Option Stamp) (starts_at : Stamp)
    (s : CronSchedule)
    → parse expression ≡ ok s
    → 0 < (as_utc starts_at).minutes
    → 0 < (as_utc starts_at).micros
    → before (cursor_of now after) (as_utc starts_at) ≡ true
    → matches s (as_utc starts_at).minutes ≡ true
    → (next_runs expression count now after (some starts_at) none
        ≡ ok (replicate count (minute_start (as_utc starts_at))))
      × (before (minute_start (as_utc starts_at)) (as_utc starts_at) ≡ true)
unfolding next_runs
next_runs_repeat expression count now after starts_at s parsed p q ahead fires = (
  runs_repeat expression now starts_at s parsed count (cursor_of now after) p q ahead fires,
  unfold before in ground arith,
)
