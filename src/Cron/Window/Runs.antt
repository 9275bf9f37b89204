-- ===== src/Cron/Window/Runs.antt =====
-- `next_runs` lists the firing times of the window one after the other.
use bolodb.Prelude.{
  ℕ, zero, suc, ◌<◌, ◌≡◌, refl, false, true, List, [], ◌∷◌, Option, none, some, inl, inr,
  Option-cases, ◌∙◌, ap, ok, ◌>>=◌,
}
use bolodb.Text.{Text}
use bolodb.Datetime.{Datetime, Stamp, as_utc}
use bolodb.Cron.Schedule.{CronSchedule, parse, matches}
use bolodb.Cron.Schedule.Parsed.{parse-IsValid}
use bolodb.Cron.Window.{cursor_of, next_in_window, next_run, runs_from, next_runs, utc}
use bolodb.Cron.Window.First.{OnMinute, Since, Until, next_in_window_first}

-- `count` moments, or fewer when the window has no further run: each a whole minute of the window at
-- which the schedule fires, and the first one after the moment before it.
abbrev pub Listing :
    CronSchedule → Option Stamp → Option Stamp → ℕ → Datetime → List Datetime → Type 0
Listing s starts_at ends_at zero from [] = Unit
Listing s starts_at ends_at zero from (r ∷ rs) = ⊥
Listing s starts_at ends_at (suc count) from [] = next_in_window s from starts_at ends_at ≡ none
Listing s starts_at ends_at (suc count) from (r ∷ rs) =
    (r.micros ≡ 0)
    × (from.minutes < r.minutes)
    × Since starts_at r.minutes
    × Until ends_at r
    × (matches s r.minutes ≡ true)
    × ((t : ℕ) → from.minutes < t → Since starts_at t → t < r.minutes → matches s t ≡ false)
    × Listing s starts_at ends_at count r rs

module _ (expression : Text) (now : Datetime) (starts_at ends_at : Option Stamp) (s : CronSchedule)
    (parsed : parse expression ≡ ok s) where
  -- With the expression parsed, a call of `next_run` is a search.
  pub next_run_parsed :
      (cursor : Datetime)
      → next_run expression now (some (utc cursor)) starts_at ends_at
        ≡ ok (next_in_window s cursor starts_at ends_at)
  unfolding next_run cursor_of as_utc
  next_run_parsed cursor = rw parsed

  pub runs_from_stop :
      (count : ℕ) (cursor : Datetime)
      → next_in_window s cursor starts_at ends_at ≡ none
      → runs_from (suc count) expression now cursor starts_at ends_at ≡ ok []
  unfolding runs_from
  runs_from_stop count cursor e = rw (next_run_parsed, e)

  pub runs_from_more :
      (count : ℕ) (cursor r : Datetime)
      → next_in_window s cursor starts_at ends_at ≡ some r
      → runs_from (suc count) expression now cursor starts_at ends_at
        ≡ (runs_from count expression now r starts_at ends_at >>= λ rest. ok (r ∷ rest))
  unfolding runs_from
  runs_from_more count cursor r e = rw (next_run_parsed, e)

  runs_from-Listing :
      OnMinute starts_at
      → (count : ℕ) (cursor : Datetime)
      → (rs : List Datetime) × (runs_from count expression now cursor starts_at ends_at ≡ ok rs)
        × Listing s starts_at ends_at count cursor rs
  runs_from-Listing whole zero cursor = ([], unfold runs_from in refl, tt)
  runs_from-Listing whole (suc count) cursor =
      elim (Option-cases (next_in_window s cursor starts_at ends_at)) [
        | inl nothing ↦ ([], runs_from_stop count cursor nothing, nothing)
        | inr (r, found) ↦
            let (a, b, c, d, f, g) =
              next_in_window_first s cursor starts_at ends_at r (parse-IsValid expression s parsed)
                whole found in
            let (rs, made, listing) = runs_from-Listing whole count r in
            (
              r ∷ rs,
              runs_from_more count cursor r found ∙ ap (λ m. m >>= λ rest. ok (r ∷ rest)) made,
              (a, b, c, d, f, g, listing),
            )
      ]

-- A preview of an expression that parses, with a start on a whole minute: the list of `count` firing
-- times of the window, one after the other, shorter only when the window has no further run.
pub next_runs-Listing :
    (expression : Text) (count : ℕ) (now : Datetime) (after starts_at ends_at : Option Stamp)
    (s : CronSchedule)
    → parse expression ≡ ok s
    → OnMinute starts_at
    → (rs : List Datetime) × (next_runs expression count now after starts_at ends_at ≡ ok rs)
      × Listing s starts_at ends_at count (cursor_of now after) rs
unfolding next_runs
next_runs-Listing expression count now after starts_at ends_at s parsed whole =
    runs_from-Listing expression now starts_at ends_at s parsed whole count (cursor_of now after)
