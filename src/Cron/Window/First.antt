-- ===== src/Cron/Window/First.antt =====
-- `next_run` answers with the first firing time inside the window, where the window opens on a whole
-- minute.
use bolodb.Prelude.{
  ℕ, ◌+◌, ◌≤◌, ◌<◌, ◌≡◌, refl, true, false, Option, none, some, inl, inr, ◌⊎◌, arith, ok, >>=-eq-ok,
}
use native.Mathlib.Decide.{dec_lt}
use bolodb.Text.{Text}
use bolodb.Datetime.{Datetime, Stamp, ordinal, as_utc, before}
use bolodb.Cron.Schedule.{CronSchedule, parse, max_search_days, next_after, matches}
use bolodb.Cron.Schedule.Parsed.{IsValid, parse-IsValid}
use bolodb.Cron.Schedule.Next.{next_after-some, next_after-none}
use bolodb.Cron.Window.{cursor_of, pushed, closed, inside, next_in_window, next_run}

-- The window opens on a whole minute, if it has a start.
abbrev pub OnMinute : Option Stamp → Type 0
OnMinute none = Unit
OnMinute (some starts_at) = (as_utc starts_at).micros ≡ 0

-- The minute is not before the start.
abbrev pub Since : Option Stamp → ℕ → Type 0
Since none t = Unit
Since (some starts_at) t = (as_utc starts_at).minutes ≤ t

-- The moment is not after the end.
abbrev pub Until : Option Stamp → Datetime → Type 0
Until none r = Unit
Until (some ends_at) r = before (as_utc ends_at) r ≡ false

-- With a start on a whole minute, to be after the pushed cursor is to be after the cursor and inside.
pushed-lt :
    (cursor : Datetime) (starts_at : Option Stamp) (t : ℕ)
    → OnMinute starts_at
    → (pushed cursor starts_at).minutes < t
    → (cursor.minutes < t) × Since starts_at t
unfolding pushed before
pushed-lt cursor none t h lt = (lt, tt)
pushed-lt cursor (some b) t h lt = ground arith

lt-pushed :
    (cursor : Datetime) (starts_at : Option Stamp) (t : ℕ)
    → OnMinute starts_at
    → cursor.minutes < t
    → Since starts_at t
    → (pushed cursor starts_at).minutes < t
unfolding pushed before
lt-pushed cursor none t h lt since = lt
lt-pushed cursor (some b) t h lt since = ground arith

inside-some :
    (ends_at : Option Stamp) (o : Option Datetime) (r : Datetime)
    → inside ends_at o ≡ some r
    → (o ≡ some r) × Until ends_at r
unfolding inside
inside-some ends_at none r e = cc
inside-some none (some u) r e = ground arith
inside-some (some b) (some u) r e = ground arith

pub next_in_window_first :
    (s : CronSchedule) (cursor : Datetime) (starts_at ends_at : Option Stamp) (r : Datetime)
    → IsValid s
    → OnMinute starts_at
    → next_in_window s cursor starts_at ends_at ≡ some r
    → (r.micros ≡ 0)
      × (cursor.minutes < r.minutes)
      × Since starts_at r.minutes
      × Until ends_at r
      × (matches s r.minutes ≡ true)
      × ((t : ℕ) → cursor.minutes < t → Since starts_at t → t < r.minutes → matches s t ≡ false)
unfolding next_in_window
next_in_window_first s cursor starts_at ends_at r valid whole e =
    let (found, until) = inside-some ends_at _ r e in
    let (on_minute, later, fires, first) =
      next_after-some s (pushed cursor starts_at) r valid found in
    let (after_cursor, since) = pushed-lt cursor starts_at r.minutes whole later in
    (
      on_minute,
      after_cursor,
      since,
      until,
      fires,
      λ t lt in_window. first t (lt-pushed cursor starts_at t whole lt in_window),
    )

next_run_inv :
    (expression : Text) (now : Datetime) (after starts_at ends_at : Option Stamp)
    (o : Option Datetime)
    → next_run expression now after starts_at ends_at ≡ ok o
    → (s : CronSchedule) × (parse expression ≡ ok s)
      × (next_in_window s (cursor_of now after) starts_at ends_at ≡ o)
unfolding next_run
next_run_inv expression now after starts_at ends_at o e =
    let (s, parsed, made) =
      >>=-eq-ok (parse expression)
        (λ s. ok (next_in_window s (cursor_of now after) starts_at ends_at)) e in
    (s, parsed, ground arith)

-- What `next_run` returns, where `starts_at` is on a whole minute: a whole minute after `after` (or
-- after now), not before `starts_at` and not after `ends_at`, at which the schedule fires; and no
-- earlier minute of the window is a firing time.
pub next_run_first :
    (expression : Text) (now : Datetime) (after starts_at ends_at : Option Stamp) (r : Datetime)
    → OnMinute starts_at
    → next_run expression now after starts_at ends_at ≡ ok (some r)
    → (s : CronSchedule) × (parse expression ≡ ok s)
      × (r.micros ≡ 0)
      × ((cursor_of now after).minutes < r.minutes)
      × Since starts_at r.minutes
      × Until ends_at r
      × (matches s r.minutes ≡ true)
      × ((t : ℕ)
          → (cursor_of now after).minutes < t
          → Since starts_at t
          → t < r.minutes
          → matches s t ≡ false)
next_run_first expression now after starts_at ends_at r whole e =
    let (s, parsed, found) = next_run_inv expression now after starts_at ends_at (some r) e in
    let (a, b, c, d, f, g) =
      next_in_window_first s (cursor_of now after) starts_at ends_at r
        (parse-IsValid expression s parsed) whole found in
    (s, parsed, a, b, c, d, f, g)

-- The last day that a search from the cursor may reach.
abbrev pub reach : Datetime → Option Stamp → ℕ
reach cursor starts_at = ordinal ((pushed cursor starts_at).minutes + 1) + max_search_days

inside-none :
    (ends_at : Option Stamp) (o : Option Datetime)
    → inside ends_at o ≡ none
    → (o ≡ none) ⊎ ((r : Datetime) × (o ≡ some r) × (closed ends_at r ≡ true))
unfolding inside
inside-none ends_at none e = inl refl
inside-none none (some r) e = cc
inside-none (some b) (some r) e = inr (r, refl, ground arith)

-- After the end, a later minute is after the end too.
closed_later :
    (ends_at : Option Stamp) (r : Datetime) (t : ℕ)
    → closed ends_at r ≡ true
    → r.micros ≡ 0
    → r.minutes ≤ t
    → ¬ Until ends_at (record { minutes = t; micros = 0 })
unfolding closed before
closed_later none r t c z le until = cc c
closed_later (some b) r t c z le until = ground arith

-- When a parsed expression has no next run, no minute of the window fires, as far as the search
-- reaches; `starts_at` is on a whole minute.
pub next_run-none :
    (expression : Text) (now : Datetime) (after starts_at ends_at : Option Stamp) (t : ℕ)
    → OnMinute starts_at
    → next_run expression now after starts_at ends_at ≡ ok none
    → (cursor_of now after).minutes < t
    → Since starts_at t
    → Until ends_at (record { minutes = t; micros = 0 })
    → ordinal t ≤ reach (cursor_of now after) starts_at
    → (s : CronSchedule) × (parse expression ≡ ok s) × (matches s t ≡ false)
unfolding next_in_window
next_run-none expression now after starts_at ends_at t whole e later since until near =
    let (s, parsed, found) = next_run_inv expression now after starts_at ends_at none e in
    let cursor = cursor_of now after in
    let valid = parse-IsValid expression s parsed in
    let lt = lt-pushed cursor starts_at t whole later since in
    elim (inside-none ends_at (next_after s (pushed cursor starts_at)) found) [
      | inl nothing ↦
          (s, parsed, next_after-none s (pushed cursor starts_at) t valid nothing lt near)
      | inr (r, found_r, over) ↦
          let (on_minute, later_r, fires, first) =
            next_after-some s (pushed cursor starts_at) r valid found_r in
          let below : t < r.minutes = elim (dec_lt t r.minutes) [
            | yes p ↦ p
            | no p ↦ absurd (closed_later ends_at r t over on_minute (omega arith) until)
          ] in
          (s, parsed, first t lt below)
    ]
