-- ===== src/Cron/Schedule/Next.antt =====
-- What `next_after` promises: the first firing time after a moment, or that there is none within
-- `max_search_days` days.
use bolodb.Prelude.{
  ℕ, ◌+◌, ◌≤◌, ◌<◌, ◌≡◌, true, false, Option, none, some, inl, inr, arith, Option-cases, ◌∙◌,
}
use bolodb.Datetime.{Datetime, ordinal}
use bolodb.Cron.Schedule.{CronSchedule, max_search_days, matches, search, next_after}
use bolodb.Cron.Schedule.Parsed.{IsValid}
use bolodb.Cron.Schedule.Search.{search-some, search-none}

abbrev searched : CronSchedule → Datetime → Option ℕ
searched s after =
    let moment = after.minutes + 1 in
    search (max_search_days + 1) s moment (ordinal moment) (ordinal moment + max_search_days)

next_after_inv :
    (s : CronSchedule) (after r : Datetime)
    → next_after s after ≡ some r
    → (r.micros ≡ 0) × (searched s after ≡ some r.minutes)
unfolding next_after
next_after_inv s after r e = elim (Option-cases (searched s after)) [
  | inl nothing ↦ absurd (cc (rw (nothing, next_after) at e))
  | inr (t, found) ↦ ground arith
]

next_after_inv_none :
    (s : CronSchedule) (after : Datetime) → next_after s after ≡ none → searched s after ≡ none
unfolding next_after
next_after_inv_none s after e = elim (Option-cases (searched s after)) [
  | inl nothing ↦ nothing
  | inr (t, found) ↦ absurd (cc (rw (found, next_after) at e))
]

-- The moment that `next_after` returns is a whole minute, a firing time after `after`, and the first
-- one: no minute between the two is a firing time.
pub next_after-some :
    (s : CronSchedule) (after r : Datetime)
    → IsValid s
    → next_after s after ≡ some r
    → (r.micros ≡ 0)
      × (after.minutes < r.minutes)
      × (matches s r.minutes ≡ true)
      × ((t : ℕ) → after.minutes < t → t < r.minutes → matches s t ≡ false)
next_after-some s after r valid e =
    let (whole, found) = next_after_inv s after r e in
    let moment = after.minutes + 1 in
    let limit = ordinal moment + max_search_days in
    let (later, near, fires, first) =
      search-some s valid moment limit (max_search_days + 1) (ordinal moment) r.minutes
        (omega arith) (λ t le lt. absurd (omega arith)) found in
    (whole, omega arith, fires, λ t le lt. first t (omega arith) lt)

-- When `next_after` returns nothing, no minute after `after` is a firing time, up to the end of the
-- last day that it may search.
pub next_after-none :
    (s : CronSchedule) (after : Datetime) (t : ℕ)
    → IsValid s
    → next_after s after ≡ none
    → after.minutes < t
    → ordinal t ≤ ordinal (after.minutes + 1) + max_search_days
    → matches s t ≡ false
next_after-none s after t valid e later near =
    let moment = after.minutes + 1 in
    let limit = ordinal moment + max_search_days in
    search-none s valid moment limit (max_search_days + 1) (ordinal moment) (omega arith)
      (omega arith) (λ t le lt. absurd (omega arith)) (next_after_inv_none s after e) t
      (omega arith) (omega arith)

-- A firing time within reach is found, and nothing before it.
pub next_after_first :
    (s : CronSchedule) (after : Datetime) (t : ℕ)
    → IsValid s
    → after.minutes < t
    → ordinal t ≤ ordinal (after.minutes + 1) + max_search_days
    → matches s t ≡ true
    → ((u : ℕ) → after.minutes < u → u < t → matches s u ≡ false)
    → next_after s after ≡ some (record { minutes = t; micros = 0 })
next_after_first s after t valid later near fires first = elim (Option-cases (next_after s after)) [
  | inl nothing ↦ absurd (cc (next_after-none s after t valid nothing later near))
  | inr (r, found) ↦
      let (whole, after_r, fires_r, first_r) = next_after-some s after r valid found in
      let upper : ¬ (t < r.minutes) = λ lt. absurd (cc (first_r t later lt)) in
      let lower : ¬ (r.minutes < t) = λ lt. absurd (cc (first r.minutes after_r lt)) in
      found ∙ ground arith
]
