-- ===== src/Cron/Schedule/Search.antt =====
-- The loop of `next_after` over the days finds the first firing time from a moment on, up to a limit.
use native.Mathlib.Decide.{dec_lt, dec_le}
use bolodb.Prelude.{
  ℕ, zero, suc, ◌+◌, ◌≤◌, ◌<◌, ◌≡◌, Bool, true, false, ◌&&◌, none, some, inl, inr, arith, ltb, ◌==◌,
  contains, sorted, contains-sorted, sorted-IsIncreasing, Option-cases,
}
use bolodb.Datetime.{ordinal, hour_of, minute_of, at_time, month_of}
use bolodb.Datetime.Order.{ordinal-at_time, hour_of-at_time, minute_of-at_time}
use bolodb.Cron.Schedule.{CronSchedule, day_matches, matches, time_on, search}
use bolodb.Cron.Schedule.Clock.{time_passed, first_time-some, first_time-none, first_time-least}
use bolodb.Cron.Schedule.Parsed.{IsValid}

-- The day's part of `matches`.
abbrev day_allowed : CronSchedule → ℕ → Bool
day_allowed s day = contains (month_of day) s.months && day_matches s day

matches-eq :
    (s : CronSchedule) (t : ℕ)
    → matches s t ≡ (
        day_allowed s (ordinal t)
        && (contains (hour_of t) s.hours && contains (minute_of t) s.minutes))
unfolding matches
matches-eq s t = ground arith

module _ (s : CronSchedule) (valid : IsValid s) (moment day : ℕ)
    (reached : ordinal moment ≤ day) where
  abbrev gone : ℕ → ℕ → Bool
  gone = time_passed (day == ordinal moment) (hour_of moment) (minute_of moment)

  -- What is passed over on the day is exactly what comes before the moment.
  gone_iff : (h m : ℕ) → h < 24 → m < 60 → gone h m ≡ ltb (at_time day h m) moment
  gone_iff h m p q = ground arith

  time_on-some :
      (h m : ℕ)
      → time_on s moment day ≡ some (h, m)
      → (day_allowed s day ≡ true)
        × (contains h s.hours ≡ true)
        × (contains m s.minutes ≡ true)
        × (gone h m ≡ false)
  unfolding time_on
  time_on-some h m e = ground (
    arith,
    contains-sorted h s.hours,
    contains-sorted m s.minutes,
    first_time-some (day == ordinal moment) (hour_of moment) (minute_of moment) (sorted s.minutes)
        (sorted-IsIncreasing s.minutes) (sorted s.hours) h m,
  )

  time_on-matches :
      (h m : ℕ)
      → time_on s moment day ≡ some (h, m)
      → (h < 24) × (m < 60) × (moment ≤ at_time day h m) × (matches s (at_time day h m) ≡ true)
  time_on-matches h m e =
      let (allowed, hour_in, minute_in, later) = time_on-some h m e in
      let p = valid.hours h hour_in in
      let q = valid.minutes m minute_in in
      (
        p,
        q,
        ground (arith, gone_iff h m p q),
        rw
            (
              matches-eq,
              ordinal-at_time day h m p q,
              hour_of-at_time day h m p q,
              minute_of-at_time day h m q,
            )
            (ground arith),
      )

  -- The parts of a later moment of the day are not passed over.
  not_gone : (t : ℕ) → ordinal t ≡ day → moment ≤ t → gone (hour_of t) (minute_of t) ≡ false
  not_gone t d le =
      let here : at_time day (hour_of t) (minute_of t) ≡ t = omega arith in
      ground (arith, gone_iff (hour_of t) (minute_of t))

  time_on-none :
      (t : ℕ) → ordinal t ≡ day → moment ≤ t → time_on s moment day ≡ none → matches s t ≡ false
  unfolding time_on
  time_on-none t d le e =
      rw (matches-eq, d)
        (ground (
          arith,
          not_gone t d le,
          contains-sorted (hour_of t) s.hours,
          contains-sorted (minute_of t) s.minutes,
          first_time-none (day == ordinal moment) (hour_of moment) (minute_of moment)
              (sorted s.minutes) (sorted-IsIncreasing s.minutes) (sorted s.hours) (hour_of t)
              (minute_of t),
        ))

  time_on_least :
      (h m t : ℕ)
      → time_on s moment day ≡ some (h, m)
      → ordinal t ≡ day
      → moment ≤ t
      → t < at_time day h m
      → matches s t ≡ false
  unfolding time_on
  time_on_least h m t e d le lt =
      let small : m < 60 = (time_on-matches h m e).1 in
      rw (matches-eq, d)
        (ground (
          arith,
          not_gone t d le,
          contains-sorted (hour_of t) s.hours,
          contains-sorted (minute_of t) s.minutes,
          first_time-least (day == ordinal moment) (hour_of moment) (minute_of moment)
              (sorted s.minutes) (sorted-IsIncreasing s.minutes) (sorted s.hours) h m (hour_of t)
              (minute_of t) (sorted-IsIncreasing s.hours),
        ))

-- The three ways a round of the loop goes.
module _ (fuel : ℕ) (s : CronSchedule) (moment day limit : ℕ) where
  search_next :
      day ≤ limit
      → time_on s moment day ≡ none
      → search (suc fuel) s moment day limit ≡ search fuel s moment (day + 1) limit
  unfolding search
  search_next h e = ground arith

  search_stop :
      (hh mm : ℕ)
      → day ≤ limit
      → time_on s moment day ≡ some (hh, mm)
      → search (suc fuel) s moment day limit ≡ some (at_time day hh mm)
  unfolding search
  search_stop hh mm h e = ground arith

  search_out : ¬ (day ≤ limit) → search (suc fuel) s moment day limit ≡ none
  unfolding search
  search_out h = ground arith

module _ (s : CronSchedule) (valid : IsValid s) (moment limit : ℕ) where
  -- No day before `day` has a firing time from the moment on.
  abbrev pub NoneBefore : ℕ → Type 0
  NoneBefore day = (t : ℕ) → moment ≤ t → ordinal t < day → matches s t ≡ false

  NoneBefore-next :
      (day : ℕ)
      → ordinal moment ≤ day
      → time_on s moment day ≡ none
      → NoneBefore day
      → NoneBefore (day + 1)
  NoneBefore-next day reached e h t le lt = elim (dec_lt (ordinal t) day) [
    | yes p ↦ h t le p
    | no p ↦ time_on-none s valid moment day reached t (omega arith) le e
  ]

  -- What the loop has found: a firing time from the moment on, within the limit, and the first one.
  pub search-some :
      (fuel day r : ℕ)
      → ordinal moment ≤ day
      → NoneBefore day
      → search fuel s moment day limit ≡ some r
      → (moment ≤ r)
        × (ordinal r ≤ limit)
        × (matches s r ≡ true)
        × ((t : ℕ) → moment ≤ t → t < r → matches s t ≡ false)
  unfolding search
  search-some zero day r reached h e = cc
  search-some (suc fuel) day r reached h e = elim (dec_le day limit) [
    | no out ↦ absurd (cc (search_out fuel s moment day limit out))
    | yes here ↦ elim (Option-cases (time_on s moment day)) [
      | inl nothing ↦
          search-some fuel (day + 1) r (omega arith) (NoneBefore-next day reached nothing h)
            (cc (search_next fuel s moment day limit here nothing))
      | inr ((hh, mm), found) ↦
          let known : at_time day hh mm ≡ r =
            cc (search_stop fuel s moment day limit hh mm here found) in
          let (p, q, later, fires) = time_on-matches s valid moment day reached hh mm found in
          rw (← known) (
            later,
            rw (ordinal-at_time day hh mm p q) here,
            fires,
            λ t le lt. elim (dec_lt (ordinal t) day) [
              | yes before ↦ h t le before
              | no same_day ↦
                  time_on_least s valid moment day reached hh mm t found (omega arith) le lt
            ],
          )
    ]
  ]

  -- With a round of fuel for each day left, the loop gives up only when every day has been tried.
  pub search-none :
      (fuel day : ℕ)
      → ordinal moment ≤ day
      → limit < day + fuel
      → NoneBefore day
      → search fuel s moment day limit ≡ none
      → NoneBefore (limit + 1)
  search-none zero day reached enough h e t le lt = h t le (omega arith)
  search-none (suc fuel) day reached enough h e t le lt = elim (dec_le day limit) [
    | no out ↦ h t le (omega arith)
    | yes here ↦ elim (Option-cases (time_on s moment day)) [
      | inl nothing ↦
          search-none fuel (day + 1) (omega arith) (omega arith)
            (NoneBefore-next day reached nothing h)
            (cc (search_next fuel s moment day limit here nothing)) t le lt
      | inr ((hh, mm), found) ↦ absurd (cc (search_stop fuel s moment day limit hh mm here found))
    ]
  ]
