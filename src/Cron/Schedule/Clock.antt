-- ===== src/Cron/Schedule/Clock.antt =====
-- The two inner loops of `next_after` find the first time of a day: it is one of the schedule's, it is
-- not passed over, and no earlier one is.
use bolodb.Prelude.{
  ℕ, ◌≤◌, ◌<◌, ◌≡◌, Bool, true, false, ◌&&◌, ◌||◌, List, [], ◌∷◌, none, some, inl, inr, ◌⊎◌, arith,
  ltb, ◌==◌, contains, IsIncreasing, lt_of_Above, Option-cases,
}
use bolodb.Cron.Schedule.{first_minute, first_time}

module _ (same_hour : Bool) (now : ℕ) where
  -- The inner loop passes over the minutes of the current hour that have gone by.
  abbrev minute_passed : ℕ → Bool
  minute_passed m = same_hour && ltb m now

  pub first_minute-some :
      (ms : List ℕ) (m : ℕ)
      → first_minute same_hour now ms ≡ some m
      → (contains m ms ≡ true) × (minute_passed m ≡ false)
  unfolding first_minute contains
  first_minute-some [] m e = cc
  first_minute-some (x ∷ ms) m e = ground (arith, first_minute-some ms m)

  pub first_minute-least :
      (ms : List ℕ) (m n : ℕ)
      → IsIncreasing ms
      → first_minute same_hour now ms ≡ some m
      → contains n ms ≡ true
      → minute_passed n ≡ false
      → m ≤ n
  unfolding first_minute contains
  first_minute-least [] m n inc e c p = cc
  first_minute-least (x ∷ ms) m n inc e c p =
      ground (arith, first_minute-least ms m n inc.1, lt_of_Above x n ms inc.0)

  pub first_minute-none :
      (ms : List ℕ) (n : ℕ)
      → first_minute same_hour now ms ≡ none
      → contains n ms ≡ true
      → minute_passed n ≡ true
  unfolding first_minute contains
  first_minute-none [] n e c = cc
  first_minute-none (x ∷ ms) n e c = ground (arith, first_minute-none ms n)

-- On the first day a time before the current one is passed over.
abbrev pub time_passed : Bool → ℕ → ℕ → ℕ → ℕ → Bool
time_passed first_day now_hour now_minute h m =
    first_day && (ltb h now_hour || (h == now_hour && ltb m now_minute))

module _ (first_day : Bool) (now_hour now_minute : ℕ) (ms : List ℕ) (inc : IsIncreasing ms) where
  pub first_time-some :
      (hs : List ℕ) (h m : ℕ)
      → first_time first_day now_hour now_minute ms hs ≡ some (h, m)
      → (contains h hs ≡ true)
        × (contains m ms ≡ true)
        × (time_passed first_day now_hour now_minute h m ≡ false)
  unfolding first_time contains
  first_time-some [] h m e = cc
  first_time-some (x ∷ hs) h m e =
      elim (Option-cases (first_minute (first_day && x == now_hour) now_minute ms)) [
        | inl nothing ↦ ground (arith, first_time-some hs h m)
        | inr (n, found) ↦ ground (
          arith,
          first_time-some hs h m,
          first_minute-some (first_day && x == now_hour) now_minute ms n found,
        )
      ]

  pub first_time-none :
      (hs : List ℕ) (h m : ℕ)
      → first_time first_day now_hour now_minute ms hs ≡ none
      → contains h hs ≡ true
      → contains m ms ≡ true
      → time_passed first_day now_hour now_minute h m ≡ true
  unfolding first_time contains
  first_time-none [] h m e c d = cc
  first_time-none (x ∷ hs) h m e c d =
      elim (Option-cases (first_minute (first_day && x == now_hour) now_minute ms)) [
        | inl nothing ↦ ground (
          arith,
          first_time-none hs h m,
          first_minute-none (first_day && x == now_hour) now_minute ms m nothing,
        )
        | inr (n, found) ↦ ground (arith, first_time-none hs h m)
      ]

  -- No allowed time is earlier.
  pub first_time-least :
      (hs : List ℕ) (h m h' m' : ℕ)
      → IsIncreasing hs
      → first_time first_day now_hour now_minute ms hs ≡ some (h, m)
      → contains h' hs ≡ true
      → contains m' ms ≡ true
      → time_passed first_day now_hour now_minute h' m' ≡ false
      → (h < h') ⊎ ((h ≡ h') × (m ≤ m'))
  unfolding first_time contains
  first_time-least [] h m h' m' k e c d p = cc
  first_time-least (x ∷ hs) h m h' m' k e c d p =
      elim (Option-cases (first_minute (first_day && x == now_hour) now_minute ms)) [
        | inl nothing ↦ ground (
          arith,
          first_time-least hs h m h' m' k.1,
          first_minute-none (first_day && x == now_hour) now_minute ms m' nothing,
        )
        | inr (n, found) ↦ ground (
          arith,
          first_time-least hs h m h' m' k.1,
          first_minute-least (first_day && x == now_hour) now_minute ms n m' inc found,
          lt_of_Above x h' hs k.0,
        )
      ]
