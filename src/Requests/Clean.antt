-- ===== src/Requests/Clean.antt =====
-- What the checks of backend/app/controllers/schedules.py ask of the fields of a request.
use bolodb.Prelude.{
  ℕ, ◌≤◌, ◌<◌, ◌≡◌, Bool, true, false, List, [], Option, none, some, length, is_empty, String, All,
  ◌⊎◌, ok,
}
use bolodb.Prelude.Int.{ℤ, pos, negsuc}
use bolodb.Text.{Text}
use bolodb.Datetime.{Datetime, before}
use bolodb.Cron.Schedule.{CronSchedule, parse, matches}
use bolodb.Schedules.{Condition, row_count_gte, row_count_lte}
use bolodb.Requests.{max_recipients, max_inline_rows, condition_of}
use bolodb.Requests.Recipients.{IsAddress, NoRepeats}

-- A field that may only be missing from a change.
abbrev pub Field : {A : Type 0} → Bool → (A → Type 0) → Option A → Type 0
Field partial P none = partial ≡ true
Field partial P (some a) = P a

abbrev pub IsName : Text → Type 0
IsName name = (is_empty name ≡ false) × (length name ≤ 255)

abbrev pub IsReadOnly : (Text → Option Text) → Text → Type 0
IsReadOnly readonly_violation sql =
    (is_empty sql ≡ false) × ((readonly_violation sql ≡ none) ⊎ (readonly_violation sql ≡ some []))

-- The normalised text of an expression that parses and fires after now.
abbrev pub Occurs : Datetime → Text → Type 0
Occurs now expression =
    (raw : Text) × (s : CronSchedule) × (t : ℕ) × (parse raw ≡ ok s)
    × (expression ≡ s.expression)
    × (now.minutes < t)
    × (matches s t ≡ true)

abbrev pub IsList : List Text → Type 0
IsList out = All IsAddress out × NoRepeats out × (length out ≤ max_recipients)

abbrev pub InOrder : Option (Option Datetime) → Option (Option Datetime) → Type 0
InOrder (some (some starts_at)) (some (some ends_at)) = before starts_at ends_at ≡ true
InOrder _ _ = Unit

abbrev pub InRange : Option (Option ℤ) → Type 0
InRange (some (some (pos n))) = (1 ≤ n) × (n ≤ max_inline_rows)
InRange (some (some (negsuc n))) = false ≡ true
InRange _ = Unit

-- A threshold is not negative, and a condition on the number of rows has one.
abbrev pub NotNegative : Option (Option ℤ) → Type 0
NotNegative (some (some (negsuc n))) = false ≡ true
NotNegative _ = Unit

abbrev pub has_threshold : Option (Option ℤ) → Bool
has_threshold (some (some value)) = true
has_threshold _ = false

abbrev pub needs_threshold : Option Condition → Bool
needs_threshold (some row_count_gte) = true
needs_threshold (some row_count_lte) = true
needs_threshold _ = false

abbrev pub HasThreshold : Option (Option String) → Option (Option ℤ) → Type 0
HasThreshold (some (some c)) value =
    needs_threshold (condition_of c) ≡ true → has_threshold value ≡ true
HasThreshold _ value = Unit
