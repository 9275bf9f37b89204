-- ===== src/Text/Number.antt =====
-- `int(token)` of Python, over ASCII: white space around it, a sign, and underscores between digits.
use bolodb.Prelude.{
  ℕ, zero, suc, ◌+◌, ◌-◌, ◌*◌, ◌/◌, ◌%◌, Bool, true, false, not, ◌&&◌, [], ◌∷◌, Option, none, some,
  ◌==◌, if◌then◌else◌,
}
use bolodb.Prelude.Int.{ℤ, pos, neg_ℕ}
use bolodb.Text.{Text, strip, is_digit}

-- `wants` says that a digit has to come next.
read_digits : Bool → ℕ → Text → Option ℕ
read_digits wants n [] = if wants then none else some n
read_digits wants n (c ∷ s) =
    let digit = read_digits false (n * 10 + (c - 48)) s in
    let underscore = read_digits true n s in
    if is_digit c then digit else if c == b'_' && not wants then underscore else none

abbrev to_pos : Option ℕ → Option ℤ
to_pos none = none
to_pos (some n) = some (pos n)

abbrev to_neg : Option ℕ → Option ℤ
to_neg none = none
to_neg (some n) = some (neg_ℕ n)

read_sign : Text → Option ℤ
unfolding read_digits
read_sign [] = none
read_sign (c ∷ s) =
    if c == b'+'
    then to_pos (read_digits true 0 s)
    else if c == b'-'
    then to_neg (read_digits true 0 s)
    else to_pos (read_digits true 0 (c ∷ s))

-- `none` is `ValueError`.
unfoldable pub to_int : Text → Option ℤ
unfolding strip read_sign
to_int s = read_sign (strip s)

digits_onto : ℕ → ℕ → Text → Text
digits_onto zero n later = later
digits_onto (suc fuel) n later =
    let digits = (48 + n % 10) ∷ later in
    let rest = digits_onto fuel (n / 10) digits in if n / 10 == 0 then digits else rest

-- `str(n)`; a number has no more digits than its successor counts.
unfoldable pub of_ℕ : ℕ → Text
unfolding digits_onto
of_ℕ n = digits_onto (suc n) n []
