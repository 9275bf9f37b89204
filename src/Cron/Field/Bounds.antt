-- ===== src/Cron/Field/Bounds.antt =====
-- What the numbers of a parsed field are: an entry stands for the numbers of one span at whole
-- steps, and no number leaves the bounds of its field.
use native.Mathlib.Nat.{zero-mod}
use bolodb.Prelude.{
  ℕ, zero, suc, ◌+◌, ◌≤◌, ◌<◌, ◌≡◌, refl, true, false, List, [], ◌∷◌, ◌++◌, Option, none, some, inl,
  inr, arith, is_empty, ok, ◌>>=◌, >>=-eq-ok, Bool-cases, contains, contains-append, All, subst,
}
use bolodb.Prelude.Int.{ℤ, pos, negsuc}
use bolodb.Text.{Text, strip, split_on, upper, partition}
use bolodb.Text.Number.{to_int}
use bolodb.Cron.Error.{Label}
use bolodb.Cron.Range.{range, in_range, contains-range}
use bolodb.Cron.Field.{
  Names, named, in_bounds, whole_value, value_of, parse_value, whole_step, parse_step, parse_span,
  parse_part, parse_parts, some_value, parse_field,
}

abbrev pub Within : ℕ → ℕ → ℕ → Type 0
Within low high v = (low ≤ v) × (v ≤ high)

-- A numbered name lies within the bounds too.
abbrev pub NamesWithin : ℕ → ℕ → Names → Type 0
NamesWithin low high = All (λ (_, v). Within low high v)

module _ (low high : ℕ) (label : Label) (names : Names) (fits : NamesWithin low high names) where
  named-Within :
      (key : Text) (ns : Names) (v : ℕ)
      → NamesWithin low high ns
      → named key ns ≡ some v
      → Within low high v
  unfolding named
  named-Within key [] v h e = cc
  named-Within key ((w, n) ∷ ns) v h e = ground (arith, named-Within key ns v h.1)

  in_bounds-Within : (z : ℤ) (v : ℕ) → in_bounds z low high label ≡ ok v → Within low high v
  unfolding in_bounds
  in_bounds-Within (pos n) v e = ground arith
  in_bounds-Within (negsuc n) v e = cc

  whole_value-Within :
      (o : Option ℤ) (v : ℕ) → whole_value o low high label ≡ ok v → Within low high v
  unfolding whole_value
  whole_value-Within none v e = cc
  whole_value-Within (some z) v e = in_bounds-Within z v e

  value_of-Within :
      (o : Option ℕ) (token : Text) (v : ℕ)
      → ((n : ℕ) → o ≡ some n → Within low high n)
      → value_of o token low high label ≡ ok v
      → Within low high v
  unfolding value_of
  value_of-Within (some n) token v h e = ground (arith, h n refl)
  value_of-Within none token v h e = whole_value-Within (to_int token) v e

  pub parse_value-Within :
      (raw : Text) (v : ℕ) → parse_value raw low high label names ≡ ok v → Within low high v
  unfolding parse_value
  parse_value-Within raw v e = elim (Bool-cases (is_empty (strip raw))) [
    | inl blank ↦ cc (rw blank at e)
    | inr given ↦
        value_of-Within (named (upper (strip raw)) names) (strip raw) v
          (λ n. named-Within (upper (strip raw)) names n fits) (rw given at e)
  ]

whole_step-pos : (o : Option ℤ) (label : Label) (n : ℕ) → whole_step o label ≡ ok n → 0 < n
unfolding whole_step
whole_step-pos none label n e = cc
whole_step-pos (some (pos zero)) label n e = cc
whole_step-pos (some (pos (suc m))) label n e = ground arith
whole_step-pos (some (negsuc m)) label n e = cc

-- The step of an entry is never zero.
parse_step-pos :
    (part : Text) (label : Label) (entry : Text) (step : ℕ)
    → parse_step part label ≡ ok (entry, step)
    → 0 < step
unfolding parse_step
parse_step-pos part label entry step e =
    ground (arith, whole_step-pos (to_int (partition b'/' part).1) label step)

-- What an entry says: a first and a last number within the bounds, and a step.
abbrev pub IsSpan : ℕ → ℕ → ℕ × ℕ → Type 0
IsSpan low high (start, stop) = (low ≤ start) × (start ≤ stop) × (stop ≤ high)

-- The numbers of one span at whole steps, within the bounds.
abbrev pub IsGrid : ℕ → ℕ → List ℕ → Type 0
IsGrid low high xs =
    (start : ℕ) × (stop : ℕ) × (step : ℕ) × (0 < step)
    × (low ≤ start)
    × (start ≤ stop)
    × (stop ≤ high)
    × ((v : ℕ) → contains v xs ≡ in_range start (stop + 1) step v)

-- A union of such entries.
pub data IsUnion (low high : ℕ) : List ℕ → Type 0 where
  no_entries : IsUnion low high []
  add_entry :
      (xs ys : List ℕ) → IsGrid low high xs → IsUnion low high ys → IsUnion low high (xs ++ ys)

IsGrid-Within :
    {low high : ℕ} (xs : List ℕ) (v : ℕ)
    → IsGrid low high xs
    → contains v xs ≡ true
    → Within low high v
IsGrid-Within xs v (start, stop, step, p, a, b, c, exact) m = ground (arith, exact v)

IsUnion-Within :
    {low high : ℕ} {xs : List ℕ} (v : ℕ)
    → IsUnion low high xs
    → contains v xs ≡ true
    → Within low high v
unfolding contains
IsUnion-Within v no_entries m = absurd (cc m)
IsUnion-Within v (add_entry xs ys g u) m =
    ground (arith, contains-append v xs ys, IsGrid-Within xs v g, IsUnion-Within v u)

IsGrid-member : {low high : ℕ} (xs : List ℕ) → IsGrid low high xs → is_empty xs ≡ false
unfolding contains
IsGrid-member [] (start, stop, step, p, a, b, c, exact) = ground (arith, exact start, zero-mod step)
IsGrid-member (x ∷ xs) g = refl

is_empty-append : (xs ys : List ℕ) → is_empty xs ≡ false → is_empty (xs ++ ys) ≡ false
is_empty-append [] ys h = cc
is_empty-append (x ∷ xs) ys h = refl

module _ (low high : ℕ) (label : Label) (names : Names) (ordered : low ≤ high)
    (fits : NamesWithin low high names) where
  pub entry-IsSpan :
      (part : Text) (step start stop : ℕ)
      → parse_span part step low high label names ≡ ok (start, stop)
      → IsSpan low high (start, stop)
  unfolding parse_span
  entry-IsSpan part step start stop e = ground (
    arith,
    parse_value-Within low high label names fits (partition b'-' part).0 start,
    parse_value-Within low high label names fits (partition b'-' part).1 stop,
    parse_value-Within low high label names fits part start,
  )

  stepped-IsGrid :
      (entry : Text) (step : ℕ) (xs : List ℕ)
      → 0 < step
      → (parse_span entry step low high label names >>= λ (start, stop).
          ok (range start (stop + 1) step))
        ≡ ok xs
      → IsGrid low high xs
  stepped-IsGrid entry step xs pos_step e =
      let ((start, stop), span, made) =
        >>=-eq-ok (parse_span entry step low high label names)
          (λ (start, stop). ok (range start (stop + 1) step)) e in
      let bounds = entry-IsSpan entry step start stop span in
      (
        start,
        stop,
        step,
        pos_step,
        bounds.0,
        bounds.1,
        bounds.2,
        λ v. cc (made, contains-range start (stop + 1) step v pos_step),
      )

  -- An entry that parses holds exactly the numbers of one span, at whole steps from its first.
  entry-IsGrid :
      (raw : Text) (xs : List ℕ) → parse_part raw low high label names ≡ ok xs → IsGrid low high xs
  unfolding parse_part
  entry-IsGrid raw xs e = elim (Bool-cases (is_empty (strip raw))) [
    | inl blank ↦ cc (rw blank at e)
    | inr given ↦
        let ((entry, step), stepped, made) =
          >>=-eq-ok (parse_step (strip raw) label)
            (λ (entry, step). parse_span entry step low high label names >>= λ (start, stop).
              ok (range start (stop + 1) step))
            (rw given at e) in
        stepped-IsGrid entry step xs (parse_step-pos (strip raw) label entry step stepped) made
  ]

  parse_parts-IsUnion :
      (parts : List Text) (xs : List ℕ)
      → parse_parts parts low high label names ≡ ok xs
      → IsUnion low high xs
  unfolding parse_parts
  parse_parts-IsUnion [] xs e = subst (IsUnion low high) (cc) no_entries
  parse_parts-IsUnion (part ∷ parts) xs e =
      let (values, first, others) =
        >>=-eq-ok (parse_part part low high label names)
          (λ values. parse_parts parts low high label names >>= λ rest. ok (values ++ rest)) e in
      let (rest, later, made) =
        >>=-eq-ok (parse_parts parts low high label names) (λ rest. ok (values ++ rest)) others in
      subst (IsUnion low high) (cc made) (
        add_entry values rest (entry-IsGrid part values first)
          (parse_parts-IsUnion parts rest later))

  -- For bounds in order and names within them: a field that parses is a union of entries, and not
  -- empty.
  pub parse_field-IsUnion :
      (raw : Text) (xs : List ℕ)
      → parse_field raw low high label names ≡ ok xs
      → IsUnion low high xs × (is_empty xs ≡ false)
  unfolding parse_field some_value
  parse_field-IsUnion raw xs e = elim (Bool-cases (is_empty (strip raw))) [
    | inl blank ↦ absurd (cc (rw blank at e))
    | inr given ↦
        let (values, parsed, kept) =
          >>=-eq-ok (parse_parts (split_on b',' (strip raw)) low high label names)
            (λ values. some_value values label) (rw given at e) in
        let known : (is_empty values ≡ false) × (values ≡ xs) = ground arith in
        (
          subst (IsUnion low high) known.1
              (parse_parts-IsUnion (split_on b',' (strip raw)) values parsed),
          cc (known.0, known.1),
        )
  ]

  -- Every number of a field that parses lies within the bounds.
  pub parse_field-Within :
      (raw : Text) (xs : List ℕ) (v : ℕ)
      → parse_field raw low high label names ≡ ok xs
      → contains v xs ≡ true
      → Within low high v
  parse_field-Within raw xs v e = IsUnion-Within v (parse_field-IsUnion raw xs e).0
