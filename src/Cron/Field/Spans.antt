-- ===== src/Cron/Field/Spans.antt =====
-- What an entry without its step writes, as the forms of its text say, and that the parser reads exactly
-- that.
use bolodb.Prelude.{
  ℕ, ◌≤◌, ◌<◌, ◌≡◌, ◌⊎◌, refl, sym, true, false, Option, none, some, inl, inr, arith, is_empty, leb,
  ltb, ◌&&◌, if◌then◌else◌, Result, ok, err, ◌>>=◌, >>=-eq-ok, Bool-cases,
}
use bolodb.Prelude.Int.{ℤ, pos, negsuc}
use bolodb.Text.{Text, strip, upper, partition, has_char, eq_text}
use bolodb.Text.Equality.{eq_of_eq_text}
use bolodb.Text.Number.{to_int}
use bolodb.Cron.Error.{CronError, Label, runs_backwards}
use bolodb.Cron.Field.{
  Names, named, star, in_bounds, whole_value, value_of, parse_value, parse_span,
}
use bolodb.Cron.Field.Bounds.{Within}

-- The value that a text writes: a name, or a whole number within the bounds.
abbrev pub Writes : ℕ → ℕ → Names → Text → ℕ → Type 0
Writes low high names raw v =
    (is_empty (strip raw) ≡ false)
    × ((named (upper (strip raw)) names ≡ some v)
        ⊎ (named (upper (strip raw)) names ≡ none)
          × (to_int (strip raw) ≡ some (pos v))
          × Within low high v)

-- The first and the last number that an entry without its step writes: a star all of the field, a hyphen
-- the numbers from one to another one, and one number itself, or all from it on where there is a step.
pub data WritesSpan (low high : ℕ) (names : Names) (t : Text) (step start stop : ℕ) : Type 0 where
  everything : t ≡ star → start ≡ low → stop ≡ high → WritesSpan low high names t step start stop
  between :
      eq_text t star ≡ false
      → has_char b'-' t ≡ true
      → Writes low high names (partition b'-' t).0 start
      → Writes low high names (partition b'-' t).1 stop
      → start ≤ stop
      → WritesSpan low high names t step start stop
  only :
      eq_text t star ≡ false
      → has_char b'-' t ≡ false
      → Writes low high names t start
      → step ≤ 1
      → stop ≡ start
      → WritesSpan low high names t step start stop
  from_on :
      eq_text t star ≡ false
      → has_char b'-' t ≡ false
      → Writes low high names t start
      → 1 < step
      → stop ≡ high
      → WritesSpan low high names t step start stop

abbrev pair_of : Label → ℕ → ℕ → Result CronError (ℕ × ℕ)
pair_of label a z = if ltb z a then err (runs_backwards label) else ok (a, z)

abbrev span_from : ℕ → ℕ → ℕ → Result CronError (ℕ × ℕ)
span_from high step a = ok (a, if ltb 1 step then high else a)

module _ (low high : ℕ) (label : Label) (names : Names) where
  in_bounds-Writes :
      (z : ℤ) (v : ℕ) → in_bounds z low high label ≡ ok v → (z ≡ pos v) × Within low high v
  unfolding in_bounds
  in_bounds-Writes (pos n) v e = elim (Bool-cases (leb low n && leb n high)) [
    | inl inside ↦
        let same : n ≡ v = cc (rw inside at e) in rw (sym same) (refl, ground (arith, inside))
    | inr outside ↦ absurd (cc (rw outside at e))
  ]
  in_bounds-Writes (negsuc n) v e = absurd (cc e)

  value_of-Writes :
      (o : Option ℕ) (z : Option ℤ) (token : Text) (v : ℕ)
      → to_int token ≡ z
      → value_of o token low high label ≡ ok v
      → (o ≡ some v) ⊎ (o ≡ none) × (z ≡ some (pos v)) × Within low high v
  unfolding value_of whole_value
  value_of-Writes (some n) z token v h e = inl (cc e)
  value_of-Writes none none token v h e = absurd (cc (rw h at e))
  value_of-Writes none (some z) token v h e =
      let (same, inside) = in_bounds-Writes z v (rw h at e) in inr (refl, cc same, inside)

  parse_value-Writes :
      (raw : Text) (v : ℕ)
      → parse_value raw low high label names ≡ ok v
      → Writes low high names raw v
  unfolding parse_value
  parse_value-Writes raw v e = elim (Bool-cases (is_empty (strip raw))) [
    | inl blank ↦ absurd (cc (rw blank at e))
    | inr given ↦ (
      given,
      value_of-Writes (named (upper (strip raw)) names) (to_int (strip raw)) (strip raw) v refl
          (rw given at e),
    )
  ]

  -- What a text writes is its value.
  Writes-parse_value :
      (raw : Text) (v : ℕ)
      → Writes low high names raw v
      → parse_value raw low high label names ≡ ok v
  unfolding parse_value value_of whole_value in_bounds
  Writes-parse_value raw v (given, inl name) = rw (given, name) refl
  Writes-parse_value raw v (given, inr (no_name, number, inside)) =
      rw (given, no_name, number) (ground (arith, inside))

  pub parse_span-WritesSpan :
      (t : Text) (step start stop : ℕ)
      → parse_span t step low high label names ≡ ok (start, stop)
      → WritesSpan low high names t step start stop
  unfolding parse_span
  parse_span-WritesSpan t step start stop e = elim (Bool-cases (eq_text t star)) [
    | inl stars ↦
        let both : Path (Result CronError (ℕ × ℕ)) (ok (low, high)) (ok (start, stop)) =
          rw stars at e in
        everything (eq_of_eq_text t star stars) (cc both) (cc both)
    | inr other ↦ elim (Bool-cases (has_char b'-' t)) [
      | inl dash ↦ dashed other dash (rw (other, dash) at e)
      | inr single ↦ alone other single (rw (other, single) at e)
    ]
  ]
    where
      dashed :
          eq_text t star ≡ false
          → has_char b'-' t ≡ true
          → (parse_value (partition b'-' t).0 low high label names >>= λ a.
              parse_value (partition b'-' t).1 low high label names >>= λ z. pair_of label a z)
            ≡ ok (start, stop)
          → WritesSpan low high names t step start stop
      dashed other dash k =
          let (a, first, k1) =
            >>=-eq-ok (parse_value (partition b'-' t).0 low high label names) _ k in
          let (z, last, k2) =
            >>=-eq-ok (parse_value (partition b'-' t).1 low high label names) _ k1 in
          elim (Bool-cases (ltb z a)) [
            | inl back ↦ absurd (cc (rw back at k2))
            | inr forth ↦
                let both : Path (Result CronError (ℕ × ℕ)) (ok (a, z)) (ok (start, stop)) =
                  rw forth at k2 in
                let here : a ≡ start = cc both in
                let there : z ≡ stop = cc both in
                between other dash
                  (parse_value-Writes (partition b'-' t).0 start (cc (first, here)))
                  (parse_value-Writes (partition b'-' t).1 stop (cc (last, there)))
                  (ground (arith, forth, here, there))
          ]

      alone :
          eq_text t star ≡ false
          → has_char b'-' t ≡ false
          → (parse_value t low high label names >>= λ a. span_from high step a) ≡ ok (start, stop)
          → WritesSpan low high names t step start stop
      alone other single k =
          let (a, value, k1) = >>=-eq-ok (parse_value t low high label names) _ k in
          let here : a ≡ start = cc k1 in
          elim (Bool-cases (ltb 1 step)) [
            | inl steps ↦
                let both : Path (Result CronError (ℕ × ℕ)) (ok (a, high)) (ok (start, stop)) =
                  rw steps at k1 in
                from_on other single (parse_value-Writes t start (cc (value, here)))
                  (ground (arith, steps)) (cc both)
            | inr one ↦
                let both : Path (Result CronError (ℕ × ℕ)) (ok (a, a)) (ok (start, stop)) =
                  rw one at k1 in
                only other single (parse_value-Writes t start (cc (value, here)))
                  (ground (arith, one)) (cc both)
          ]

  pub WritesSpan-parse_span :
      (t : Text) (step start stop : ℕ)
      → WritesSpan low high names t step start stop
      → parse_span t step low high label names ≡ ok (start, stop)
  unfolding parse_span eq_text
  WritesSpan-parse_span t step start stop (everything e a z) = rw (e, a, z) refl
  WritesSpan-parse_span t step start stop (between other dash first last le) =
      let forth : ltb stop start ≡ false = ground (arith, le) in
      rw
        (
          other,
          dash,
          Writes-parse_value (partition b'-' t).0 start first,
          Writes-parse_value (partition b'-' t).1 stop last,
          forth,
        )
        refl
  WritesSpan-parse_span t step start stop (only other single value le same) =
      let one : ltb 1 step ≡ false = ground (arith, le) in
      rw (other, single, Writes-parse_value t start value, one, same) refl
  WritesSpan-parse_span t step start stop (from_on other single value lt same) =
      let steps : ltb 1 step ≡ true = ground (arith, lt) in
      rw (other, single, Writes-parse_value t start value, steps, same) refl
