-- ===== src/Cron/Field/Written.antt =====
-- What an entry of a field writes, as the forms of its text say, against what the parser makes of it.
use bolodb.Prelude.{
  ℕ, zero, suc, ◌+◌, ◌≤◌, ◌<◌, ◌≡◌, ◌↔◌, ◌∙◌, ap, refl, sym, true, false, List, Option, none, some,
  inl, inr, arith, is_empty, Result, ok, ◌>>=◌, >>=-eq-ok, Bool-cases, contains,
}
use bolodb.Prelude.Int.{ℤ, pos, negsuc}
use bolodb.Text.{Text, strip, partition, has_char}
use bolodb.Text.Number.{to_int}
use bolodb.Cron.Error.{CronError, Label}
use bolodb.Cron.Range.{range, in_range, contains-range}
use bolodb.Cron.Field.{Names, whole_step, parse_step, parse_span, parse_part}
use bolodb.Cron.Field.Bounds.{NamesWithin, entry-IsSpan}
use bolodb.Cron.Field.Spans.{WritesSpan, parse_span-WritesSpan, WritesSpan-parse_span}

-- The span and the step that an entry writes: a span, a slash and a step, or the span alone.
pub data WritesEntry (low high : ℕ) (names : Names) (t : Text) (step start stop : ℕ) : Type 0 where
  with_step :
      has_char b'/' t ≡ true
      → to_int (partition b'/' t).1 ≡ some (pos step)
      → 0 < step
      → WritesSpan low high names (strip (partition b'/' t).0) step start stop
      → WritesEntry low high names t step start stop
  without_step :
      has_char b'/' t ≡ false
      → step ≡ 1
      → WritesSpan low high names t step start stop
      → WritesEntry low high names t step start stop

-- The entry is not blank, and the numbers are those of what it writes, within the bounds.
abbrev pub IsEntry : ℕ → ℕ → Names → Text → List ℕ → Type 0
IsEntry low high names t xs =
    (is_empty t ≡ false)
    × (start : ℕ) × (stop : ℕ) × (step : ℕ) × WritesEntry low high names t step start stop
    × (low ≤ start)
    × (start ≤ stop)
    × (stop ≤ high)
    × (xs ≡ range start (stop + 1) step)
    × ((v : ℕ) → contains v xs ≡ in_range start (stop + 1) step v)

whole_step-pos :
    (o : Option ℤ) (label : Label) (n : ℕ)
    → whole_step o label ≡ ok n
    → (o ≡ some (pos n)) × (0 < n)
unfolding whole_step
whole_step-pos none label n e = absurd (cc e)
whole_step-pos (some (pos zero)) label n e = absurd (cc e)
whole_step-pos (some (pos (suc m))) label n e =
    let same : suc m ≡ n = cc e in rw (sym same) (refl, omega arith)
whole_step-pos (some (negsuc m)) label n e = absurd (cc e)

abbrev stepped_as : Text → ℕ → Result CronError (Text × ℕ)
stepped_as t step = ok (strip (partition b'/' t).0, step)

pos-whole_step : (label : Label) (n : ℕ) → 0 < n → whole_step (some (pos n)) label ≡ ok n
unfolding whole_step
pos-whole_step label zero p = absurd (omega (arith, p))
pos-whole_step label (suc n) p = refl

module _ (low high : ℕ) (label : Label) (names : Names) where
  abbrev span_of : Text × ℕ → Result CronError (List ℕ)
  span_of (entry, step) = parse_span entry step low high label names >>= λ (start, stop).
      ok (range start (stop + 1) step)

  -- What the parser makes of an entry, with its step, is what the entry writes.
  parse_step-WritesEntry :
      (t entry : Text) (step start stop : ℕ)
      → parse_step t label ≡ ok (entry, step)
      → parse_span entry step low high label names ≡ ok (start, stop)
      → (0 < step) × WritesEntry low high names t step start stop
  unfolding parse_step
  parse_step-WritesEntry t entry step start stop e span = elim (Bool-cases (has_char b'/' t)) [
    | inr plain ↦
        let both : Path (Result CronError (Text × ℕ)) (ok (t, 1)) (ok (entry, step)) =
          rw plain at e in
        let same : t ≡ entry = cc both in
        let one : step ≡ 1 = cc both in
        (
          omega (arith, one),
          without_step plain one
              (parse_span-WritesSpan low high label names t step start stop (cc (span, same))),
        )
    | inl slash ↦
        let (n, whole, made) =
          >>=-eq-ok (whole_step (to_int (partition b'/' t).1) label) (stepped_as t)
            (rw slash at e) in
        let both : Path (Result CronError (Text × ℕ)) (ok (strip (partition b'/' t).0, n))
            (ok (entry, step)) =
          made in
        let same : strip (partition b'/' t).0 ≡ entry = cc both in
        let this : n ≡ step = cc both in
        let (number, positive) =
          whole_step-pos (to_int (partition b'/' t).1) label step (cc (whole, this)) in
        (
          positive,
          with_step slash number positive (
              parse_span-WritesSpan low high label names (strip (partition b'/' t).0) step start
                stop (cc (span, same))),
        )
  ]

  -- The parser takes an entry as it is written.
  WritesEntry-span_of :
      (t : Text) (step start stop : ℕ)
      → WritesEntry low high names t step start stop
      → (parse_step t label >>= span_of) ≡ ok (range start (stop + 1) step)
  unfolding parse_step
  WritesEntry-span_of t step start stop (without_step plain one span) =
      rw (plain, sym one, WritesSpan-parse_span low high label names t step start stop span) refl
  WritesEntry-span_of t step start stop (with_step slash number positive span) =
      rw
        (
          slash,
          number,
          pos-whole_step label step positive,
          WritesSpan-parse_span low high label names (strip (partition b'/' t).0) step start stop
              span,
        )
        refl

module _ (low high : ℕ) (label : Label) (names : Names) (ordered : low ≤ high)
    (fits : NamesWithin low high names) where
  written :
      (t : Text) (xs : List ℕ)
      → is_empty t ≡ false
      → (parse_step t label >>= span_of low high label names) ≡ ok xs
      → IsEntry low high names t xs
  written t xs given e =
      let ((entry, step), stepped, e1) =
        >>=-eq-ok (parse_step t label) (span_of low high label names) e in
      let ((start, stop), span, made) =
        >>=-eq-ok (parse_span entry step low high label names)
          (λ (start, stop). ok (range start (stop + 1) step)) e1 in
      let (positive, writes) =
        parse_step-WritesEntry low high label names t entry step start stop stepped span in
      let (a, b, c) = entry-IsSpan low high label names ordered fits entry step start stop span in
      let same : range start (stop + 1) step ≡ xs = cc made in
      (
        given,
        start,
        stop,
        step,
        writes,
        a,
        b,
        c,
        sym same,
        λ v. cc (same, contains-range start (stop + 1) step v positive),
      )

  -- For bounds in order and names within them: an entry parses to a list exactly when, read without
  -- the white space around it, it writes a span and a step whose numbers the list holds. A span is a
  -- star, which stands for the whole field, two values in order with a hyphen between them, or one
  -- value, which stands for itself, and with a step above 1 for all from it on; a step is a whole
  -- number above 0, and 1 if there is none; a value is a name, or else a whole number within the
  -- bounds. The numbers are those from the first on at whole steps up to the last, and both lie within
  -- the bounds.
  pub parse_part-IsGrid :
      (raw : Text) (xs : List ℕ)
      → (parse_part raw low high label names ≡ ok xs) ↔ IsEntry low high names (strip raw) xs
  unfolding parse_part
  parse_part-IsGrid raw xs = elim (Bool-cases (is_empty (strip raw))) [
    | inl blank ↦ (λ e. absurd (cc (rw blank at e)), λ w. absurd (cc (w.0, blank)))
    | inr given ↦ (
      λ e. written (strip raw) xs given (rw given at e),
      λ (filled, start, stop, step, writes, a, b, c, same, members). rw given (
          WritesEntry-span_of low high label names (strip raw) step start stop writes
          ∙ ap ok (sym same)),
    )
  ]
