-- ===== src/Cron/Field/Star.antt =====
-- `*` stands for every number of the field.
use bolodb.Prelude.{
  ℕ, ◌+◌, ◌≡◌, refl, true, List, [], ◌∷◌, ◌++◌, arith, contains, contains-append, ok,
}
use bolodb.Text.{Text, strip, split_on, eq_text, has_char}
use bolodb.Text.Equality.{eq_of_eq_text}
use bolodb.Cron.Error.{Label}
use bolodb.Cron.Range.{range, contains-range}
use bolodb.Cron.Field.{
  Names, star, parse_step, parse_span, parse_part, parse_parts, some_value, parse_field,
}
use bolodb.Cron.Field.Bounds.{Within}

module _ (low high : ℕ) (label : Label) (names : Names) where
  parse_parts-star :
      parse_parts (star ∷ []) low high label names ≡ ok (range low (high + 1) 1 ++ [])
  unfolding parse_parts parse_part parse_step parse_span strip has_char eq_text
  parse_parts-star = refl

  split_on-star : split_on b',' star ≡ star ∷ []
  unfolding split_on
  split_on-star = refl

  pub parse_field-star :
      (raw : Text) (xs : List ℕ) (v : ℕ)
      → eq_text (strip raw) star ≡ true
      → parse_field raw low high label names ≡ ok xs
      → Within low high v
      → contains v xs ≡ true
  unfolding parse_field some_value contains
  parse_field-star raw xs v is_star e within =
      let known : range low (high + 1) 1 ++ [] ≡ xs = ground (
        arith,
        rw (eq_of_eq_text (strip raw) star is_star, split_on-star, parse_parts-star) at e,
      ) in
      rw (← known) (
        ground (
          arith,
          contains-append v (range low (high + 1) 1) [],
          contains-range low (high + 1) 1 v (omega arith),
        ))
