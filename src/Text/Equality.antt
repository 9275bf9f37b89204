-- ===== src/Text/Equality.antt =====
-- `s == t` on texts.
use bolodb.Prelude.{◌≡◌, refl, true, [], ◌∷◌, arith}
use bolodb.Text.{Text, eq_text}

pub eq_of_eq_text : (s t : Text) → eq_text s t ≡ true → s ≡ t
unfolding eq_text
eq_of_eq_text [] [] h = refl
eq_of_eq_text [] (d ∷ t) h = cc
eq_of_eq_text (c ∷ s) [] h = cc
eq_of_eq_text (c ∷ s) (d ∷ t) h = ground (arith, eq_of_eq_text s t)
