-- ===== src/Linking/Words.antt =====
-- `re.search(r"\b" + re.escape(word) + r"\b", text)` as backend/app/schema_link.py uses it, over ASCII.
use bolodb.Prelude.{
  ℕ, Bool, false, not, ◌&&◌, ◌||◌, [], ◌∷◌, Option, none, some, leb, ◌==◌, if◌then◌else◌,
}
use bolodb.Text.{Text, is_digit}

abbrev is_word_char : ℕ → Bool
is_word_char c = (leb b'a' c && leb c b'z') || (leb b'A' c && leb c b'Z') || is_digit c || c == b'_'

abbrev in_word : Option ℕ → Bool
in_word none = false
in_word (some c) = is_word_char c

abbrev first_of : Text → Option ℕ
first_of [] = none
first_of (c ∷ t) = some c

-- `\b` between two places.
abbrev is_boundary : Option ℕ → Option ℕ → Bool
is_boundary before after = if in_word before then not (in_word after) else in_word after

-- The word, and the boundary after it; `before` is the character before the text.
unfoldable pub starts_with : Text → Option ℕ → Text → Bool
starts_with [] before text = is_boundary before (first_of text)
starts_with (w ∷ word) before [] = false
starts_with (w ∷ word) before (c ∷ text) = w == c && starts_with word (some c) text

abbrev matches_here : Text → Option ℕ → Text → Bool
matches_here word before text = is_boundary before (first_of text) && starts_with word before text

unfoldable pub search_from : Text → Option ℕ → Text → Bool
search_from word before [] = matches_here word before []
search_from word before (c ∷ text) =
    matches_here word before (c ∷ text) || search_from word (some c) text

unfoldable pub mentions : Text → Text → Bool
mentions word text = search_from word none text
