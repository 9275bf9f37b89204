-- ===== src/Text.antt =====
-- Python's `str` as a list of code points: the methods that the parsers use. Case and digits are
-- those of ASCII.
pub mod Number
pub mod Equality
pub mod Sets
use Prim.Native.Char.{code}
use mathlib.Core.List.{reverse}
use bolodb.Prelude.{
  ℕ, ◌+◌, ◌-◌, ◌≡◌, refl, Bool, true, false, ◌&&◌, ◌||◌, List, [], ◌∷◌, ◌++◌, map, leb, ◌==◌,
  String, is_empty, if◌then◌else◌,
}

abbrev pub Text : Type 0
Text = List ℕ

-- A literal.
abbrev pub codes : String → Text
codes String.[] = []
codes (String.◌∷◌ c s) = code c ∷ codes s

-- `str.isspace` of one character.
unfoldable pub is_space : ℕ → Bool
is_space c =
    (leb 9 c && leb c 13)
    || (leb 28 c && leb c 32)
    || c == 0x85
    || c == 0xa0
    || c == 0x1680
    || (leb 0x2000 c && leb c 0x200a)
    || c == 0x2028
    || c == 0x2029
    || c == 0x202f
    || c == 0x205f
    || c == 0x3000

abbrev pub is_digit : ℕ → Bool
is_digit c = leb b'0' c && leb c b'9'

unfoldable pub lstrip : Text → Text
unfolding is_space
lstrip [] = []
lstrip (c ∷ s) = let rest = lstrip s in if is_space c then rest else c ∷ s

-- `s.strip()`
unfoldable pub strip : Text → Text
unfolding lstrip
strip s = reverse (lstrip (reverse (lstrip s)))

-- A word that has been read, most recent character first, put before the others.
abbrev add_word : Text → List Text → List Text
add_word [] words = words
add_word (c ∷ s) words = reverse (c ∷ s) ∷ words

split_from : Text → Text → List Text
split_from word [] = add_word word []
split_from word (c ∷ s) =
    let split_here = add_word word (split_from [] s) in
    let go_on = split_from (c ∷ word) s in if is_space c then split_here else go_on

-- `s.split()`
unfoldable pub split : Text → List Text
unfolding split_from is_space
split = split_from []

split_on_from : ℕ → Text → Text → List Text
split_on_from sep word [] = reverse word ∷ []
split_on_from sep word (c ∷ s) =
    let split_here = reverse word ∷ split_on_from sep [] s in
    let go_on = split_on_from sep (c ∷ word) s in if c == sep then split_here else go_on

-- `s.split(sep)`, for one character; never empty.
unfoldable pub split_on : ℕ → Text → List Text
unfolding split_on_from
split_on sep = split_on_from sep []

-- `sep in s`, for one character.
unfoldable pub has_char : ℕ → Text → Bool
has_char c [] = false
has_char c (d ∷ s) = d == c || has_char c s

-- `s.partition(sep)`, without the separator.
unfoldable pub partition : ℕ → Text → Text × Text
partition sep [] = ([], [])
partition sep (c ∷ s) =
    let (before, after) = partition sep s in if c == sep then ([], s) else (c ∷ before, after)

-- `" ".join(words)`
unfoldable pub join_space : List Text → Text
join_space [] = []
join_space (w ∷ []) = w
join_space (w ∷ v ∷ ws) = w ++ b' ' ∷ join_space (v ∷ ws)

abbrev pub upper_code : ℕ → ℕ
upper_code c = if leb b'a' c && leb c b'z' then c - 32 else c

-- `s.upper()`
unfoldable pub upper : Text → Text
upper = map upper_code

abbrev lower_code : ℕ → ℕ
lower_code c = if leb b'A' c && leb c b'Z' then c + 32 else c

-- `s.lower()`
unfoldable pub lower : Text → Text
lower = map lower_code

-- `s == t`
unfoldable pub eq_text : Text → Text → Bool
eq_text [] [] = true
eq_text (c ∷ s) (d ∷ t) = c == d && eq_text s t
eq_text _ _ = false

all_digits : Text → Bool
all_digits [] = true
all_digits (c ∷ s) = is_digit c && all_digits s

-- `s.isdigit()`
unfoldable pub is_digits : Text → Bool
unfolding all_digits
is_digits [] = false
is_digits (c ∷ s) = all_digits (c ∷ s)
