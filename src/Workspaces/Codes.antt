-- ===== src/Workspaces/Codes.antt =====
-- Invitation codes: `generate_invite_code` and `normalize_invite_code` of
-- backend/app/controllers/workspaces.py.
pub mod Respelled
pub mod Typed
use bolodb.Prelude.{
  ℕ, not, ◌||◌, [], ◌∷◌, ◌++◌, map, length, take, ◌==◌, if◌then◌else◌, zero, suc, List,
}
use bolodb.Text.{Text, codes, strip, is_space, upper, eq_text}

-- `text[n:]`
abbrev pub drop : ℕ → Text → Text
drop zero t = t
drop (suc n) [] = []
drop (suc n) (c ∷ t) = drop n t

-- `f"BOLO-{body[:4]}-{body[4:]}"`
unfoldable pub code_of : Text → Text
code_of body = codes "BOLO-" ++ take 4 body ++ b'-' ∷ drop 4 body

-- `_CODE_ALPHABET`
unfoldable pub code_alphabet : Text
code_alphabet = codes "0123456789ABCDEFGHJKMNPQRSTVWXYZ"

abbrev pub at_or_zero : ℕ → Text → ℕ
at_or_zero n [] = 0
at_or_zero zero (c ∷ t) = c
at_or_zero (suc n) (c ∷ t) = at_or_zero n t

-- `generate_invite_code`: the choices are those of the random source, below the length of the alphabet.
unfoldable pub generate_invite_code : List ℕ → Text
generate_invite_code choices = code_of (map (λ n. at_or_zero n code_alphabet) choices)

-- `re.sub(r"[\s-]+", "", text)`
unfoldable pub squeezed : Text → Text
squeezed [] = []
squeezed (c ∷ t) = let rest = squeezed t in if is_space c || c == b'-' then rest else c ∷ rest

unfoldable pub compact_of : Text → Text
compact_of token = upper (squeezed (strip token))

-- A code in our own format, and anything else as it was typed.
unfoldable pub canonical : Text → Text → Text
canonical compact stripped =
    if not (eq_text (take 4 compact) (codes "BOLO")) || not (length compact == 12)
    then stripped
    else code_of (drop 4 compact)

-- `normalize_invite_code`; stripping the empty text leaves it empty.
unfoldable pub normalize_invite_code : Text → Text
normalize_invite_code token = canonical (compact_of token) (strip token)
