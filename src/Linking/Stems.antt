-- ===== src/Linking/Stems.antt =====
-- `_tokens` of backend/app/utils.py; `_stem`, `_stems` and `_question_stems` of
-- backend/app/schema_link.py.
use mathlib.Core.List.{reverse}
use bolodb.Prelude.{
  ℕ, Bool, not, ◌&&◌, ◌||◌, List, [], ◌∷◌, map, length, is_empty, ltb, leb, ◌==◌, if◌then◌else◌,
}
use bolodb.Text.{Text, lower, is_digit}
use bolodb.Text.Sets.{set_of, union, common}
use bolodb.Linking.{GlossaryTerm}

abbrev is_token_char : ℕ → Bool
is_token_char c = (leb b'a' c && leb c b'z') || is_digit c

-- A token that has been read, last character first; tokens of one character are left out.
abbrev keep_token : Text → List Text → List Text
keep_token token rest = if ltb 1 (length token) then reverse token ∷ rest else rest

unfoldable pub tokens_from : Text → Text → List Text
tokens_from token [] = keep_token token []
tokens_from token (c ∷ t) =
    let go_on = tokens_from (c ∷ token) t in
    let cut = keep_token token (tokens_from [] t) in if is_token_char c then go_on else cut

-- `_tokens`
unfoldable pub tokens : Text → List Text
tokens text = set_of (tokens_from [] (lower text))

-- The last characters are read from the reversed token: `ies` becomes `y`, and a single `s` goes.
unfoldable pub stem_back : Text → Text
stem_back (c ∷ d ∷ e ∷ rest) =
    if c == b's' && d == b'e' && e == b'i'
    then b'y' ∷ rest
    else if c == b's' && not (d == b's')
    then d ∷ e ∷ rest
    else c ∷ d ∷ e ∷ rest
stem_back token = token

-- `_stem`
unfoldable pub stem : Text → Text
stem token = if ltb 3 (length token) then reverse (stem_back (reverse token)) else token

-- `_stems`
unfoldable pub stems : Text → List Text
stems text = set_of (map stem (tokens text))

-- `xs & ys` is not empty.
abbrev pub meets : List Text → List Text → Bool
meets xs ys = not (is_empty (common xs ys))

-- `_question_stems`: the loop over the glossary.
unfoldable pub with_glossary : List Text → List GlossaryTerm → List Text
with_glossary q [] = q
with_glossary q (g ∷ glossary) =
    let more = with_glossary (union q (union (stems g.maps_to) (stems g.sql_hint))) glossary in
    let same = with_glossary q glossary in if meets q (stems g.term) then more else same

unfoldable pub question_stems : Text → List GlossaryTerm → List Text
question_stems question glossary = with_glossary (stems question) glossary
