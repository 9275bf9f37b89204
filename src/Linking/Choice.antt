-- ===== src/Linking/Choice.antt =====
-- `link_relevant_tables` and `expand_linked_tables` of backend/app/schema_link.py. The tables that a
-- statement names are the parsing package's to find and stand as an argument.
use bolodb.Prelude.{
  ℕ, ◌+◌, Bool, true, not, ◌&&◌, ◌||◌, List, [], ◌∷◌, ◌++◌, Option, none, some, map, length, take,
  filter_by, is_empty, get_or, leb, ltb, ◌==◌, if◌then◌else◌,
}
use bolodb.Text.{Text, lower}
use bolodb.Text.Sets.{has_text, union, common, text_before, entry_at, names}
use bolodb.Linking.{TableInfo, Schema, GlossaryTerm, Catalog}
use bolodb.Linking.Stems.{question_stems}
use bolodb.Linking.Scores.{lower_names, catalog_signals, full_score}
use bolodb.Linking.Parents.{fk_parents}

module _ {A : Type 0} (less : A → A → Bool) where
  -- Behind the entries that are less.
  unfoldable pub insert_by : A → List A → List A
  insert_by a [] = a ∷ []
  insert_by a (b ∷ rest) =
      let later = insert_by a rest in if less b a then b ∷ later else a ∷ b ∷ rest

  -- `sorted`, which is stable.
  unfoldable pub sort_by : List A → List A
  sort_by [] = []
  sort_by (a ∷ rest) = insert_by a (sort_by rest)

-- What the choice is made from.
pub record Request : Type 0 where
  pub question : Text
  pub glossary : List GlossaryTerm
  pub retrieved : List Text
  pub max_tables : ℕ
  pub context_tables : List Text
  pub catalog : Option Catalog
  pub boost_tables : List Text

abbrev pub fk_extra_slots : ℕ
fk_extra_slots = 4

unfoldable pub score_all : List Text → List Text → Request → Schema → List (Text × ℕ)
score_all q boost r [] = []
score_all q boost r ((t, info) ∷ schema) =
    (t, full_score q r.retrieved r.context_tables boost r.boost_tables t info)
    ∷ score_all q boost r schema

-- `scores`
unfoldable pub scores_of : Request → Schema → List (Text × ℕ)
scores_of r schema =
    let asked = question_stems r.question r.glossary in
    let signals = catalog_signals asked r.catalog (names schema) in
    score_all (union asked signals.extra) signals.boost r schema

abbrev score_at : List (Text × ℕ) → Text → ℕ
score_at scores t = get_or (entry_at t scores) 0

-- `(-scores[t], t)`
abbrev pub better : List (Text × ℕ) → Text → Text → Bool
better scores s t =
    ltb (score_at scores t) (score_at scores s)
    || (score_at scores s == score_at scores t && text_before s t)

abbrev rows_of : Option TableInfo → ℕ
rows_of none = 0
rows_of (some info) = get_or info.row_count 0

abbrev pub larger : Schema → Text → Text → Bool
larger schema s t = ltb (rows_of (entry_at t schema)) (rows_of (entry_at s schema))

unfoldable pub all_zero : List (Text × ℕ) → Bool
all_zero [] = true
all_zero ((t, score) ∷ rest) = score == 0 && all_zero rest

-- The tables, the most relevant first; the largest first where nothing matches.
unfoldable pub ranked : Request → Schema → List Text
ranked r schema =
    let scores = scores_of r schema in
    if all_zero scores
    then sort_by (larger schema) (names schema)
    else sort_by (better scores) (names schema)

unfoldable pub all_parents : Schema → List Text → List Text
all_parents schema [] = []
all_parents schema (t ∷ tables) = fk_parents schema t ++ all_parents schema tables

-- The loop that adds the junction tables.
unfoldable pub with_junctions : Schema → List Text → List Text → List Text
with_junctions schema [] selected = selected
with_junctions schema (t ∷ tables) selected = with_junctions schema tables (
    if has_text t selected || not (leb 2 (length (common selected (fk_parents schema t))))
    then selected
    else t ∷ selected)

-- `selected`
unfoldable pub selection : Request → Schema → List Text
selection r schema =
    let seeds = take r.max_tables (ranked r schema) in
    with_junctions schema (names schema) (seeds ++ all_parents schema seeds)

-- `link_relevant_tables`
unfoldable pub link_relevant_tables : Request → Schema → List Text
link_relevant_tables r schema =
    if leb (length (names schema)) r.max_tables
    then names schema
    else take (r.max_tables + fk_extra_slots)
        (filter_by (λ t. has_text t (selection r schema)) (ranked r schema))

-- The tables added so far, and the lower-case names that are there.
pub record Added : Type 0 where
  pub added : List Text
  pub have : List Text

abbrev add_table : Text → Added → Added
add_table t a =
    if has_text (lower t) a.have
    then a
    else record { added = a.added ++ t ∷ []; have = lower t ∷ a.have }

abbrev add_real : Option Text → Added → Added
add_real none a = a
add_real (some t) a = if is_empty t then a else add_table t a

-- The tables of the statement that the schema has.
unfoldable pub add_referenced : List (Text × Text) → List Text → Added → Added
add_referenced by_lower [] a = a
add_referenced by_lower (name ∷ referenced) a =
    add_referenced by_lower referenced (add_real (entry_at (lower name) by_lower) a)

unfoldable pub add_all : List Text → Added → Added
add_all [] a = a
add_all (t ∷ tables) a = add_all tables (add_table t a)

unfoldable pub add_parents : Schema → List Text → Added → Added
add_parents schema [] a = a
add_parents schema (t ∷ tables) a = add_parents schema tables (add_all (fk_parents schema t) a)

-- `expand_linked_tables`; `referenced` is what `extract_table_names_from_prev_query` finds.
unfoldable pub expand_linked_tables : Schema → List Text → List Text → List Text
expand_linked_tables schema tables referenced =
    let real =
      add_referenced (lower_names (names schema) []) referenced
        (record { added = []; have = map lower tables }) in
    (add_parents schema real.added real).added
