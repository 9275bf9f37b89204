-- ===== src/Linking/Scores.antt =====
-- `_catalog_signals`, `_score_table` and `_tables_in_verified_sql` of backend/app/schema_link.py. A point
-- counts 2, so that the weight 1.5 counts 3.
use bolodb.Prelude.{
  ℕ, ◌+◌, ◌*◌, min, Bool, false, not, ◌&&◌, ◌||◌, List, [], ◌∷◌, Option, none, some, map, length,
  is_empty, is_none, if◌then◌else◌,
}
use bolodb.Text.{Text, codes, lower, eq_text}
use bolodb.Text.Sets.{has_text, union, common, entry_at, put_entry}
use bolodb.Linking.{Column, ForeignKey, TableInfo, Synonym, ValueMap, Metric, Catalog}
use bolodb.Linking.Stems.{stems, meets}
use bolodb.Linking.Words.{mentions}

-- `{t.lower(): t for t in all_tables}`
unfoldable pub lower_names : List Text → List (Text × Text) → List (Text × Text)
lower_names [] found = found
lower_names (t ∷ tables) found = lower_names tables (put_entry (lower t) t found)

-- The stems to add, and the tables to score up.
pub record Signals : Type 0 where
  pub extra : List Text
  pub boost : List Text

abbrev boosted : Option Text → Signals → Signals
boosted none g = g
boosted (some t) g = record g { boost = union g.boost (t ∷ []) }

abbrev with_extra : Text → Signals → Signals
with_extra text g = record g { extra = union g.extra (stems text) }

-- A synonym of a table that is there boosts it; any other adds the stems of its entity.
abbrev named_entity : List (Text × Text) → Synonym → Signals → Signals
named_entity lower_tables s g =
    if eq_text s.entity_type (codes "table")
      && not (is_none (entry_at (lower s.entity_name) lower_tables))
    then boosted (entry_at (lower s.entity_name) lower_tables) g
    else with_extra s.entity_name g

unfoldable pub synonym_signals : List Text → List (Text × Text) → List Synonym → Signals → Signals
synonym_signals q lower_tables [] g = g
synonym_signals q lower_tables (s ∷ rest) g =
    synonym_signals q lower_tables rest
      (if meets q (stems s.term) then named_entity lower_tables s g else g)

unfoldable pub value_signals : List Text → List (Text × Text) → List ValueMap → Signals → Signals
value_signals q lower_tables [] g = g
value_signals q lower_tables (v ∷ rest) g = value_signals q lower_tables rest (
    if meets q (stems v.business_label)
    then with_extra v.db_value (boosted (entry_at (lower v.table) lower_tables) g)
    else g)

-- The tables that the expression of a metric mentions.
unfoldable pub mentioned : Text → List (Text × Text) → Signals → Signals
mentioned expression [] g = g
mentioned expression ((low, t) ∷ rest) g =
    mentioned expression rest (if mentions low expression then boosted (some t) g else g)

unfoldable pub metric_signals : List Text → List (Text × Text) → List Metric → Signals → Signals
metric_signals q lower_tables [] g = g
metric_signals q lower_tables (m ∷ rest) g = metric_signals q lower_tables rest (
    if meets q (stems m.name)
    then with_extra m.sql_expression (mentioned (lower m.sql_expression) lower_tables g)
    else g)

abbrev no_signals : Signals
no_signals = record { extra = []; boost = [] }

-- `_catalog_signals`
unfoldable pub catalog_signals : List Text → Option Catalog → List Text → Signals
catalog_signals q none all_tables = no_signals
catalog_signals q (some c) all_tables =
    let lower_tables = lower_names all_tables [] in
    metric_signals q lower_tables c.metrics (
      value_signals q lower_tables c.value_maps
        (synonym_signals q lower_tables c.synonyms no_signals))

-- `len(q_stems & _stems(text))`
abbrev overlap : List Text → Text → ℕ
overlap q text = length (common q (stems text))

unfoldable pub has_fk_column : Text → List ForeignKey → Bool
has_fk_column column [] = false
has_fk_column column (fk ∷ fks) =
    (not (is_empty fk.column) && eq_text fk.column column) || has_fk_column column fks

unfoldable pub column_points : List Text → List ForeignKey → List Column → ℕ
column_points q fks [] = 0
column_points q fks (col ∷ columns) =
    (if col.primary_key || has_fk_column col.name fks then 3 else 2) * overlap q col.name
    + column_points q fks columns

unfoldable pub value_points : List Text → List Text → ℕ
value_points q [] = 0
value_points q (v ∷ values) = (if meets q (stems v) then 4 else 0) + value_points q values

unfoldable pub all_value_points : List Text → List (Text × List Text) → ℕ
all_value_points q [] = 0
all_value_points q ((column, values) ∷ rest) = value_points q values + all_value_points q rest

-- `_score_table`
unfoldable pub score_table : Text → TableInfo → List Text → ℕ
score_table name info q =
    6 * overlap q name
    + min (column_points q info.foreign_keys info.columns) 8
    + min (all_value_points q info.distinct_values) 8

-- Whether one of the answers mentions the table.
unfoldable pub any_mentions : Text → List Text → Bool
any_mentions word [] = false
any_mentions word (sql ∷ rest) = mentions word (lower sql) || any_mentions word rest

-- `t in _tables_in_verified_sql(all_tables, retrieved)`
abbrev in_verified_sql : List Text → Text → Bool
in_verified_sql retrieved t = any_mentions (lower t) retrieved

abbrev points : Bool → ℕ → ℕ
points hit n = if hit then n else 0

-- What `link_relevant_tables` adds to the score of a table.
unfoldable pub full_score :
    List Text → List Text → List Text → List Text → List Text → Text → TableInfo → ℕ
full_score q retrieved context boost shortlist t info =
    score_table t info q
    + points (in_verified_sql retrieved t) 10
    + points (has_text (lower t) (map lower context)) 16
    + points (has_text t boost) 12
    + points (has_text (lower t) (map lower shortlist)) 12
