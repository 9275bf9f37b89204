-- ===== src/Linking.antt =====
-- Schema linking (backend/app/schema_link.py, `_tokens` of backend/app/utils.py): which tables the
-- language model gets to see. Sets are lists of texts, and weights are counted in halves of a point.
pub mod Stems
pub mod Words
pub mod Scores
pub mod Parents
pub mod Choice
pub mod Sorted
pub mod Reached
pub mod Bounded
mod Tests
use bolodb.Prelude.{ℕ, Bool, List, Option}
use bolodb.Text.{Text}

pub record Column : Type 0 where
  pub name : Text
  pub primary_key : Bool

-- A missing `column` or `references` is the empty text.
pub record ForeignKey : Type 0 where
  pub column : Text
  pub references : Text

pub record TableInfo : Type 0 where
  pub foreign_keys : List ForeignKey
  pub columns : List Column
  pub distinct_values : List (Text × List Text)
  pub row_count : Option ℕ

-- The tables by their names.
abbrev pub Schema : Type 0
Schema = List (Text × TableInfo)

pub record GlossaryTerm : Type 0 where
  pub term : Text
  pub maps_to : Text
  pub sql_hint : Text

pub record Synonym : Type 0 where
  pub term : Text
  pub entity_type : Text
  pub entity_name : Text

pub record ValueMap : Type 0 where
  pub business_label : Text
  pub table : Text
  pub db_value : Text

pub record Metric : Type 0 where
  pub name : Text
  pub sql_expression : Text

pub record Catalog : Type 0 where
  pub synonyms : List Synonym
  pub value_maps : List ValueMap
  pub metrics : List Metric
