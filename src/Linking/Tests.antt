-- ===== src/Linking/Tests.antt =====
-- The theorems about schema linking at a schema of four tables.
use bolodb.Prelude.{
  ◌+◌, ◌≤◌, ◌≡◌, ◌↔◌, refl, true, false, List, [], ◌∷◌, none, arith, length, take, filter_by,
}
use bolodb.Text.{Text, codes, partition, eq_text, lower}
use bolodb.Text.Sets.{has_text, set_of, text_before, entry_at, names}
use bolodb.Linking.{ForeignKey, TableInfo, Schema}
use bolodb.Linking.Stems.{
  tokens_from, tokens, stem_back, stem, stems, with_glossary, question_stems,
}
use bolodb.Linking.Scores.{
  catalog_signals, column_points, all_value_points, score_table, any_mentions, full_score,
}
use bolodb.Linking.Parents.{each_fk, parents_from, fk_parents}
use bolodb.Linking.Choice.{
  Request, insert_by, sort_by, score_all, scores_of, all_zero, ranked, all_parents, with_junctions,
  selection, link_relevant_tables,
}
use bolodb.Linking.Sorted.{Distinct}
use bolodb.Linking.Bounded.{link_relevant_tables-IsChoice, link_relevant_tables-Reaches}
use bolodb.Linking.Reached.{some_refers, refers, Reaches, direct, onward}
use bolodb.Linking.Reached.Exact.{fk_parents-Reaches}

abbrev orders : Text
orders = codes "orders"

abbrev clients : Text
clients = codes "clients"

abbrev regions : Text
regions = codes "regions"

abbrev info : List ForeignKey → TableInfo
info fks = record { foreign_keys = fks; columns = []; distinct_values = []; row_count = none }

abbrev fk : Text → Text → ForeignKey
fk column references = record { column = column; references = references }

-- Orders refer to clients, and clients to regions and to themselves.
abbrev shop : Schema
shop =
    (regions, info [])
    ∷ (orders, info (fk (codes "client_id") (codes "clients.id") ∷ []))
    ∷ (
      clients,
      info (
          fk (codes "region_id") (codes "regions.id")
          ∷ fk (codes "boss_id") (codes "clients.id")
          ∷ []),
    )
    ∷ (codes "logs", info [])
    ∷ []

abbrev ask : Request
ask = record {
  question = codes "How many orders?";
  glossary = [];
  retrieved = [];
  max_tables = 1;
  context_tables = [];
  catalog = none;
  boost_tables = [];
}

fk_parents-orders : fk_parents shop orders ≡ clients ∷ regions ∷ []
unfolding fk_parents parents_from each_fk has_text entry_at partition eq_text
fk_parents-orders = refl

fk_parents-Reaches_example :
    (has_text regions (fk_parents shop orders) ≡ true)
    ↔ (Reaches shop orders regions × (eq_text orders regions ≡ false))
fk_parents-Reaches_example = fk_parents-Reaches shop orders regions

ranked-ask : ranked ask shop ≡ orders ∷ clients ∷ codes "logs" ∷ regions ∷ []
unfolding ranked scores_of question_stems with_glossary stems tokens tokens_from stem stem_back
    set_of lower catalog_signals score_all full_score score_table column_points all_value_points
    any_mentions has_text entry_at all_zero sort_by insert_by names text_before eq_text filter_by
ranked-ask = refl

linked : link_relevant_tables ask shop ≡ orders ∷ clients ∷ regions ∷ []
unfolding link_relevant_tables selection with_junctions all_parents fk_parents parents_from each_fk
    partition ranked scores_of question_stems with_glossary stems tokens tokens_from stem stem_back
    set_of lower catalog_signals score_all full_score score_table column_points all_value_points
    any_mentions has_text entry_at all_zero sort_by insert_by names text_before eq_text filter_by
linked = refl

shop-Distinct : Distinct (names shop)
unfolding names has_text eq_text
shop-Distinct = (refl, (refl, (refl, (refl, tt))))

link_relevant_tables-IsChoice_example :
    (length (link_relevant_tables ask shop) ≤ 1 + 4)
    × Distinct (link_relevant_tables ask shop)
    × ((x : Text)
        → has_text x (link_relevant_tables ask shop) ≡ true
        → has_text x (names shop) ≡ true)
    × ((x : Text)
        → has_text x (take 1 (ranked ask shop)) ≡ true
        → has_text x (link_relevant_tables ask shop) ≡ true)
link_relevant_tables-IsChoice_example = link_relevant_tables-IsChoice ask shop shop-Distinct

few : length (filter_by (λ t. has_text t (selection ask shop)) (ranked ask shop)) ≤ 1 + 4
unfolding selection with_junctions all_parents fk_parents parents_from each_fk partition ranked
    scores_of question_stems with_glossary stems tokens tokens_from stem stem_back set_of lower
    catalog_signals score_all full_score score_table column_points all_value_points any_mentions
    has_text entry_at all_zero sort_by insert_by names text_before eq_text filter_by
few = omega arith

seed : has_text orders (take 1 (ranked ask shop)) ≡ true
unfolding ranked scores_of question_stems with_glossary stems tokens tokens_from stem stem_back
    set_of lower catalog_signals score_all full_score score_table column_points all_value_points
    any_mentions has_text entry_at all_zero sort_by insert_by names text_before eq_text filter_by
seed = refl

chain : Reaches shop orders regions
unfolding refers some_refers entry_at partition eq_text
chain = onward {u = clients} (direct refl) refl

link_relevant_tables-Reaches_example : has_text regions (link_relevant_tables ask shop) ≡ true
link_relevant_tables-Reaches_example =
    link_relevant_tables-Reaches ask shop orders regions few seed chain
