-- ===== src/Linking/Parents.antt =====
-- `_fk_parents` of backend/app/schema_link.py. The set `seen`, which the calls share, is handed on; a
-- call marks one more table, so one unit of fuel for each table, and one more, is enough.
use bolodb.Prelude.{
  ℕ, zero, suc, Bool, not, ◌&&◌, List, [], ◌∷◌, ◌++◌, Option, none, some, length, is_empty, is_none,
  if◌then◌else◌,
}
use bolodb.Text.{Text, partition}
use bolodb.Text.Sets.{has_text, entry_at}
use bolodb.Linking.{ForeignKey, TableInfo, Schema}

abbrev foreign_keys_of : Option TableInfo → List ForeignKey
foreign_keys_of none = []
foreign_keys_of (some info) = info.foreign_keys

-- `schema.get(table, {}).get("foreign_keys", [])`
abbrev pub foreign_keys_at : Schema → Text → List ForeignKey
foreign_keys_at schema table = foreign_keys_of (entry_at table schema)

-- `fk.get("references", "").split(".")[0]`
abbrev pub ref_of : ForeignKey → Text
ref_of fk = (partition b'.' fk.references).0

-- `ref and ref in schema`
abbrev pub linkable : Schema → Text → Bool
linkable schema ref = not (is_empty ref) && not (is_none (entry_at ref schema))

-- The loop over the foreign keys, with what a call does for a table.
unfoldable pub each_fk :
    (Text → List Text → List Text × List Text)
    → Schema
    → List ForeignKey
    → List Text
    → List Text × List Text
each_fk call schema [] seen = ([], seen)
each_fk call schema (fk ∷ fks) seen =
    let (found, marked) = call (ref_of fk) seen in
    let (others, last) = each_fk call schema fks marked in
    let skipped = each_fk call schema fks seen in
    if linkable schema (ref_of fk) && not (has_text (ref_of fk) seen)
    then (ref_of fk ∷ found ++ others, last)
    else skipped

-- The parents of a table, and the tables seen by then.
unfoldable pub parents_from : ℕ → Schema → Text → List Text → List Text × List Text
parents_from zero schema table seen = ([], seen)
parents_from (suc fuel) schema table seen =
    if has_text table seen
    then ([], seen)
    else each_fk (parents_from fuel schema) schema (foreign_keys_at schema table) (table ∷ seen)

-- `_fk_parents(schema, table)`
unfoldable pub fk_parents : Schema → Text → List Text
fk_parents schema table = (parents_from (suc (length schema)) schema table []).0
