-- ===== src/Linking/Reached.antt =====
-- `_fk_parents` finds exactly the tables that chains of foreign keys lead to.
pub mod Unseen
pub mod Visits
pub mod Exact
use bolodb.Prelude.{
  ℕ, zero, suc, ◌+◌, ◌<◌, ◌≤◌, ◌≡◌, ◌↔◌, refl, sym, ap, subst, ◌∙◌, Bool, true, false, not, ◌&&◌,
  ◌||◌, List, [], ◌∷◌, ◌++◌, arith, length, if◌then◌else◌, inl, inr, Bool-cases,
}
use bolodb.Text.{Text, eq_text}
use bolodb.Text.Equality.{eq_of_eq_text}
use bolodb.Text.Sets.{has_text, has_text-append, eq_text_self, names}
use bolodb.Linking.{ForeignKey, Schema}
use bolodb.Linking.Parents.{foreign_keys_at, ref_of, linkable, each_fk, parents_from, fk_parents}

-- One of the foreign keys refers to the table, which the schema has.
unfoldable pub some_refers : Schema → List ForeignKey → Text → Bool
some_refers schema [] v = false
some_refers schema (fk ∷ fks) v =
    (linkable schema (ref_of fk) && eq_text (ref_of fk) v) || some_refers schema fks v

unfoldable pub refers : Schema → Text → Text → Bool
refers schema t v = some_refers schema (foreign_keys_at schema t) v

-- Chains of one or more foreign keys.
pub data Reaches (schema : Schema) (t : Text) : Text → Type 0 where
  direct : {v : Text} → refers schema t v ≡ true → Reaches schema t v
  onward : {u v : Text} → Reaches schema t u → refers schema u v ≡ true → Reaches schema t v

pub Reaches-before :
    {schema : Schema} {t r v : Text}
    → refers schema t r ≡ true
    → Reaches schema r v
    → Reaches schema t v
Reaches-before h (direct k) = onward (direct h) k
Reaches-before h (onward w k) = onward (Reaches-before h w) k

module _ (schema : Schema) where
  -- What a table refers to is marked.
  abbrev pub ClosedAt : List Text → Text → Type 0
  ClosedAt marked x = (v : Text) → refers schema x v ≡ true → has_text v marked ≡ true

  -- The tables marked are those seen before and those found, what the newly marked refer to is marked,
  -- and what is found had not been seen.
  abbrev pub Marks : List Text → List Text → List Text → Type 0
  Marks before found marked =
      ((x : Text) → has_text x marked ≡ (has_text x before || has_text x found))
      × ((x : Text) → has_text x marked ≡ true → has_text x before ≡ false → ClosedAt marked x)
      × ((x : Text) → has_text x found ≡ true → has_text x before ≡ false)

  -- What a call for a table that is not seen returns.
  abbrev pub Visited : Text → List Text → List Text → List Text → Type 0
  Visited t seen found marked =
      Marks (t ∷ seen) found marked
      × ClosedAt marked t
      × ((x : Text) → has_text x found ≡ true → Reaches schema t x)

  -- What the loop over foreign keys of `t` returns.
  abbrev pub Looped : Text → List ForeignKey → List Text → List Text → List Text → Type 0
  Looped t fks seen found marked =
      Marks seen found marked
      × ((v : Text) → some_refers schema fks v ≡ true → has_text v marked ≡ true)
      × ((x : Text) → has_text x found ≡ true → Reaches schema t x)
