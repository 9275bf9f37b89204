-- ===== src/Linking/Reached/Unseen.antt =====
-- How many tables of the schema a search has not seen.
use bolodb.Prelude.{
  ℕ, ◌<◌, ◌≤◌, ◌≡◌, refl, true, false, not, List, [], ◌∷◌, arith, length, filter_by, is_none, inl,
  inr, Bool-cases,
}
use bolodb.Text.{Text, eq_text}
use bolodb.Text.Sets.{has_text, has_text-eq, eq_text_sym, entry_at, names}
use bolodb.Linking.{Schema}

abbrev pub unseen : List Text → List Text → ℕ
unseen tables seen = length (filter_by (λ t. not (has_text t seen)) tables)

pub unseen_all : (tables seen : List Text) → unseen tables seen ≤ length tables
unfolding filter_by
unseen_all [] seen = omega arith
unseen_all (t ∷ tables) seen = ground (arith, unseen_all tables seen)

pub unseen_mono :
    (tables seen more : List Text)
    → ((x : Text) → has_text x seen ≡ true → has_text x more ≡ true)
    → unseen tables more ≤ unseen tables seen
unfolding filter_by
unseen_mono [] seen more h = omega arith
unseen_mono (t ∷ tables) seen more h = ground (arith, unseen_mono tables seen more h, h t)

unseen_cons_le :
    (tables seen : List Text) (x : Text) → unseen tables (x ∷ seen) ≤ unseen tables seen
unfolding filter_by has_text
unseen_cons_le [] seen x = omega arith
unseen_cons_le (t ∷ tables) seen x = ground (arith, unseen_cons_le tables seen x)

-- A table of the schema that is marked leaves fewer.
pub unseen_cons :
    (tables seen : List Text) (x : Text)
    → has_text x tables ≡ true
    → has_text x seen ≡ false
    → unseen tables (x ∷ seen) < unseen tables seen
unfolding filter_by has_text
unseen_cons [] seen x h fresh = absurd (cc h)
unseen_cons (t ∷ tables) seen x h fresh = elim (Bool-cases (eq_text t x)) [
  | inl same ↦
      ground (
        arith,
        unseen_cons_le tables seen x,
        has_text-eq t x seen same,
        eq_text_sym t x,
        same,
        fresh,
      )
  | inr other ↦ ground (arith, unseen_cons tables seen x, other, eq_text_sym t x, h, fresh)
]

-- The keys of the schema.
pub has_text-names :
    (x : Text) (schema : Schema)
    → is_none (entry_at x schema) ≡ false
    → has_text x (names schema) ≡ true
unfolding entry_at names has_text
has_text-names x [] h = cc h
has_text-names x ((t, info) ∷ schema) h = elim (Bool-cases (eq_text t x)) [
  | inl same ↦ rw same refl
  | inr other ↦ rw other (has_text-names x schema (rw other at h))
]
