-- ===== src/Linking/Reached/Exact.antt =====
-- The search with enough fuel is exact.
use bolodb.Prelude.{
  ℕ, zero, suc, ◌<◌, ◌≤◌, ◌≡◌, ◌↔◌, refl, sym, subst, true, false, not, ◌&&◌, ◌||◌, List, [], ◌∷◌,
  arith, length, inl, inr, Bool-cases,
}
use bolodb.Text.{Text, eq_text}
use bolodb.Text.Equality.{eq_of_eq_text}
use bolodb.Text.Sets.{has_text, names}
use bolodb.Linking.{ForeignKey, Schema}
use bolodb.Linking.Parents.{foreign_keys_at, ref_of, linkable, each_fk, parents_from, fk_parents}
use bolodb.Linking.Reached.{some_refers, refers, Reaches, direct, onward, Visited, Looped}
use bolodb.Linking.Reached.Unseen.{unseen, unseen_all, unseen_mono, unseen_cons, has_text-names}
use bolodb.Linking.Reached.Visits.{Looped-nil, Looped-followed, Looped-skipped}

-- What a call does for tables that it can still count.
abbrev Calls : Schema → ℕ → (Text → List Text → List Text × List Text) → Type 0
Calls schema fuel call =
    (r : Text) (seen : List Text)
    → has_text r seen ≡ false
    → unseen (names schema) (r ∷ seen) < fuel
    → Visited schema r seen (call r seen).0 (call r seen).1

after :
    (schema : Schema) (fk : ForeignKey) (fks : List ForeignKey) (v : Text)
    → some_refers schema fks v ≡ true
    → some_refers schema (fk ∷ fks) v ≡ true
unfolding some_refers
after schema fk fks v h = ground (arith, h)

-- A table seen before a call is marked after it.
kept :
    (x r : Text) (seen found marked : List Text)
    → has_text x marked ≡ (has_text x (r ∷ seen) || has_text x found)
    → has_text x seen ≡ true
    → has_text x marked ≡ true
unfolding has_text
kept x r seen found marked m h = ground (arith, m, h)

module _ (schema : Schema) (t : Text) (fuel : ℕ) (call : Text → List Text → List Text × List Text)
    (calls : Calls schema fuel call) where
  each_fk-Looped :
      (fks : List ForeignKey) (seen : List Text)
      → ((v : Text) → some_refers schema fks v ≡ true → refers schema t v ≡ true)
      → unseen (names schema) seen ≤ fuel
      → Looped schema t fks seen (each_fk call schema fks seen).0 (each_fk call schema fks seen).1
  unfolding each_fk
  each_fk-Looped [] seen to bound = Looped-nil schema t seen
  each_fk-Looped (fk ∷ fks) seen to bound =
      elim (Bool-cases (linkable schema (ref_of fk) && not (has_text (ref_of fk) seen))) [
        | inr skip ↦ rw skip (
            Looped-skipped schema t fk fks seen _ _ skip
              (each_fk-Looped fks seen (λ v h. to v (after schema fk fks v h)) bound))
        | inl follow ↦
            let r = ref_of fk in
            let link : linkable schema r ≡ true = ground (arith, follow) in
            let fresh : has_text r seen ≡ false = ground (arith, follow) in
            let known : has_text r (names schema) ≡ true =
              has_text-names r schema (ground (arith, link)) in
            let fewer = unseen_cons (names schema) seen r known fresh in
            let visit = calls r seen fresh (omega (arith, fewer, bound)) in
            let marked = (call r seen).1 in
            let no_more =
              unseen_mono (names schema) seen marked
                (λ x h. kept x r seen _ marked (visit.0.0 x) h) in
            let loop =
              each_fk-Looped fks marked (λ v h. to v (after schema fk fks v h))
                (omega (arith, no_more, bound)) in
            rw follow (Looped-followed schema t fk fks seen _ marked _ _ link fresh to visit loop)
      ]

parents_from-Visited : (schema : Schema) (fuel : ℕ) → Calls schema fuel (parents_from fuel schema)
unfolding parents_from refers
parents_from-Visited schema zero r seen fresh bound = absurd (omega (arith, bound))
parents_from-Visited schema (suc fuel) r seen fresh bound =
    let loop =
      each_fk-Looped schema r fuel (parents_from fuel schema) (parents_from-Visited schema fuel)
        (foreign_keys_at schema r) (r ∷ seen) (λ v h. h) (omega (arith, bound)) in
    rw fresh loop

length-names : (schema : Schema) → length (names schema) ≡ length schema
unfolding names
length-names [] = refl
length-names ((t, info) ∷ schema) = omega (arith, length-names schema)

-- Marks that are closed hold all that the table reaches.
Reaches-marked :
    (schema : Schema) (t x : Text) (found marked : List Text)
    → Visited schema t [] found marked
    → Reaches schema t x
    → has_text x marked ≡ true
unfolding has_text
Reaches-marked schema t x found marked visit (direct r) = visit.1 x r
Reaches-marked schema t x found marked visit (onward {u = u} w r) =
    let before = Reaches-marked schema t u found marked visit w in
    elim (Bool-cases (eq_text t u)) [
      | inl here ↦
          visit.1 x
            (subst (λ (y : Text). refers schema y x ≡ true) (sym (eq_of_eq_text t u here)) r)
      | inr elsewhere ↦ visit.0.1 u before (ground (arith, elsewhere)) x r
    ]

fk_parents-Visited :
    (schema : Schema) (t : Text)
    → (marked : List Text) × Visited schema t [] (fk_parents schema t) marked
unfolding fk_parents has_text
fk_parents-Visited schema t =
    let bound : unseen (names schema) (t ∷ []) < suc (length schema) =
      omega (arith, unseen_all (names schema) (t ∷ []), length-names schema) in
    (
      (parents_from (suc (length schema)) schema t []).1,
      parents_from-Visited schema (suc (length schema)) t [] refl bound,
    )

-- The parents of a table are exactly the tables of the schema, other than itself, that chains of one
-- or more foreign keys lead to, whatever cycles there are.
pub fk_parents-Reaches :
    (schema : Schema) (t x : Text)
    → (has_text x (fk_parents schema t) ≡ true) ↔ (Reaches schema t x × (eq_text t x ≡ false))
unfolding has_text
fk_parents-Reaches schema t x =
    let (marked, visit) = fk_parents-Visited schema t in
    (
      (λ h. (visit.2 x h, ground (arith, visit.0.2 x h))),
      λ h. ground (
        arith,
        Reaches-marked schema t x (fk_parents schema t) marked visit h.0,
        visit.0.0 x,
        h.1,
      ),
    )

names-some_refers :
    (schema : Schema) (fks : List ForeignKey) (v : Text)
    → some_refers schema fks v ≡ true
    → has_text v (names schema) ≡ true
unfolding some_refers
names-some_refers schema [] v h = absurd (cc h)
names-some_refers schema (fk ∷ fks) v h =
    elim (Bool-cases (linkable schema (ref_of fk) && eq_text (ref_of fk) v)) [
      | inl here ↦
          let same = eq_of_eq_text (ref_of fk) v (ground (arith, here)) in
          let known = has_text-names (ref_of fk) schema (ground (arith, here)) in
          subst (λ (u : Text). has_text u (names schema) ≡ true) same known
      | inr elsewhere ↦ names-some_refers schema fks v (rw elsewhere at h)
    ]

-- What is reached is a table of the schema.
pub Reaches-names :
    (schema : Schema) (t x : Text) → Reaches schema t x → has_text x (names schema) ≡ true
unfolding refers
Reaches-names schema t x (direct r) = names-some_refers schema (foreign_keys_at schema t) x r
Reaches-names schema t x (onward {u = u} w r) =
    names-some_refers schema (foreign_keys_at schema u) x r
