-- ===== src/Linking/Bounded.antt =====
-- What `link_relevant_tables` chooses: how many, which, and with what they refer to.
use bolodb.Prelude.{
  ◌+◌, ◌≤◌, ◌≡◌, sym, subst, ◌∙◌, true, not, ◌||◌, List, [], ◌∷◌, ◌++◌, arith, length, take,
  filter_by, length-take, leb, inl, inr, Bool-cases,
}
use bolodb.Text.{Text, eq_text}
use bolodb.Text.Equality.{eq_of_eq_text}
use bolodb.Text.Sets.{has_text, has_text-append, has_text-filter_by, common, names}
use bolodb.Linking.{Schema}
use bolodb.Linking.Parents.{fk_parents}
use bolodb.Linking.Choice.{
  Request, scores_of, better, larger, all_zero, ranked, all_parents, with_junctions, selection,
  link_relevant_tables,
}
use bolodb.Linking.Sorted.{
  Distinct, has_text-sort_by, sort_by-Distinct, has_text-kept, filter_by-Distinct,
  has_text-take-filter_by, has_text-take, take-Distinct, take_all,
}
use bolodb.Linking.Reached.{Reaches}
use bolodb.Linking.Reached.Exact.{fk_parents-Reaches, Reaches-names}

module _ (r : Request) (schema : Schema) where
  has_text-ranked : (x : Text) → has_text x (ranked r schema) ≡ has_text x (names schema)
  unfolding ranked
  has_text-ranked x = elim (Bool-cases (all_zero (scores_of r schema))) [
    | inl none_matches ↦ rw none_matches (has_text-sort_by (larger schema) x (names schema))
    | inr some_matches ↦
        rw some_matches (has_text-sort_by (better (scores_of r schema)) x (names schema))
  ]

  ranked-Distinct : Distinct (names schema) → Distinct (ranked r schema)
  unfolding ranked
  ranked-Distinct d = elim (Bool-cases (all_zero (scores_of r schema))) [
    | inl none_matches ↦ rw none_matches (sort_by-Distinct (larger schema) (names schema) d)
    | inr some_matches ↦
        rw some_matches (sort_by-Distinct (better (scores_of r schema)) (names schema) d)
  ]

  with_junctions_grows :
      (x : Text) (tables selected : List Text)
      → has_text x selected ≡ true
      → has_text x (with_junctions schema tables selected) ≡ true
  unfolding with_junctions has_text
  with_junctions_grows x [] selected h = h
  with_junctions_grows x (t ∷ tables) selected h =
      elim (Bool-cases
        (has_text t selected || not (leb 2 (length (common selected (fk_parents schema t)))))) [
          | inl plain ↦ rw plain (with_junctions_grows x tables selected h)
          | inr junction ↦
              rw junction (with_junctions_grows x tables (t ∷ selected) (ground (arith, h)))
        ]

  has_text-all_parents :
      (s x : Text) (tables : List Text)
      → has_text s tables ≡ true
      → has_text x (fk_parents schema s) ≡ true
      → has_text x (all_parents schema tables) ≡ true
  unfolding has_text all_parents
  has_text-all_parents s x [] h k = cc h
  has_text-all_parents s x (t ∷ tables) h k = elim (Bool-cases (eq_text t s)) [
    | inl here ↦
        let same : has_text x (fk_parents schema t) ≡ true =
          subst (λ (u : Text). has_text x (fk_parents schema u) ≡ true)
            (sym (eq_of_eq_text t s here)) k in
        ground (arith, has_text-append x (fk_parents schema t) (all_parents schema tables), same)
    | inr elsewhere ↦
        let later = has_text-all_parents s x tables (rw elsewhere at h) k in
        ground (arith, has_text-append x (fk_parents schema t) (all_parents schema tables), later)
  ]

  -- The best tables.
  abbrev pub seeds : List Text
  seeds = take r.max_tables (ranked r schema)

  abbrev pub chosen : List Text
  chosen = filter_by (λ t. has_text t (selection r schema)) (ranked r schema)

  selected_seed : (x : Text) → has_text x seeds ≡ true → has_text x (selection r schema) ≡ true
  unfolding selection
  selected_seed x h =
      with_junctions_grows x (names schema) (seeds ++ all_parents schema seeds)
        (ground (arith, has_text-append x seeds (all_parents schema seeds), h))

  selected_parent :
      (s x : Text)
      → has_text s seeds ≡ true
      → has_text x (fk_parents schema s) ≡ true
      → has_text x (selection r schema) ≡ true
  unfolding selection
  selected_parent s x h k =
      with_junctions_grows x (names schema) (seeds ++ all_parents schema seeds) (
        ground (
          arith,
          has_text-append x seeds (all_parents schema seeds),
          has_text-all_parents s x seeds h k,
        ))

  selected_reached :
      (s x : Text)
      → has_text s seeds ≡ true
      → Reaches schema s x
      → has_text x (selection r schema) ≡ true
  selected_reached s x h w = elim (Bool-cases (eq_text s x)) [
    | inl same ↦
        selected_seed x (subst (λ (y : Text). has_text y seeds ≡ true) (eq_of_eq_text s x same) h)
    | inr other ↦ selected_parent s x h ((fk_parents-Reaches schema s x).1 (w, other))
  ]

-- Where no name stands twice in the schema, the tables chosen are at most `max_tables` + 4, all of the
-- schema and none twice, and the `max_tables` best ones are among them.
pub link_relevant_tables-IsChoice :
    (r : Request) (schema : Schema)
    → Distinct (names schema)
    → (length (link_relevant_tables r schema) ≤ r.max_tables + 4)
      × Distinct (link_relevant_tables r schema)
      × ((x : Text)
          → has_text x (link_relevant_tables r schema) ≡ true
          → has_text x (names schema) ≡ true)
      × ((x : Text)
          → has_text x (take r.max_tables (ranked r schema)) ≡ true
          → has_text x (link_relevant_tables r schema) ≡ true)
unfolding link_relevant_tables
link_relevant_tables-IsChoice r schema d =
    let order = ranked r schema in
    elim (Bool-cases (leb (length (names schema)) r.max_tables)) [
      | inl all ↦ rw all (
        ground (arith, all),
        d,
        (λ x h. h),
        λ x h. sym (has_text-ranked r schema x) ∙ has_text-take r.max_tables x order h,
      )
      | inr many ↦ rw many (
        omega (arith, length-take (r.max_tables + 4) (chosen r schema)),
        take-Distinct (r.max_tables + 4) (chosen r schema) (
            filter_by-Distinct (λ t. has_text t (selection r schema)) order
              (ranked-Distinct r schema d)),
        (λ x h.
            sym (has_text-ranked r schema x)
            ∙ (has_text-filter_by (λ t. has_text t (selection r schema)) x order
                (has_text-take (r.max_tables + 4) x (chosen r schema) h)).0),
        λ x h.
            has_text-take-filter_by (λ t. has_text t (selection r schema)) r.max_tables 4 x order
              (selected_seed r schema) h,
      )
    ]

-- Where the selection has at most `max_tables` + 4 tables, every table that chains of foreign keys
-- lead to from one of the `max_tables` best is chosen.
pub link_relevant_tables-Reaches :
    (r : Request) (schema : Schema) (s x : Text)
    → length (filter_by (λ t. has_text t (selection r schema)) (ranked r schema)) ≤ r.max_tables + 4
    → has_text s (take r.max_tables (ranked r schema)) ≡ true
    → Reaches schema s x
    → has_text x (link_relevant_tables r schema) ≡ true
unfolding link_relevant_tables
link_relevant_tables-Reaches r schema s x few seed w =
    let known = Reaches-names schema s x w in
    elim (Bool-cases (leb (length (names schema)) r.max_tables)) [
      | inl all ↦ rw all known
      | inr many ↦
          let ranks : has_text x (ranked r schema) ≡ true = has_text-ranked r schema x ∙ known in
          let kept =
            has_text-kept (λ t. has_text t (selection r schema)) x (ranked r schema) ranks
              (selected_reached r schema s x seed w) in
          rw many (
            subst (λ ts. has_text x ts ≡ true)
              (sym (take_all (r.max_tables + 4) (chosen r schema) few)) kept)
    ]
