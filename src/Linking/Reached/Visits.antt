-- ===== src/Linking/Reached/Visits.antt =====
-- A call and its loop keep the marks, by induction on the fuel and on the foreign keys.
use bolodb.Prelude.{
  ◌≡◌, sym, subst, true, false, not, ◌&&◌, ◌||◌, List, [], ◌∷◌, ◌++◌, arith, inl, inr, Bool-cases,
}
use bolodb.Text.{Text, eq_text}
use bolodb.Text.Equality.{eq_of_eq_text}
use bolodb.Text.Sets.{has_text, has_text-append, eq_text_self}
use bolodb.Linking.{ForeignKey, Schema}
use bolodb.Linking.Parents.{ref_of, linkable}
use bolodb.Linking.Reached.{
  some_refers, refers, Reaches, direct, Reaches-before, ClosedAt, Visited, Looped,
}

module _ (schema : Schema) (t : Text) where
  pub Looped-nil : (seen : List Text) → Looped schema t [] seen [] seen
  unfolding has_text some_refers
  Looped-nil seen = (
    ((λ x. ground arith), (λ x h k. absurd (cc (h, k))), (λ x h. absurd (cc h))),
    (λ v h. absurd (cc h)),
    λ x h. absurd (cc h),
  )

  -- A foreign key that is followed.
  module _ (fk : ForeignKey) (fks : List ForeignKey) (seen found marked others last : List Text)
      (link : linkable schema (ref_of fk) ≡ true) (fresh : has_text (ref_of fk) seen ≡ false)
      (to : (v : Text) → some_refers schema (fk ∷ fks) v ≡ true → refers schema t v ≡ true)
      (visit : Visited schema (ref_of fk) seen found marked)
      (loop : Looped schema t fks marked others last) where
    grows : (x : Text) → has_text x marked ≡ true → has_text x last ≡ true
    grows x h = ground (arith, loop.0.0 x, h)

    is_marked : has_text (ref_of fk) marked ≡ true
    unfolding has_text
    is_marked = ground (arith, visit.0.0 (ref_of fk), eq_text_self (ref_of fk))

    marks :
        (x : Text) → has_text x last ≡ (has_text x seen || has_text x (ref_of fk ∷ found ++ others))
    unfolding has_text
    marks x = ground (arith, loop.0.0 x, visit.0.0 x, has_text-append x found others)

    closed : (x : Text) → has_text x last ≡ true → has_text x seen ≡ false → ClosedAt schema last x
    unfolding has_text
    closed x h k v r = elim (Bool-cases (has_text x marked)) [
      | inr later ↦ loop.0.1 x h later v r
      | inl now ↦ elim (Bool-cases (eq_text (ref_of fk) x)) [
        | inl here ↦
            let same = eq_of_eq_text (ref_of fk) x here in
            grows v (visit.1 v (subst (λ (y : Text). refers schema y v ≡ true) (sym same) r))
        | inr elsewhere ↦ grows v (visit.0.1 x now (ground (arith, elsewhere, k)) v r)
      ]
    ]

    unseen_before :
        (x : Text) → has_text x (ref_of fk ∷ found ++ others) ≡ true → has_text x seen ≡ false
    unfolding has_text
    unseen_before x h = elim (Bool-cases (eq_text (ref_of fk) x)) [
      | inl here ↦
          subst (λ (y : Text). has_text y seen ≡ false) (eq_of_eq_text (ref_of fk) x here) fresh
      | inr elsewhere ↦ ground (
        arith,
        has_text-append x found others,
        elsewhere,
        h,
        visit.0.2 x,
        loop.0.2 x,
        visit.0.0 x,
      )
    ]

    targets : (v : Text) → some_refers schema (fk ∷ fks) v ≡ true → has_text v last ≡ true
    unfolding some_refers
    targets v h = elim (Bool-cases (eq_text (ref_of fk) v)) [
      | inl here ↦ grows v (
          subst (λ (y : Text). has_text y marked ≡ true) (eq_of_eq_text (ref_of fk) v here)
            is_marked)
      | inr elsewhere ↦ loop.1 v (ground (arith, elsewhere, h))
    ]

    chains : (x : Text) → has_text x (ref_of fk ∷ found ++ others) ≡ true → Reaches schema t x
    unfolding has_text some_refers
    chains x h =
        let first : refers schema t (ref_of fk) ≡ true =
          to (ref_of fk) (ground (arith, link, eq_text_self (ref_of fk))) in
        elim (Bool-cases (eq_text (ref_of fk) x)) [
          | inl here ↦
              subst (λ (y : Text). Reaches schema t y) (eq_of_eq_text (ref_of fk) x here)
                (direct first)
          | inr elsewhere ↦ elim (Bool-cases (has_text x found)) [
            | inl now ↦ Reaches-before first (visit.2 x now)
            | inr later ↦
                loop.2 x (ground (arith, has_text-append x found others, elsewhere, later, h))
          ]
        ]

    pub Looped-followed : Looped schema t (fk ∷ fks) seen (ref_of fk ∷ found ++ others) last
    Looped-followed = ((marks, closed, unseen_before), targets, chains)

  -- One that is not.
  pub Looped-skipped :
      (fk : ForeignKey) (fks : List ForeignKey) (seen found last : List Text)
      → (linkable schema (ref_of fk) && not (has_text (ref_of fk) seen)) ≡ false
      → Looped schema t fks seen found last
      → Looped schema t (fk ∷ fks) seen found last
  unfolding some_refers
  Looped-skipped fk fks seen found last skip loop = (
    loop.0,
    (λ v h. elim (Bool-cases (eq_text (ref_of fk) v)) [
      | inl here ↦ elim (Bool-cases (linkable schema (ref_of fk))) [
        | inl link ↦
            let old : has_text (ref_of fk) last ≡ true =
              ground (arith, loop.0.0 (ref_of fk), link, skip) in
            subst (λ (y : Text). has_text y last ≡ true) (eq_of_eq_text (ref_of fk) v here) old
        | inr apart ↦ loop.1 v (ground (arith, apart, h))
      ]
      | inr elsewhere ↦ loop.1 v (ground (arith, elsewhere, h))
    ]),
    loop.2,
  )
