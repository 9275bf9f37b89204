-- ===== src/Linking/Sorted.antt =====
-- Lists of tables without repetition, under sorting, filtering and cutting off.
use bolodb.Prelude.{
  ℕ, zero, suc, ◌+◌, ◌≤◌, ◌≡◌, refl, ap, subst, ◌∙◌, Bool, true, false, ◌||◌, List, [], ◌∷◌, arith,
  length, take, filter_by, inl, inr, Bool-cases,
}
use bolodb.Text.{Text, eq_text}
use bolodb.Text.Equality.{eq_of_eq_text}
use bolodb.Text.Sets.{has_text, eq_text_sym, eq_text_self}
use bolodb.Linking.Choice.{insert_by, sort_by}

-- No table stands twice.
abbrev pub Distinct : List Text → Type 0
Distinct [] = Unit
Distinct (t ∷ tables) = (has_text t tables ≡ false) × Distinct tables

module _ (less : Text → Text → Bool) where
  has_text-insert_by :
      (x t : Text) (tables : List Text)
      → has_text x (insert_by less t tables) ≡ (eq_text t x || has_text x tables)
  unfolding has_text insert_by
  has_text-insert_by x t [] = refl
  has_text-insert_by x t (u ∷ tables) = ground (arith, has_text-insert_by x t tables)

  pub has_text-sort_by :
      (x : Text) (tables : List Text) → has_text x (sort_by less tables) ≡ has_text x tables
  unfolding has_text sort_by
  has_text-sort_by x [] = refl
  has_text-sort_by x (t ∷ tables) =
      ground (arith, has_text-insert_by x t (sort_by less tables), has_text-sort_by x tables)

  insert_by-Distinct :
      (t : Text) (tables : List Text)
      → has_text t tables ≡ false
      → Distinct tables
      → Distinct (insert_by less t tables)
  unfolding has_text insert_by
  insert_by-Distinct t [] fresh d = (refl, tt)
  insert_by-Distinct t (u ∷ tables) fresh d = elim (Bool-cases (less u t)) [
    | inr first ↦ rw first (fresh, d)
    | inl later ↦ rw later (
      ground (arith, has_text-insert_by u t tables, d.0, fresh, eq_text_sym t u),
      insert_by-Distinct t tables (ground (arith, fresh)) d.1,
    )
  ]

  pub sort_by-Distinct : (tables : List Text) → Distinct tables → Distinct (sort_by less tables)
  unfolding sort_by
  sort_by-Distinct [] d = tt
  sort_by-Distinct (t ∷ tables) d =
      insert_by-Distinct t (sort_by less tables) (has_text-sort_by t tables ∙ d.0)
        (sort_by-Distinct tables d.1)

module _ (p : Text → Bool) where
  pub has_text-kept :
      (x : Text) (tables : List Text)
      → has_text x tables ≡ true
      → p x ≡ true
      → has_text x (filter_by p tables) ≡ true
  unfolding has_text filter_by
  has_text-kept x [] h k = cc h
  has_text-kept x (t ∷ tables) h k = elim (Bool-cases (eq_text t x)) [
    | inl here ↦ let at_t : p t ≡ true = ap p (eq_of_eq_text t x here) ∙ k in rw at_t (rw here refl)
    | inr elsewhere ↦
        let later = has_text-kept x tables (rw elsewhere at h) k in
        elim (Bool-cases (p t)) [
          | inl keep ↦ rw keep (rw elsewhere later)
          | inr drop ↦ rw drop later
        ]
  ]

  absent-filter_by :
      (x : Text) (tables : List Text)
      → has_text x tables ≡ false
      → has_text x (filter_by p tables) ≡ false
  unfolding has_text filter_by
  absent-filter_by x [] h = refl
  absent-filter_by x (t ∷ tables) h = elim (Bool-cases (p t)) [
    | inl keep ↦ rw keep (ground (arith, absent-filter_by x tables, h))
    | inr drop ↦ rw drop (absent-filter_by x tables (ground (arith, h)))
  ]

  pub filter_by-Distinct : (tables : List Text) → Distinct tables → Distinct (filter_by p tables)
  unfolding filter_by
  filter_by-Distinct [] d = tt
  filter_by-Distinct (t ∷ tables) d = elim (Bool-cases (p t)) [
    | inl keep ↦ rw keep (absent-filter_by t tables d.0, filter_by-Distinct tables d.1)
    | inr drop ↦ rw drop (filter_by-Distinct tables d.1)
  ]

  -- A table among the first ones is among the first ones that are kept, where those are all kept.
  pub has_text-take-filter_by :
      (n more : ℕ) (x : Text) (tables : List Text)
      → ((y : Text) → has_text y (take n tables) ≡ true → p y ≡ true)
      → has_text x (take n tables) ≡ true
      → has_text x (take (n + more) (filter_by p tables)) ≡ true
  unfolding has_text filter_by
  has_text-take-filter_by zero more x tables keep h = cc h
  has_text-take-filter_by (suc n) more x [] keep h = cc h
  has_text-take-filter_by (suc n) more x (t ∷ tables) keep h =
      let at_t : p t ≡ true = keep t (ground (arith, eq_text_self t)) in
      let later = has_text-take-filter_by n more x tables (λ y k. keep y (ground (arith, k))) in
      let shown : has_text x (t ∷ take (n + more) (filter_by p tables)) ≡ true =
        elim (Bool-cases (eq_text t x)) [
          | inl here ↦ rw here refl
          | inr elsewhere ↦ rw elsewhere (later (rw elsewhere at h))
        ] in
      let count : suc (n + more) ≡ suc n + more = omega arith in
      rw at_t (subst (λ (k : ℕ). has_text x (take k (t ∷ filter_by p tables)) ≡ true) count shown)

pub has_text-take :
    (n : ℕ) (x : Text) (tables : List Text)
    → has_text x (take n tables) ≡ true
    → has_text x tables ≡ true
unfolding has_text
has_text-take zero x tables h = absurd (cc h)
has_text-take (suc n) x [] h = h
has_text-take (suc n) x (t ∷ tables) h = ground (arith, has_text-take n x tables, h)

absent-take :
    (n : ℕ) (x : Text) (tables : List Text)
    → has_text x tables ≡ false
    → has_text x (take n tables) ≡ false
unfolding has_text
absent-take zero x tables h = refl
absent-take (suc n) x [] h = refl
absent-take (suc n) x (t ∷ tables) h = ground (arith, absent-take n x tables, h)

pub take-Distinct : (n : ℕ) (tables : List Text) → Distinct tables → Distinct (take n tables)
take-Distinct zero tables d = tt
take-Distinct (suc n) [] d = tt
take-Distinct (suc n) (t ∷ tables) d = (absent-take n t tables d.0, take-Distinct n tables d.1)

pub take_all : (n : ℕ) (tables : List Text) → length tables ≤ n → take n tables ≡ tables
take_all zero [] h = refl
take_all zero (t ∷ tables) h = absurd (omega (arith, h))
take_all (suc n) [] h = refl
take_all (suc n) (t ∷ tables) h = ap (λ ts. t ∷ ts) (take_all n tables (omega (arith, h)))
