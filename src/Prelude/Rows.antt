-- ===== src/Prelude/Rows.antt =====
-- A table as the list of its rows: the statements that the queries under backend/app/pgdatabase are made
-- of, and what they keep.
use bolodb.Prelude.{
  ◌≡◌, refl, subst, ap, Bool, true, false, ◌||◌, List, [], ◌∷◌, ◌++◌, Option, none, some, arith,
  All, inl, inr, Bool-cases, if◌then◌else◌,
}

-- `select(...).where(...)`, of which at most one row is there.
unfoldable pub find : {A : Type 0} → (A → Bool) → List A → Option A
find p [] = none
find p (r ∷ rows) = let later = find p rows in if p r then some r else later

module _ {A : Type 0} (where_ : A → Bool) where
  -- `update(...).where(...).values(...)`
  unfoldable pub update_rows : (A → A) → List A → List A
  update_rows values [] = []
  update_rows values (r ∷ rows) = (if where_ r then values r else r) ∷ update_rows values rows

  -- `rowcount > 0`
  unfoldable pub any_row : List A → Bool
  any_row [] = false
  any_row (r ∷ rows) = where_ r || any_row rows

-- What is found has the property.
pub find-holds :
    {A : Type 0} (p : A → Bool) (rows : List A) (a : A) → find p rows ≡ some a → p a ≡ true
unfolding find
find-holds p [] a e = absurd (cc e)
find-holds p (r ∷ rows) a e = elim (Bool-cases (p r)) [
  | inl here ↦ let same : some r ≡ some a = cc (e, here) in cc (same, here)
  | inr elsewhere ↦ find-holds p rows a (rw elsewhere at e)
]

-- A property that the values keep holds of all rows after the update, and of what is found.
module _ {κ} {A : Type 0} (P : A → Type κ) where
  pub All-update_rows :
      (p : A → Bool) (values : A → A) (rows : List A)
      → ((r : A) → P r → P (values r))
      → All P rows
      → All P (update_rows p values rows)
  unfolding update_rows
  All-update_rows p values [] keep h = tt
  All-update_rows p values (r ∷ rows) keep h = elim (Bool-cases (p r)) [
    | inl e ↦ rw e (keep r h.0, All-update_rows p values rows keep h.1)
    | inr e ↦ rw e (h.0, All-update_rows p values rows keep h.1)
  ]

  pub All-find : (p : A → Bool) (rows : List A) (r : A) → All P rows → find p rows ≡ some r → P r
  unfolding find
  All-find p [] r h f = absurd (cc f)
  All-find p (s ∷ rows) r h f = elim (Bool-cases (p s)) [
    | inl e ↦ let same : s ≡ r = cc (rw e at f) in subst P same h.0
    | inr e ↦ All-find p rows r h.1 (rw e at f)
  ]

-- An update that keeps the test keeps what is found of it.
pub any_row-update_rows :
    {A : Type 0} (q p : A → Bool) (values : A → A) (rows : List A)
    → ((r : A) → q (values r) ≡ q r)
    → any_row q (update_rows p values rows) ≡ any_row q rows
unfolding any_row update_rows
any_row-update_rows q p values [] keep = refl
any_row-update_rows q p values (r ∷ rows) keep = elim (Bool-cases (p r)) [
  | inl e ↦ rw (e, keep r, any_row-update_rows q p values rows keep) refl
  | inr e ↦ rw (e, any_row-update_rows q p values rows keep) refl
]

pub any_row-append :
    {A : Type 0} (q : A → Bool) (rows : List A) (r : A)
    → any_row q (rows ++ r ∷ []) ≡ (any_row q rows || q r)
unfolding any_row
any_row-append q [] r = ground arith
any_row-append q (s ∷ rows) r = ground (arith, any_row-append q rows r)

-- What is found stays found under an update that keeps the test, and has its values.
pub find-update_rows_hit :
    {A : Type 0} (q p : A → Bool) (values : A → A) (rows : List A) (a : A)
    → ((r : A) → q (values r) ≡ q r)
    → find q rows ≡ some a
    → p a ≡ true
    → find q (update_rows p values rows) ≡ some (values a)
unfolding find update_rows
find-update_rows_hit q p values [] a keep f hit = absurd (cc f)
find-update_rows_hit q p values (r ∷ rows) a keep f hit = elim (Bool-cases (q r)) [
  | inl e ↦
      let same : r ≡ a = cc (rw e at f) in
      let here : p r ≡ true = cc (ap p same, hit) in
      rw (here, keep r, e) (ap (λ k. some (values k)) same)
  | inr e ↦
      let later = find-update_rows_hit q p values rows a keep (rw e at f) hit in
      elim (Bool-cases (p r)) [
        | inl hit' ↦ rw (hit', keep r, e) later
        | inr miss ↦ rw (miss, e) later
      ]
]

-- The row found is replaced.
pub find-written :
    {A : Type 0} (p : A → Bool) (rows : List A) (a s : A)
    → find p rows ≡ some a
    → p s ≡ true
    → find p (update_rows p (λ _. s) rows) ≡ some s
unfolding find update_rows
find-written p [] a s f hit = absurd (cc f)
find-written p (r ∷ rows) a s f hit = elim (Bool-cases (p r)) [
  | inl e ↦ rw e (rw hit refl)
  | inr e ↦ rw e (rw e (find-written p rows a s (rw e at f) hit))
]

-- A row that is added where there was none.
pub find-added :
    {A : Type 0} (p : A → Bool) (rows : List A) (s : A)
    → find p rows ≡ none
    → p s ≡ true
    → find p (rows ++ s ∷ []) ≡ some s
unfolding find
find-added p [] s f hit = rw hit refl
find-added p (r ∷ rows) s f hit = elim (Bool-cases (p r)) [
  | inl e ↦ absurd (cc (rw e at f))
  | inr e ↦ rw e (find-added p rows s (rw e at f) hit)
]

-- What is found stays found before further rows.
pub find-append :
    {A : Type 0} (p : A → Bool) (rows more : List A) (a : A)
    → find p rows ≡ some a
    → find p (rows ++ more) ≡ some a
unfolding find
find-append p [] more a f = absurd (cc f)
find-append p (r ∷ rows) more a f = elim (Bool-cases (p r)) [
  | inl here ↦ rw here (rw here at f)
  | inr elsewhere ↦ rw elsewhere (find-append p rows more a (rw elsewhere at f))
]
