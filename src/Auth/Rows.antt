-- ===== src/Auth/Rows.antt =====
-- What the writes on the table of users keep.
use bolodb.Prelude.{
  ℕ, ◌<◌, ◌≤◌, ◌≡◌, refl, sym, ap, subst, ◌∙◌, Bool, true, false, List, [], ◌∷◌, ◌++◌, some, arith,
  All, All-imp, All-append, ◌==◌, ==_iff, if◌then◌else◌, inl, inr, Bool-cases, map,
}
use bolodb.Prelude.Rows.{find, update_rows, All-update_rows, All-find}
use bolodb.Guard.{User}
use bolodb.Auth.{UserRow, Store, user_view}
use bolodb.Auth.Accounts.{has_user_id, update_user}

-- Identifiers are distinct, and below the next one.
abbrev pub UniqueIds : List UserRow → Type 0
UniqueIds [] = Unit
UniqueIds (u ∷ rows) = All (λ (r : UserRow). (r.id == u.id) ≡ false) rows × UniqueIds rows

abbrev pub Good : Store → Type 0
Good st = UniqueIds st.users × All (λ (u : UserRow). u.id < st.next_id) st.users

-- Users stay, and their versions do not fall.
abbrev pub Grows : Store → Store → Type 0
Grows st later =
    (uid : ℕ) (u : UserRow)
    → find (has_user_id uid) st.users ≡ some u
    → (v : UserRow) × (find (has_user_id uid) later.users ≡ some v)
      × (u.token_version ≤ v.token_version)

pub Grows-trans : (a b c : Store) → Grows a b → Grows b c → Grows a c
Grows-trans a b c g h uid u f =
    let (v, fv, le) = g uid u f in let (w, fw, le') = h uid v fv in (w, fw, omega (arith, le, le'))

-- A user that is found is the one with its identifier.
pub find_own :
    (p : UserRow → Bool) (rows : List UserRow) (u : UserRow)
    → UniqueIds rows
    → find p rows ≡ some u
    → find (has_user_id u.id) rows ≡ some u
unfolding find
find_own p [] u d f = absurd (cc f)
find_own p (r ∷ rows) u d f = elim (Bool-cases (p r)) [
  | inl here ↦
      let same : r ≡ u = cc (rw here at f) in
      let hit : (r.id == u.id) ≡ true = (==_iff r.id u.id).1 (ap (λ (k : UserRow). k.id) same) in
      rw hit (ap some same)
  | inr elsewhere ↦
      let later = rw elsewhere at f in
      let apart = All-find (λ (k : UserRow). (k.id == r.id) ≡ false) p rows u d.0 later in
      let miss : (r.id == u.id) ≡ false = ground (arith, apart) in
      rw miss (find_own p rows u d.1 later)
]

module _ (values : UserRow → UserRow) (keeps : (r : UserRow) → (values r).id ≡ r.id)
    (rises : (r : UserRow) → r.token_version ≤ (values r).token_version) where
  -- The row of a user after a write.
  pub find-update_rows_user :
      (w uid : ℕ) (rows : List UserRow) (u : UserRow)
      → find (has_user_id uid) rows ≡ some u
      → find (has_user_id uid) (update_rows (has_user_id w) values rows)
        ≡ some (if has_user_id w u then values u else u)
  unfolding find update_rows
  find-update_rows_user w uid [] u f = absurd (cc f)
  find-update_rows_user w uid (r ∷ rows) u f = elim (Bool-cases (r.id == uid)) [
    | inl here ↦
        let same : r ≡ u = cc (rw here at f) in
        elim (Bool-cases (r.id == w)) [
          | inl hit ↦
              let kept : ((values r).id == uid) ≡ true = ground (arith, keeps r, here) in
              let hit_u : (u.id == w) ≡ true = ap (λ (k : UserRow). k.id == w) (sym same) ∙ hit in
              rw hit (rw (kept, hit_u) (ap (λ k. some (values k)) same))
          | inr miss ↦
              let miss_u : (u.id == w) ≡ false =
                ap (λ (k : UserRow). k.id == w) (sym same) ∙ miss in
              rw miss (rw (here, miss_u) (ap some same))
        ]
    | inr elsewhere ↦
        let later = find-update_rows_user w uid rows u (rw elsewhere at f) in
        elim (Bool-cases (r.id == w)) [
          | inl hit ↦
              let kept : ((values r).id == uid) ≡ false = ground (arith, keeps r, elsewhere) in
              rw hit (rw kept later)
          | inr miss ↦ rw miss (rw elsewhere later)
        ]
  ]

  pub update_user-Grows : (w : ℕ) (st : Store) → Grows st (update_user w values st)
  update_user-Grows w st uid u f = (
    (if has_user_id w u then values u else u),
    find-update_rows_user w uid st.users u f,
    elim (Bool-cases (has_user_id w u)) [
      | inl hit ↦ rw hit (rises u)
      | inr miss ↦ rw miss (omega arith)
    ],
  )

  UniqueIds-update_rows :
      (w : ℕ) (rows : List UserRow)
      → UniqueIds rows
      → UniqueIds (update_rows (has_user_id w) values rows)
  unfolding update_rows
  UniqueIds-update_rows w [] d = tt
  UniqueIds-update_rows w (u ∷ rows) d =
      let others =
        All-update_rows (λ (r : UserRow). (r.id == u.id) ≡ false) (has_user_id w) values rows
          (λ r e. ground (arith, keeps r, e)) d.0 in
      let rest = UniqueIds-update_rows w rows d.1 in
      elim (Bool-cases (has_user_id w u)) [
        | inl hit ↦ rw hit (
          All-imp (λ (r : UserRow). (r.id == u.id) ≡ false)
              (λ (r : UserRow). (r.id == (values u).id) ≡ false) (λ r e. ground (arith, keeps u, e))
              _ others,
          rest,
        )
        | inr miss ↦ rw miss (others, rest)
      ]

  pub update_user-Good : (w : ℕ) (st : Store) → Good st → Good (update_user w values st)
  update_user-Good w st g = (
    UniqueIds-update_rows w st.users g.0,
    All-update_rows (λ (u : UserRow). u.id < st.next_id) (has_user_id w) values st.users
        (λ r h. subst (λ (n : ℕ). n < st.next_id) (sym (keeps r)) h) g.1,
  )

-- A row with the next identifier.
pub UniqueIds-append :
    (bound : ℕ) (rows : List UserRow) (u : UserRow)
    → All (λ (r : UserRow). r.id < bound) rows
    → u.id ≡ bound
    → UniqueIds rows
    → UniqueIds (rows ++ u ∷ [])
UniqueIds-append bound [] u below fresh d = (tt, tt)
UniqueIds-append bound (r ∷ rows) u below fresh d = (
  All-append (λ (k : UserRow). (k.id == r.id) ≡ false) rows (u ∷ []) d.0
      (ground (arith, below.0, fresh), tt),
  UniqueIds-append bound rows u below.1 fresh d.1,
)

-- The new row is found.
pub find-fresh :
    (bound : ℕ) (rows : List UserRow) (u : UserRow)
    → All (λ (r : UserRow). r.id < bound) rows
    → u.id ≡ bound
    → find (has_user_id bound) (rows ++ u ∷ []) ≡ some u
unfolding find
find-fresh bound [] u below fresh =
    let hit : (u.id == bound) ≡ true = ground (arith, fresh) in rw hit refl
find-fresh bound (r ∷ rows) u below fresh =
    let miss : (r.id == bound) ≡ false = ground (arith, below.0) in
    rw miss (find-fresh bound rows u below.1 fresh)

-- The guards find the row that the store has.
pub find-user_view :
    (uid : ℕ) (rows : List UserRow) (u : UserRow)
    → find (has_user_id uid) rows ≡ some u
    → find (λ (v : User). v.id == uid) (map user_view rows) ≡ some (user_view u)
unfolding find
find-user_view uid [] u f = absurd (cc f)
find-user_view uid (r ∷ rows) u f = elim (Bool-cases (r.id == uid)) [
  | inl here ↦ let same : r ≡ u = cc (rw here at f) in rw here (ap (λ k. some (user_view k)) same)
  | inr elsewhere ↦ rw elsewhere (find-user_view uid rows u (rw elsewhere at f))
]

pub row_of_view :
    (uid : ℕ) (rows : List UserRow) (v : User)
    → find (λ (v : User). v.id == uid) (map user_view rows) ≡ some v
    → (u : UserRow) × (find (has_user_id uid) rows ≡ some u) × (u.token_version ≡ v.token_version)
unfolding find
row_of_view uid [] v f = absurd (cc f)
row_of_view uid (r ∷ rows) v f = elim (Bool-cases (r.id == uid)) [
  | inl here ↦
      let same : user_view r ≡ v = cc (rw here at f) in
      rw here (r, refl, ap (λ (k : User). k.token_version) same)
  | inr elsewhere ↦ rw elsewhere (row_of_view uid rows v (rw elsewhere at f))
]
