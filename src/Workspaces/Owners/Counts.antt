-- ===== src/Workspaces/Owners/Counts.antt =====
-- How the changes of the member rows change the number of owners.
use bolodb.Prelude.{
  ℕ, ◌+◌, ◌<◌, ◌≤◌, ◌≡◌, refl, true, false, not, List, [], ◌∷◌, ◌++◌, some, arith, filter_by, All,
  ◌==◌, String, str_eq, if◌then◌else◌, inl, inr, Bool-cases, subst, ap, sym,
}
use bolodb.Prelude.Rows.{find, update_rows}
use bolodb.Guard.{WorkspaceMember, is_member}
use bolodb.Workspaces.{belongs_to}
use bolodb.Workspaces.Members.{with_role}
use bolodb.Workspaces.Owners.{owners_in, Unique}

-- 1 for an owner.
abbrev pub weight : String → ℕ
weight role = if str_eq role "owner" then 1 else 0

-- What a row of the workspace `wid` adds to the owners of `w`.
abbrev pub weight_in : ℕ → ℕ → String → ℕ
weight_in w wid role = if wid == w then weight role else 0

pub owners_in-cons :
    (w : ℕ) (m : WorkspaceMember) (rows : List WorkspaceMember)
    → owners_in w (m ∷ rows) ≡ weight_in w m.workspace_id m.role + owners_in w rows
unfolding filter_by
owners_in-cons w m rows = ground arith

pub owners_in-append :
    (w : ℕ) (rows : List WorkspaceMember) (m : WorkspaceMember)
    → owners_in w (rows ++ m ∷ []) ≡ owners_in w rows + weight_in w m.workspace_id m.role
unfolding filter_by
owners_in-append w [] m = ground arith
owners_in-append w (r ∷ rows) m =
    ground (
      arith,
      owners_in-cons w r (rows ++ m ∷ []),
      owners_in-cons w r rows,
      owners_in-append w rows m,
    )

-- No row is in a workspace whose identifier has not been given out.
pub owners_in-above :
    (w : ℕ) (rows : List WorkspaceMember)
    → All (λ (m : WorkspaceMember). m.workspace_id < w) rows
    → owners_in w rows ≡ 0
unfolding filter_by
owners_in-above w [] h = refl
owners_in-above w (m ∷ rows) h = ground (arith, owners_in-above w rows h.1, h.0)

pub owners_in-delete_workspace :
    (w wid : ℕ) (rows : List WorkspaceMember)
    → (wid == w) ≡ false
    → owners_in w (filter_by (λ m. not (belongs_to wid m)) rows) ≡ owners_in w rows
unfolding filter_by
owners_in-delete_workspace w wid [] h = refl
owners_in-delete_workspace w wid (m ∷ rows) h =
    ground (arith, owners_in-delete_workspace w wid rows h)

module _ (wid uid : ℕ) where
  abbrev pub Absent : List WorkspaceMember → Type 0
  Absent = All (λ r. is_member wid uid r ≡ false)

  -- The rows of a member that differs are not this user's.
  Absent-after :
      (m : WorkspaceMember) (rows : List WorkspaceMember)
      → is_member wid uid m ≡ true
      → All (λ r. is_member m.workspace_id m.user_id r ≡ false) rows
      → Absent rows
  Absent-after m [] here h = tt
  Absent-after m (r ∷ rows) here h = (ground (arith, h.0), Absent-after m rows here h.1)

  filter_by-Absent :
      (rows : List WorkspaceMember)
      → Absent rows
      → filter_by (λ r. not (is_member wid uid r)) rows ≡ rows
  unfolding filter_by
  filter_by-Absent [] h = refl
  filter_by-Absent (r ∷ rows) h = rw h.0 (ap (λ rs. r ∷ rs) (filter_by-Absent rows h.1))

  update_rows-Absent :
      (values : WorkspaceMember → WorkspaceMember) (rows : List WorkspaceMember)
      → Absent rows
      → update_rows (is_member wid uid) values rows ≡ rows
  unfolding update_rows
  update_rows-Absent values [] h = refl
  update_rows-Absent values (r ∷ rows) h =
      rw h.0 (ap (λ rs. r ∷ rs) (update_rows-Absent values rows h.1))

  -- Deleting a member takes its weight away.
  pub owners_in-delete :
      (w : ℕ) (rows : List WorkspaceMember) (m : WorkspaceMember)
      → Unique rows
      → find (is_member wid uid) rows ≡ some m
      → owners_in w (filter_by (λ r. not (is_member wid uid r)) rows) + weight_in w wid m.role
        ≡ owners_in w rows
  unfolding find filter_by
  owners_in-delete w [] m u f = absurd (cc f)
  owners_in-delete w (r ∷ rows) m u f = elim (Bool-cases (is_member wid uid r)) [
    | inl here ↦
        let same : r ≡ m = cc (rw here at f) in
        let alone = filter_by-Absent rows (Absent-after r rows here u.0) in
        subst
          (λ (m : WorkspaceMember).
            owners_in w (filter_by (λ r. not (is_member wid uid r)) (r ∷ rows))
              + weight_in w wid m.role
            ≡ owners_in w (r ∷ rows))
          same (rw (here, alone) (ground arith))
    | inr elsewhere ↦
        let later = owners_in-delete w rows m u.1 (rw elsewhere at f) in
        rw elsewhere (ground (arith, later))
  ]

  -- A new role takes the old one's weight away and brings its own.
  pub owners_in-set_role :
      (w : ℕ) (role : String) (rows : List WorkspaceMember) (m : WorkspaceMember)
      → Unique rows
      → find (is_member wid uid) rows ≡ some m
      → owners_in w (update_rows (is_member wid uid) (with_role role) rows) + weight_in w wid m.role
        ≡ owners_in w rows + weight_in w wid role
  unfolding find update_rows filter_by
  owners_in-set_role w role [] m u f = absurd (cc f)
  owners_in-set_role w role (r ∷ rows) m u f = elim (Bool-cases (is_member wid uid r)) [
    | inl here ↦
        let same : r ≡ m = cc (rw here at f) in
        let alone = update_rows-Absent (with_role role) rows (Absent-after r rows here u.0) in
        subst
          (λ (m : WorkspaceMember).
            owners_in w (update_rows (is_member wid uid) (with_role role) (r ∷ rows))
              + weight_in w wid m.role
            ≡ owners_in w (r ∷ rows) + weight_in w wid role)
          same (rw (here, alone) (ground arith))
    | inr elsewhere ↦
        let later = owners_in-set_role w role rows m u.1 (rw elsewhere at f) in
        rw elsewhere (ground (arith, later))
  ]

  -- A row that owns the workspace is counted.
  pub owners_in-find :
      (rows : List WorkspaceMember) (m : WorkspaceMember)
      → find (is_member wid uid) rows ≡ some m
      → str_eq m.role "owner" ≡ true
      → 1 ≤ owners_in wid rows
  unfolding find filter_by
  owners_in-find [] m f o = absurd (cc f)
  owners_in-find (r ∷ rows) m f o = elim (Bool-cases (is_member wid uid r)) [
    | inl here ↦
        let same : r ≡ m = cc (rw here at f) in
        let owner : str_eq r.role "owner" ≡ true =
          subst (λ (m : WorkspaceMember). str_eq m.role "owner" ≡ true) (sym same) o in
        ground (arith, here, owner)
    | inr elsewhere ↦
        let later = owners_in-find rows m (rw elsewhere at f) o in ground (arith, later)
  ]

-- The row of a user after a new role of another one.
pub find-update_rows :
    (wid uid other : ℕ) (role : String) (rows : List WorkspaceMember)
    → (other == uid) ≡ false
    → find (is_member wid uid) (update_rows (is_member wid other) (with_role role) rows)
      ≡ find (is_member wid uid) rows
unfolding find update_rows
find-update_rows wid uid other role [] h = refl
find-update_rows wid uid other role (r ∷ rows) h =
    ground (arith, find-update_rows wid uid other role rows h)

-- The row of a user after its own new role.
pub find-update_rows_self :
    (wid uid : ℕ) (role : String) (rows : List WorkspaceMember) (m : WorkspaceMember)
    → find (is_member wid uid) rows ≡ some m
    → find (is_member wid uid) (update_rows (is_member wid uid) (with_role role) rows)
      ≡ some (with_role role m)
unfolding find update_rows
find-update_rows_self wid uid role [] m f = absurd (cc f)
find-update_rows_self wid uid role (r ∷ rows) m f = elim (Bool-cases (is_member wid uid r)) [
  | inl here ↦
      let same : r ≡ m = cc (rw here at f) in
      rw here (rw here (ap (λ k. some (with_role role k)) same))
  | inr elsewhere ↦
      rw elsewhere (rw elsewhere (find-update_rows_self wid uid role rows m (rw elsewhere at f)))
]
