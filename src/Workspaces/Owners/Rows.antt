-- ===== src/Workspaces/Owners/Rows.antt =====
-- What updates, deletions and additions keep of the rows.
use bolodb.Prelude.{
  ℕ, ◌<◌, ◌≡◌, refl, Bool, true, false, not, List, [], ◌∷◌, ◌++◌, none, arith, filter_by, All,
  All-append, All-filter_by, ◌==◌, String, inl, inr, Bool-cases,
}
use bolodb.Prelude.Rows.{find, update_rows, any_row, All-update_rows}
use bolodb.Guard.{WorkspaceMember, is_member}
use bolodb.Workspaces.{Workspace, workspace_with}
use bolodb.Workspaces.Members.{with_role}
use bolodb.Workspaces.Owners.{Unique}

-- A workspace that is left after a deletion was there, and is another one.
pub any_row-delete :
    (w wid : ℕ) (rows : List Workspace)
    → any_row (workspace_with w) (filter_by (λ r. not (workspace_with wid r)) rows) ≡ true
    → (any_row (workspace_with w) rows ≡ true) × ((wid == w) ≡ false)
unfolding any_row filter_by
any_row-delete w wid [] h = absurd (cc h)
any_row-delete w wid (r ∷ rows) h = ground (arith, any_row-delete w wid rows)

-- The identifiers of the workspaces have been given out.
pub any_row-below :
    (w bound : ℕ) (rows : List Workspace)
    → All (λ (r : Workspace). r.id < bound) rows
    → any_row (workspace_with w) rows ≡ true
    → w < bound
unfolding any_row
any_row-below w bound [] h e = absurd (cc e)
any_row-below w bound (r ∷ rows) h e = ground (arith, h.0, any_row-below w bound rows h.1)

pub Unique-filter_by :
    (p : WorkspaceMember → Bool) (rows : List WorkspaceMember)
    → Unique rows
    → Unique (filter_by p rows)
unfolding filter_by
Unique-filter_by p [] u = tt
Unique-filter_by p (m ∷ rows) u = elim (Bool-cases (p m)) [
  | inl e ↦ rw e (
    All-filter_by (λ r. is_member m.workspace_id m.user_id r ≡ false) p rows u.0,
    Unique-filter_by p rows u.1,
  )
  | inr e ↦ rw e (Unique-filter_by p rows u.1)
]

module _ (p : WorkspaceMember → Bool) (role : String) where
  pub Unique-update_rows :
      (rows : List WorkspaceMember) → Unique rows → Unique (update_rows p (with_role role) rows)
  unfolding update_rows
  Unique-update_rows [] u = tt
  Unique-update_rows (m ∷ rows) u =
      let others =
        All-update_rows (λ r. is_member m.workspace_id m.user_id r ≡ false) p (with_role role) rows
          (λ r e. e) u.0 in
      elim (Bool-cases (p m)) [
        | inl e ↦ rw e (others, Unique-update_rows rows u.1)
        | inr e ↦ rw e (others, Unique-update_rows rows u.1)
      ]

-- A user without a row may be given one.
pub Unique-append :
    (rows : List WorkspaceMember) (m : WorkspaceMember)
    → Unique rows
    → find (is_member m.workspace_id m.user_id) rows ≡ none
    → Unique (rows ++ m ∷ [])
unfolding find
Unique-append [] m u f = (tt, tt)
Unique-append (r ∷ rows) m u f = elim (Bool-cases (is_member m.workspace_id m.user_id r)) [
  | inl e ↦ absurd (cc (rw e at f))
  | inr e ↦ (
    All-append (λ k. is_member r.workspace_id r.user_id k ≡ false) rows (m ∷ []) u.0
        ((ground arith), tt),
    Unique-append rows m u.1 (rw e at f),
  )
]

-- Nobody has a row in a workspace whose identifier has not been given out.
pub find-above :
    (wid uid : ℕ) (rows : List WorkspaceMember)
    → All (λ (m : WorkspaceMember). m.workspace_id < wid) rows
    → find (is_member wid uid) rows ≡ none
unfolding find
find-above wid uid [] h = refl
find-above wid uid (m ∷ rows) h = ground (arith, h.0, find-above wid uid rows h.1)
