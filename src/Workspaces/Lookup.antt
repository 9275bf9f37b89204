-- ===== src/Workspaces/Lookup.antt =====
-- The reads of backend/app/controllers/workspaces.py: `list_workspaces`, `get_workspace` and
-- `list_members`. The order of `list_workspaces` by `created_at` is that of the table, latest first.
use bolodb.Prelude.{
  ℕ, List, [], ◌∷◌, ◌++◌, Option, none, some, length, filter_by, ◌==◌, String, Result, ok, err,
}
use bolodb.Prelude.Rows.{find}
use bolodb.Text.{Text}
use bolodb.Guard.{WorkspaceMember}
use bolodb.Workspaces.{
  Refusal, workspace_not_found, Workspace, Account, Store, workspace_with, belongs_to, member_row,
}

pub record WorkspaceEntry : Type 0 where
  pub workspace : Workspace
  pub role : String
  pub member_count : ℕ

abbrev pub member_count : ℕ → Store → ℕ
member_count wid st = length (filter_by (belongs_to wid) st.members)

abbrev entry_of : ℕ → Store → Workspace → Option WorkspaceMember → List WorkspaceEntry
entry_of uid st w none = []
entry_of uid st w (some m) =
    record { workspace = w; role = m.role; member_count = member_count w.id st } ∷ []

-- Rows are added at the end, so the latest is put first.
unfoldable pub entries_of : ℕ → Store → List Workspace → List WorkspaceEntry
entries_of uid st [] = []
entries_of uid st (w ∷ rows) = entries_of uid st rows ++ entry_of uid st w (member_row w.id uid st)

-- `list_workspaces`
unfoldable pub list_workspaces : ℕ → Store → List WorkspaceEntry
list_workspaces uid st = entries_of uid st st.workspaces

abbrev joined : Option Workspace → Option WorkspaceMember → Result Refusal (Workspace × String)
joined (some w) (some m) = ok (w, m.role)
joined _ _ = err workspace_not_found

-- `get_workspace`
unfoldable pub get_workspace : ℕ → ℕ → Store → Result Refusal (Workspace × String)
get_workspace wid uid st = joined (find (workspace_with wid) st.workspaces) (member_row wid uid st)

pub record MemberEntry : Type 0 where
  pub member : WorkspaceMember
  pub email : Text

abbrev with_email : WorkspaceMember → Option Account → List MemberEntry
with_email m none = []
with_email m (some a) = record { member = m; email = a.email } ∷ []

-- `select(...).join(User, ...)`
unfoldable pub with_emails : List Account → List WorkspaceMember → List MemberEntry
with_emails accounts [] = []
with_emails accounts (m ∷ rows) =
    with_email m (find (λ (a : Account). a.id == m.user_id) accounts) ++ with_emails accounts rows

-- `list_members`
unfoldable pub list_members : ℕ → Store → List MemberEntry
list_members wid st = with_emails st.accounts (filter_by (belongs_to wid) st.members)
