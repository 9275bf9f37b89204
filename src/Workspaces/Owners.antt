-- ===== src/Workspaces/Owners.antt =====
-- The states that the handlers of backend/app/controllers/workspaces.py reach, one handler a step.
pub mod Counts
pub mod Rows
pub mod Handlers
pub mod Roles
pub mod Invited
pub mod Reached
use bolodb.Prelude.{
  ℕ, ◌<◌, ◌≡◌, ◌≢◌, ◌⊎◌, Bool, true, false, ◌&&◌, List, [], ◌∷◌, ◌++◌, Option, none, some, length,
  filter_by, All, String, str_eq, if◌then◌else◌, Result, ok, err, ok_or,
}
use bolodb.Prelude.Rows.{any_row}
use bolodb.Text.{Text}
use bolodb.Datetime.{Datetime}
use bolodb.Guard.{WorkspaceMember, is_member}
use bolodb.Workspaces.{
  Refusal, Workspace, WorkspaceInvite, Account, Store, workspace_with, owns, invitable,
}
use bolodb.Workspaces.Members.{
  create_workspace, update_workspace, delete_workspace, leave_workspace, update_member_role,
  transfer_ownership, remove_member,
}
use bolodb.Workspaces.Invites.{invite_user, rescind_invite, resend_invite, accept_invite}
use bolodb.Workspaces.Bulk.{bulk_invite}
use bolodb.Workspaces.Settings.{SettingsUpdate, get_workspace_settings, update_workspace_settings}

-- The owners of a workspace among the rows.
abbrev pub owners_in : ℕ → List WorkspaceMember → ℕ
owners_in wid rows = length (filter_by (owns wid) rows)

-- No two rows are for one user of one workspace.
abbrev pub Unique : List WorkspaceMember → Type 0
Unique [] = Unit
Unique (m ∷ rows) = All (λ r. is_member m.workspace_id m.user_id r ≡ false) rows × Unique rows

-- An invitation offers no ownership, and its workspace's identifier has been given out.
abbrev pub IsSound : ℕ → WorkspaceInvite → Type 0
IsSound bound i = (invitable i.role ≡ true) × (i.workspace_id < bound)

abbrev pub Sound : List Workspace → List WorkspaceMember → List WorkspaceInvite → ℕ → Type 0
Sound workspaces members invites bound =
    ((wid : ℕ) → any_row (workspace_with wid) workspaces ≡ true → owners_in wid members ≡ 1)
    × Unique members
    × All (λ (w : Workspace). w.id < bound) workspaces
    × All (λ (m : WorkspaceMember). m.workspace_id < bound) members
    × All (IsSound bound) invites

abbrev pub WellFormed : Store → Type 0
WellFormed st = Sound st.workspaces st.members st.invites st.next_id

-- A handler that answers leaves a well-formed store.
abbrev pub Keeps : Result Refusal Store → Type 0
Keeps (err refused) = Unit
Keeps (ok st) = WellFormed st

abbrev pub KeepsWith : {A : Type 0} → Result Refusal (A × Store) → Type 0
KeepsWith (err refused) = Unit
KeepsWith (ok (a, st)) = WellFormed st

-- A call of a handler, with what it reads of the clock and the random source.
pub data Op : Type 0 where
  sign_up : Account → Op
  create : ℕ → Text → Op
  rename : ℕ → Option Text → Option ℕ → Op
  delete : ℕ → Op
  leave : ℕ → ℕ → Op
  invite : Datetime → Text → ℕ → Text → Option String → ℕ → Op
  invite_all : (Text → Option Text) → Datetime → ℕ → String → ℕ → List (Text × Text) → Op
  rescind : ℕ → Option ℕ → Option ℕ → Op
  resend : Datetime → Text → ℕ → Option ℕ → Option ℕ → Op
  accept : Datetime → Text → ℕ → Text → Op
  update_role : ℕ → ℕ → String → Option ℕ → String → Op
  transfer : ℕ → String → String → Op
  remove : ℕ → ℕ → Option ℕ → String → Op
  look_up_settings : ℕ → Op
  write_settings : ℕ → SettingsUpdate → Option ℕ → Op

abbrev store_or : {A : Type 0} → Result Refusal (A × Store) → Store → Store
store_or (err refused) st = st
store_or (ok (a, later)) st = later

module _ (to_uuid : String → Option ℕ) where
  -- A handler that raises rolls its transaction back.
  unfoldable pub step : Op → Store → Store
  step (sign_up account) st = record st { accounts = st.accounts ++ account ∷ [] }
  step (create uid name) st = ok_or (create_workspace uid name st) st
  step (rename wid name actor_id) st = ok_or (update_workspace wid name actor_id st) st
  step (delete wid) st = ok_or (delete_workspace wid st) st
  step (leave wid uid) st = ok_or (leave_workspace wid uid st) st
  step (invite now token wid email role uid) st =
      ok_or (invite_user now token wid email role uid st) st
  step (invite_all validate now wid role uid addresses) st =
      store_or (bulk_invite validate now wid role uid addresses st) st
  step (rescind wid iid actor_id) st = ok_or (rescind_invite wid iid actor_id st) st
  step (resend now token wid iid actor_id) st =
      ok_or (resend_invite now token wid iid actor_id st) st
  step (accept now token uid email) st = store_or (accept_invite now token uid email st) st
  step (update_role wid tuid role actor_id actor_role) st =
      ok_or (update_member_role wid tuid role actor_id actor_role st) st
  step (transfer wid current target) st =
      ok_or (transfer_ownership to_uuid wid current target st) st
  step (remove wid tuid actor_id actor_role) st =
      ok_or (remove_member wid tuid actor_id actor_role st) st
  step (look_up_settings wid) st = store_or (get_workspace_settings wid st) st
  step (write_settings wid u actor_id) st =
      store_or (update_workspace_settings wid u actor_id st) st

  -- A transfer that names two spellings names two users.
  abbrev pub IsApart : Op → Type 0
  IsApart (transfer wid current target) =
      (str_eq current target ≡ true) ⊎ (to_uuid current ≢ to_uuid target)
  IsApart _ = Unit

  -- A store without workspaces, whoever has signed up.
  abbrev pub no_workspaces : List Account → Store
  no_workspaces accounts = record {
    workspaces = [];
    members = [];
    invites = [];
    settings = [];
    accounts = accounts;
    activity = [];
    mails = [];
    next_id = 0;
  }

  -- The stores that sequences of calls lead to.
  pub data Reachable : Store → Type 0 where
    initial : (accounts : List Account) → Reachable (no_workspaces accounts)
    called : (op : Op) (st : Store) → IsApart op → Reachable st → Reachable (step op st)
