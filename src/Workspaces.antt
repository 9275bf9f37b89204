-- ===== src/Workspaces.antt =====
-- Workspaces, their members, invitations and settings (backend/app/controllers/workspaces.py,
-- backend/app/models/workspace.py, backend/app/models/workspace_settings.py). Each handler is one
-- transaction on the tables; UUIDs are numbers, and rows are made with fresh ones.
pub mod Codes
pub mod Members
pub mod Invites
pub mod Bulk
pub mod Settings
pub mod Lookup
pub mod Owners
pub mod Transfer
pub mod Acceptance
pub mod Merging
mod Tests
use bolodb.Prelude.{
  ℕ, Bool, not, ◌&&◌, ◌||◌, List, [], ◌∷◌, ◌++◌, Option, length, filter_by, ◌==◌, String, str_eq,
}
use bolodb.Prelude.Rows.{find}
use bolodb.Text.{Text}
use bolodb.Datetime.{Datetime}
use bolodb.Permissions.{Overrides}
use bolodb.Guard.{WorkspaceMember, is_member, rank_of}

-- Why a handler refuses, by the detail of its answer; `invalid_uuid` is a `ValueError`, and
-- `no_such_workspace` the foreign key's `IntegrityError`.
pub data Refusal : Type 0 where
  no_unique_slug workspace_not_found member_not_found sole_owner : Refusal
  invalid_role insufficient_permissions target_above role_above : Refusal
  already_yours only_the_owner : Refusal
  already_a_member could_not_process : Refusal
  invite_not_found invite_accepted invite_expired : Refusal
  invalid_uuid no_such_workspace : Refusal

pub record Workspace : Type 0 where
  pub id : ℕ
  pub name : Text
  pub slug : Text

pub record WorkspaceInvite : Type 0 where
  pub id : ℕ
  pub workspace_id : ℕ
  pub email : Text
  pub role : String
  pub token : Text
  pub invited_by : ℕ
  pub expires_at : Datetime
  pub accepted_at : Option Datetime

pub record WorkspaceSettings : Type 0 where
  pub workspace_id : ℕ
  pub default_invite_role : String
  pub invite_expiry_days : ℕ
  pub activity_retention_days : ℕ
  pub role_permissions : Overrides

-- What the handlers read of a user.
pub record Account : Type 0 where
  pub id : ℕ
  pub email : Text

-- A row of the activity log.
pub record Activity : Type 0 where
  pub workspace_id : ℕ
  pub actor_id : Option ℕ
  pub event_type : String
  pub resource_id : ℕ

-- An invitation that was handed to the mail provider.
pub record InviteMail : Type 0 where
  pub email : Text
  pub workspace_name : Text
  pub token : Text

pub record Store : Type 0 where
  pub workspaces : List Workspace
  pub members : List WorkspaceMember
  pub invites : List WorkspaceInvite
  pub settings : List WorkspaceSettings
  pub accounts : List Account
  pub activity : List Activity
  pub mails : List InviteMail
  pub next_id : ℕ

abbrev pub workspace_with : ℕ → Workspace → Bool
workspace_with wid w = w.id == wid

abbrev pub belongs_to : ℕ → WorkspaceMember → Bool
belongs_to wid m = m.workspace_id == wid

-- The owners of a workspace.
abbrev pub owns : ℕ → WorkspaceMember → Bool
owns wid m = m.workspace_id == wid && str_eq m.role "owner"

unfoldable pub owners_count : ℕ → Store → ℕ
owners_count wid st = length (filter_by (owns wid) st.members)

-- The row of a user in a workspace.
abbrev pub member_row : ℕ → ℕ → Store → Option WorkspaceMember
member_row wid uid st = find (is_member wid uid) st.members

-- `role_rank.get(role, 0)`
abbrev pub role_rank : String → ℕ
role_rank role = rank_of 0 role

-- `role in ["admin", "member"]`
abbrev pub invitable : String → Bool
invitable role = str_eq role "admin" || str_eq role "member"

-- `log_activity`
unfoldable pub log_activity : ℕ → Option ℕ → String → ℕ → Store → Store
log_activity workspace_id actor_id event_type resource_id st = record st {
  activity =
      st.activity
      ++ record {
        workspace_id = workspace_id;
        actor_id = actor_id;
        event_type = event_type;
        resource_id = resource_id;
      }
        ∷ [];
}

-- `session.delete(member)`
abbrev pub delete_member : ℕ → ℕ → Store → Store
delete_member wid uid st = record st {
  members = filter_by (λ m. not (is_member wid uid m)) st.members;
}
