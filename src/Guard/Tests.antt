-- ===== src/Guard/Tests.antt =====
-- The theorems about the guards at a concrete request of an owner.
use bolodb.Prelude.{
  ◌≡◌, refl, true, ◌||◌, [], ◌∷◌, none, some, ◌==◌, str_eq, ok, err, String, if◌then◌else◌,
}
use bolodb.Prelude.Rows.{find}
use bolodb.Permissions.{has_permission}
use bolodb.Guard.{
  Backend, Claims, signed, WorkspaceMember, WorkspaceSettings, overrides_of, insufficient,
  token_version_is_current, check_token, get_current_user, member_of, get_current_workspace,
  require_role, workspace_has_permission, require_permission,
}
use bolodb.Guard.Access.{IsMember, may_enter, require_permission-IsMember, require_role-IsMember}

abbrev session : Claims
session = record { typ = some "access"; user_id = some "ana"; sub = none; ver = some 2 }

abbrev ana : WorkspaceMember
ana = record { workspace_id = 1; user_id = 1; role = "owner" }

-- Every token is a session of Ana, and every text is the identifier 1.
abbrev backend : Backend
backend = record {
  decode = λ token. signed session;
  to_uuid = λ text. some 1;
  users = record { id = 1; token_version = 2 } ∷ [];
  members = ana ∷ [];
  workspace_settings = [];
}

admitted : require_permission backend "schedules.manage" (some "w") (some "token") ≡ ok ana
unfolding require_permission workspace_has_permission get_current_workspace get_current_user
    check_token token_version_is_current member_of find
admitted = refl

require_permission-IsMember_example :
    IsMember backend (some "w") (some "token") ana
    × ((str_eq ana.role "owner"
          || has_permission ana.role
              (overrides_of (
                find
                  (λ (s : WorkspaceSettings). s.workspace_id == ana.workspace_id)
                  backend.workspace_settings))
              (some "schedules.manage"))
        ≡ true)
require_permission-IsMember_example =
    require_permission-IsMember backend "schedules.manage" (some "w") (some "token") ana admitted

ranked : require_role backend "admin" (some "w") (some "token") ≡ ok ana
unfolding require_role get_current_workspace get_current_user check_token token_version_is_current
    member_of find
ranked = refl

require_role-IsMember_example :
    IsMember backend (some "w") (some "token") ana
    × (may_enter "admin" ana.role ≡ true)
    × ((other_role : String)
        → require_role backend other_role (some "w") (some "token")
          ≡ (if may_enter other_role ana.role then ok ana else err insufficient))
require_role-IsMember_example =
    require_role-IsMember backend "admin" (some "w") (some "token") ana ranked
