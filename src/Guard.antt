-- ===== src/Guard.antt =====
-- The guards of a request in backend/app/dependencies.py. The decoding of a signed token and the reading
-- of identifiers are third-party packages' and stand as fields of `Backend`, beside the tables.
pub mod Access
mod Tests
use bolodb.Prelude.{
  ℕ, Bool, true, false, not, ◌&&◌, ◌||◌, List, [], ◌∷◌, Option, none, some, ltb, ◌==◌, String,
  str_eq, if◌then◌else◌, Result, ok, err, ◌>>=◌, get_or,
}
use bolodb.Prelude.Rows.{find}
use bolodb.Prelude.Dict.{Dict, lookup}
use bolodb.Permissions.{Overrides, settings, absent, Argument, has_permission}

-- The answers 401, 400 and 403.
pub data Denied : Type 0 where
  access_denied invalid_token session_expired : Denied
  workspace_missing invalid_ids : Denied
  not_a_member insufficient : Denied
  permission_required : String → Denied

-- The claims of a token that the guards read.
pub record Claims : Type 0 where
  pub typ : Option String
  pub user_id : Option String
  pub sub : Option String
  pub ver : Option ℕ

pub data Decoded : Type 0 where
  expired_signature invalid_signature : Decoded
  signed : Claims → Decoded

pub record WorkspaceMember : Type 0 where
  pub workspace_id : ℕ
  pub user_id : ℕ
  pub role : String

pub record User : Type 0 where
  pub id : ℕ
  pub token_version : ℕ

pub record WorkspaceSettings : Type 0 where
  pub workspace_id : ℕ
  pub role_permissions : Overrides

pub record Backend : Type 0 where
  pub decode : String → Decoded
  pub to_uuid : String → Option ℕ
  pub users : List User
  pub members : List WorkspaceMember
  pub workspace_settings : List WorkspaceSettings

abbrev pub or_text : Option String → Option String → Option String
or_text none fallback = fallback
or_text (some s) fallback = some s

abbrev pub uuid_of : Backend → Option String → Option ℕ
uuid_of b none = none
uuid_of b (some s) = b.to_uuid s

-- `_to_uuid(token_data.get("user_id", token_data.get("sub")))`, `none` where it raises.
abbrev pub user_of : Backend → Claims → Option ℕ
user_of b c = uuid_of b (or_text c.user_id c.sub)

abbrev pub same_version : Claims → Option User → Bool
same_version c none = false
same_version c (some u) = get_or c.ver 0 == u.token_version

abbrev pub version_of : Backend → Claims → Option ℕ → Bool
version_of b c none = false
version_of b c (some uid) = same_version c (find (λ (u : User). u.id == uid) b.users)

-- `_token_version_is_current`
unfoldable pub token_version_is_current : Backend → Claims → Bool
token_version_is_current b c = version_of b c (user_of b c)

-- `tokens.is_kind`
abbrev pub is_kind : Claims → String → Bool
is_kind c kind = elim c.typ [ none ↦ false | some typ ↦ str_eq typ kind ]

unfoldable pub check_token : Backend → Decoded → Result Denied Claims
check_token b expired_signature = err session_expired
check_token b invalid_signature = err invalid_token
check_token b (signed c) =
    if is_kind c "access" && token_version_is_current b c then ok c else err invalid_token

-- `get_current_user`
unfoldable pub get_current_user : Backend → Option String → Result Denied Claims
get_current_user b none = err access_denied
get_current_user b (some access_token) = check_token b (b.decode access_token)

abbrev pub is_member : ℕ → ℕ → WorkspaceMember → Bool
is_member wid uid m = m.workspace_id == wid && m.user_id == uid

abbrev pub or_not_member : Option WorkspaceMember → Result Denied WorkspaceMember
or_not_member none = err not_a_member
or_not_member (some m) = ok m

unfoldable pub member_of : Backend → Option ℕ → Option ℕ → Result Denied WorkspaceMember
member_of b (some wid) (some uid) = or_not_member (find (is_member wid uid) b.members)
member_of b _ _ = err invalid_ids

-- `get_current_workspace`
unfoldable pub get_current_workspace :
    Backend → Option String → Option String → Result Denied WorkspaceMember
get_current_workspace b none access_token =
    get_current_user b access_token >>= λ user. err workspace_missing
get_current_workspace b (some x_workspace_id) access_token =
    get_current_user b access_token >>= λ user.
    if str_eq x_workspace_id ""
    then err workspace_missing
    else member_of b (b.to_uuid x_workspace_id) (user_of b user)

-- The ranks of `require_role`; an unknown role of a member has none.
abbrev pub rank_of : ℕ → String → ℕ
rank_of unknown role =
    if str_eq role "member"
    then 1
    else if str_eq role "admin"
    then 2
    else if str_eq role "owner"
    then 3
    else unknown

-- `require_role`
unfoldable pub require_role :
    Backend → String → Option String → Option String → Result Denied WorkspaceMember
require_role b minimum_role x_workspace_id access_token =
    get_current_workspace b x_workspace_id access_token >>= λ workspace.
    (if ltb (rank_of 0 workspace.role) (rank_of 1 minimum_role)
      then err insufficient
      else ok workspace)

abbrev pub overrides_of : Option WorkspaceSettings → Argument
overrides_of none = absent
overrides_of (some s) = settings s.role_permissions

-- `workspace_has_permission`
unfoldable pub workspace_has_permission : Backend → WorkspaceMember → String → Bool
workspace_has_permission b workspace permission_key =
    if str_eq workspace.role "owner"
    then true
    else has_permission workspace.role
        (overrides_of (
          find (λ (s : WorkspaceSettings). s.workspace_id == workspace.workspace_id)
            b.workspace_settings))
        (some permission_key)

-- `require_permission`
unfoldable pub require_permission :
    Backend → String → Option String → Option String → Result Denied WorkspaceMember
require_permission b permission_key x_workspace_id access_token =
    get_current_workspace b x_workspace_id access_token >>= λ workspace.
    (if workspace_has_permission b workspace permission_key
      then ok workspace
      else err (permission_required permission_key))
