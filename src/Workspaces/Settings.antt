-- ===== src/Workspaces/Settings.antt =====
-- `get_workspace_settings`, `update_workspace_settings` and `_permission_matrix` of
-- backend/app/controllers/workspaces.py. The request model leaves `role_permissions` a dictionary or
-- `None`.
use bolodb.Prelude.{
  ℕ, Bool, [], ◌∷◌, ◌++◌, Option, none, some, is_empty, get_or, ◌==◌, String, str_eq, if◌then◌else◌,
  Result, ok, err,
}
use bolodb.Prelude.Rows.{update_rows}
use bolodb.Prelude.Dict.{Dict, lookup, assign}
use bolodb.Permissions.{Setting, table, Overrides, resolve_role_permissions}
use bolodb.Workspaces.{Refusal, no_such_workspace, WorkspaceSettings, Store, log_activity}
use bolodb.Workspaces.Members.{has_workspace}
use bolodb.Workspaces.Invites.{invite_expiry_default, settings_row}

-- The defaults of `WorkspaceSettings.__init__`.
abbrev pub default_settings : ℕ → WorkspaceSettings
default_settings wid = record {
  workspace_id = wid;
  default_invite_role = "member";
  invite_expiry_days = invite_expiry_default;
  activity_retention_days = 30;
  role_permissions = [];
}

-- `_permission_matrix`
unfoldable pub permission_matrix : Option Overrides → Dict (Dict Bool)
permission_matrix overrides =
    ("owner", resolve_role_permissions "owner" overrides)
    ∷ ("admin", resolve_role_permissions "admin" overrides)
    ∷ ("member", resolve_role_permissions "member" overrides)
    ∷ []

-- The answer of both handlers.
pub record SettingsView : Type 0 where
  pub settings : WorkspaceSettings
  pub resolved_matrix : Dict (Dict Bool)
  pub default_matrix : Dict (Dict Bool)

abbrev pub view_of : WorkspaceSettings → SettingsView
view_of s = record {
  settings = s;
  resolved_matrix = permission_matrix (some s.role_permissions);
  default_matrix = permission_matrix none;
}

abbrev pub is_settings_of : ℕ → WorkspaceSettings → Bool
is_settings_of wid s = s.workspace_id == wid

unfoldable pub read_settings :
    ℕ → Option WorkspaceSettings → Store → Result Refusal (SettingsView × Store)
read_settings wid (some s) st = ok (view_of s, st)
read_settings wid none st =
    if has_workspace wid st
    then ok (
      view_of (default_settings wid),
      record st { settings = st.settings ++ default_settings wid ∷ [] },
    )
    else err no_such_workspace

-- `get_workspace_settings`: the row is made when it is not there.
unfoldable pub get_workspace_settings : ℕ → Store → Result Refusal (SettingsView × Store)
get_workspace_settings wid st = read_settings wid (settings_row wid st) st

module _ {ℓ} {V : Type ℓ} where
  -- `d.pop(key, None)`
  unfoldable pub pop : String → Dict V → Dict V
  pop key [] = []
  pop key ((k, v) ∷ d) = let rest = pop key d in if str_eq k key then rest else (k, v) ∷ rest

  -- `{**old, **new}`
  unfoldable pub merge : Dict V → Dict V → Dict V
  merge old [] = old
  merge old ((k, v) ∷ new) = merge (assign k v old) new

-- The entry of a role: two dictionaries are merged, and otherwise the new entry stands.
abbrev pub merged_entry : Option Setting → Setting → Setting
merged_entry (some (table old)) (table new) = table (merge old new)
merged_entry _ entry = entry

-- The loop over the roles of the request.
unfoldable pub merge_roles : Overrides → Overrides → Overrides
merge_roles merged [] = merged
merge_roles merged ((role, entry) ∷ rest) =
    let skipped = merge_roles merged rest in
    let taken = merge_roles (assign role (merged_entry (lookup role merged) entry) merged) rest in
    if str_eq role "owner" then skipped else taken

-- What `role_permissions` becomes: an empty request clears it.
unfoldable pub new_permissions : Option Overrides → Overrides → Overrides
new_permissions none old = old
new_permissions (some given) old =
    if is_empty given then [] else pop "owner" (merge_roles (pop "owner" old) (pop "owner" given))

-- The fields of the request that may be set.
pub record SettingsUpdate : Type 0 where
  pub default_invite_role : Option String
  pub invite_expiry_days : Option ℕ
  pub activity_retention_days : Option ℕ
  pub role_permissions : Option Overrides

unfoldable pub changed : SettingsUpdate → WorkspaceSettings → WorkspaceSettings
changed u s = record s {
  default_invite_role = get_or u.default_invite_role s.default_invite_role;
  invite_expiry_days = get_or u.invite_expiry_days s.invite_expiry_days;
  activity_retention_days = get_or u.activity_retention_days s.activity_retention_days;
  role_permissions = new_permissions u.role_permissions s.role_permissions;
}

-- The row of the workspace, written or added.
unfoldable pub put_settings : ℕ → WorkspaceSettings → Option WorkspaceSettings → Store → Store
put_settings wid s none st = record st { settings = st.settings ++ s ∷ [] }
put_settings wid s (some old) st = record st {
  settings = update_rows (is_settings_of wid) (λ _. s) st.settings;
}

abbrev pub settings_or_default : ℕ → Option WorkspaceSettings → WorkspaceSettings
settings_or_default wid found = get_or found (default_settings wid)

-- `update_workspace_settings`
unfoldable pub update_workspace_settings :
    ℕ → SettingsUpdate → Option ℕ → Store → Result Refusal (SettingsView × Store)
update_workspace_settings wid u actor_id st =
    let s = changed u (settings_or_default wid (settings_row wid st)) in
    if has_workspace wid st
    then ok (
      view_of s,
      log_activity wid actor_id "workspace.settings_updated" wid
          (put_settings wid s (settings_row wid st) st),
    )
    else err no_such_workspace
