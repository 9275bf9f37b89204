-- ===== src/Permissions/Tests.antt =====
-- The permission theorems at concrete overrides.
use bolodb.Prelude.{true, false, ◌≡◌, refl, [], ◌∷◌, some}
use bolodb.Prelude.Dict.{keys, lookup, mem_text}
use bolodb.Permissions.{
  Permission, everyone, absent, Overrides, settings, table, permissions, has_permission,
  resolve_role_permissions,
}
use bolodb.Permissions.Resolved.{may, has_permission-eq-may}
use bolodb.Permissions.Defaults.{has_permission-default_roles}
use bolodb.Permissions.Keys.{keys-resolve_role_permissions}

abbrev overrides : Overrides
overrides =
    ("member", table (("queries.save", some false) ∷ ("activity.view", some true) ∷ [])) ∷ []

has_permission-eq-may_example :
    has_permission "member" (settings overrides) (some "activity.view")
    ≡ may "member" (settings overrides) (some "activity.view")
has_permission-eq-may_example =
    has_permission-eq-may "member" (settings overrides) (some "activity.view")

keys-resolve_role_permissions_example :
    keys (resolve_role_permissions "member" (some overrides)) ≡ keys permissions
keys-resolve_role_permissions_example = keys-resolve_role_permissions "member" (some overrides)

-- Saving queries is a default of members.
abbrev save_queries : Permission
save_queries = record {
  name = "Save Queries";
  category = "queries";
  description = "Save queries for workspace access";
  default_roles = "owner" ∷ "admin" ∷ "member" ∷ [];
}

lookup-save_queries : lookup "queries.save" permissions ≡ some save_queries
unfolding lookup permissions everyone
lookup-save_queries = refl

has_permission-default_roles_example :
    has_permission "admin" absent (some "queries.save")
    ≡ mem_text "admin" save_queries.default_roles
has_permission-default_roles_example =
    has_permission-default_roles "admin" "queries.save" save_queries lookup-save_queries
