-- ===== src/Permissions.antt =====
-- The permission registry and its resolution (backend/app/permissions.py).
mod Registry
pub mod Resolved
pub mod Keys
pub mod Defaults
mod Tests
unfoldable pub use Registry.*
use bolodb.Prelude.{
  Bool, true, false, not, ◌&&◌, ◌||◌, List, [], ◌∷◌, Option, none, some, map, String, str_eq,
  is_empty, if◌then◌else◌, get_or,
}
use bolodb.Prelude.Dict.{Dict, lookup, assign, has_key, mem_text}

-- What an override dictionary may hold under a key: a Boolean, a dictionary of its own (whose values
-- are Booleans or something else, `none`), or anything else.
pub data Setting : Type 0 where
  flag : Bool → Setting
  table : Dict (Option Bool) → Setting
  other : Setting

abbrev pub Overrides : Type 0
Overrides = Dict Setting

-- The `overrides` argument of `has_permission`: absent, a dictionary, or the key in its place.
pub data Argument : Type 0 where
  absent : Argument
  settings : Overrides → Argument
  key_text : String → Argument

abbrev flag_of : Setting → Option Bool
flag_of (flag b) = some b
flag_of (table d) = none
flag_of other = none

flat_entries : Overrides → Dict (Option Bool)
flat_entries [] = []
flat_entries ((k, v) ∷ overrides) = (k, flag_of v) ∷ flat_entries overrides

-- `any(k in PERMISSIONS for k in overrides.keys())`
names_permission : Overrides → Bool
names_permission [] = false
names_permission ((k, v) ∷ overrides) = has_key k permissions || names_permission overrides

flat_overrides : Overrides → Option (Dict (Option Bool))
flat_overrides overrides =
    if names_permission overrides then some (flat_entries overrides) else none

-- The overrides of the role: its own dictionary, or else the whole argument if it is a flat one.
role_table : Option Setting → Overrides → Option (Dict (Option Bool))
role_table (some (table d)) overrides = some d
role_table _ overrides = flat_overrides overrides

pub role_overrides : String → Overrides → Option (Dict (Option Bool))
role_overrides role overrides = role_table (lookup role overrides) overrides

assign_known : String → Option Bool → Dict Bool → Dict Bool
assign_known key none base = base
assign_known key (some enabled) base =
    if has_key key permissions then assign key enabled base else base

-- The loop over `role_overrides.items()`.
apply_overrides : Dict (Option Bool) → Dict Bool → Dict Bool
apply_overrides [] base = base
apply_overrides ((key, enabled) ∷ rest) base = apply_overrides rest (assign_known key enabled base)

-- `{perm_key: value perm_key for perm_key in PERMISSIONS}`
every_key : (String → Bool) → Dict Permission → Dict Bool
every_key value [] = []
every_key value ((key, p) ∷ registry) = (key, value key) ∷ every_key value registry

-- `DEFAULT_ROLE_PERMISSIONS.get(role, ...)`
default_permissions : String → Dict Bool
default_permissions role =
    if str_eq role "owner" || str_eq role "admin"
    then every_key (λ _. true) permissions
    else if str_eq role "member"
    then every_key (λ key. mem_text key member_default_permissions) permissions
    else every_key (λ _. false) permissions

apply_or_base : Option (Dict (Option Bool)) → Dict Bool → Dict Bool
apply_or_base none base = base
apply_or_base (some entries) base = apply_overrides entries base

pub resolve_role_permissions : String → Option Overrides → Dict Bool
resolve_role_permissions role none =
    if str_eq role "owner" then every_key (λ _. true) permissions else default_permissions role
resolve_role_permissions role (some overrides) =
    if str_eq role "owner"
    then every_key (λ _. true) permissions
    else if is_empty overrides
    then default_permissions role
    else apply_or_base (role_overrides role overrides) (default_permissions role)

-- The two ways to call `has_permission`: the key in the second place, or in the third.
pub key_of : Argument → Option String → Option String
key_of (key_text k) none = some k
key_of _ permission_key = permission_key

pub settings_of : Argument → Option Overrides
settings_of absent = none
settings_of (settings overrides) = some overrides
settings_of (key_text k) = none

-- Checked against the registry before the role is looked at.
granted : String → Option Overrides → Option String → Bool
granted role overrides none = false
granted role overrides (some key) =
    if str_eq key "" || not (has_key key permissions)
    then false
    else if str_eq role "owner"
    then true
    else get_or (lookup key (resolve_role_permissions role overrides)) false

pub has_permission : String → Argument → Option String → Bool
has_permission role overrides permission_key =
    granted role (settings_of overrides) (key_of overrides permission_key)
