-- ===== src/Permissions/Resolved.antt =====
-- `has_permission` against a direct description of who may do what.
use bolodb.Prelude.{
  Bool, true, false, ◌&&◌, ◌||◌, ◌≡◌, refl, ap, ◌∙◌, [], ◌∷◌, Option, none, some, inl, inr, arith,
  String, str_eq, eq_iff, if◌then◌else◌, get_or, Bool-cases,
}
use bolodb.Prelude.Dict.{Dict, lookup, has_key, mem_text, lookup-assign}
use bolodb.Permissions.{
  flag, table, other, Setting, absent, settings, key_text, Permission, permissions,
  member_default_permissions, Overrides, Argument, flat_entries, names_permission, flat_overrides,
  role_table, role_overrides, assign_known, apply_overrides, every_key, default_permissions,
  apply_or_base, resolve_role_permissions, key_of, settings_of, granted, has_permission,
}

abbrev pub or_else : Option Bool → Option Bool → Option Bool
or_else none b = b
or_else (some a) b = some a

-- The Boolean that stands last under the key.
abbrev pub flag_at : String → Dict (Option Bool) → Option Bool
flag_at key [] = none
flag_at key ((k, v) ∷ entries) = or_else (flag_at key entries) (if str_eq k key then v else none)

-- The Boolean that the overrides themselves have under the key.
abbrev pub flag_among : String → Overrides → Option Bool
flag_among key [] = none
flag_among key ((k, flag b) ∷ os) =
    or_else (flag_among key os) (if str_eq k key then some b else none)
flag_among key ((k, table d) ∷ os) = flag_among key os
flag_among key ((k, other) ∷ os) = flag_among key os

-- What the overrides say of a key for a role that has the setting in them: a dictionary of its own decides
-- alone, and otherwise the overrides are read as one for every role.
abbrev pub override : Option Setting → Overrides → String → Option Bool
override (some (table d)) os key = flag_at key d
override (some (flag b)) os key = flag_among key os
override (some other) os key = flag_among key os
override none os key = flag_among key os

-- What the role may do by default.
abbrev pub default : String → String → Bool
default role key =
    str_eq role "owner"
    || str_eq role "admin"
    || (str_eq role "member" && mem_text key member_default_permissions)

lookup-every_key :
    (key : String) (value : String → Bool) (registry : Dict Permission)
    → lookup key (every_key value registry)
      ≡ (if has_key key registry then some (value key) else none)
unfolding lookup every_key
lookup-every_key key value [] = refl
lookup-every_key key value ((k, p) ∷ registry) = elim (Bool-cases (str_eq k key)) [
  | inl e ↦ rw (e, (eq_iff k key).0 e)
  | inr e ↦ rw e (lookup-every_key key value registry)
]

or_else-none : (b : Bool) (o : Option Bool) → or_else o (if b then none else none) ≡ o
or_else-none b (some a) = refl
or_else-none true none = refl
or_else-none false none = refl

flag_at-flat_entries :
    (key : String) (os : Overrides) → flag_at key (flat_entries os) ≡ flag_among key os
unfolding flat_entries
flag_at-flat_entries key [] = refl
flag_at-flat_entries key ((k, flag b) ∷ os) =
    ap (λ o. or_else o (if str_eq k key then some b else none)) (flag_at-flat_entries key os)
flag_at-flat_entries key ((k, table d) ∷ os) =
    rw (flag_at-flat_entries key os) (or_else-none (str_eq k key) (flag_among key os))
flag_at-flat_entries key ((k, other) ∷ os) =
    rw (flag_at-flat_entries key os) (or_else-none (str_eq k key) (flag_among key os))

-- The overrides that a dictionary of `entries` or none stands for.
abbrev read : String → Option (Dict (Option Bool)) → Option Bool
read key none = none
read key (some entries) = flag_at key entries

module _ (key : String) (known : has_key key permissions ≡ true) where
  -- Overrides that name no permission do not name this one.
  flag_among-unnamed : (os : Overrides) → names_permission os ≡ false → flag_among key os ≡ none
  unfolding names_permission
  flag_among-unnamed [] h = refl
  flag_among-unnamed ((k, flag b) ∷ os) h =
      ground (arith, flag_among-unnamed os, eq_iff k key, known)
  flag_among-unnamed ((k, table d) ∷ os) h = flag_among-unnamed os (ground arith)
  flag_among-unnamed ((k, other) ∷ os) h = flag_among-unnamed os (ground arith)

  read-flat_overrides : (os : Overrides) → read key (flat_overrides os) ≡ flag_among key os
  unfolding flat_overrides
  read-flat_overrides os = elim (Bool-cases (names_permission os)) [
    | inl named ↦ rw named (flag_at-flat_entries key os)
    | inr unnamed ↦ rw (unnamed, flag_among-unnamed os unnamed) refl
  ]

  read-role_table :
      (own : Option Setting) (os : Overrides) → read key (role_table own os) ≡ override own os key
  unfolding role_table
  read-role_table none os = read-flat_overrides os
  read-role_table (some (flag b)) os = read-flat_overrides os
  read-role_table (some other) os = read-flat_overrides os
  read-role_table (some (table d)) os = refl

  lookup-assign_known :
      (k : String) (enabled : Option Bool) (base : Dict Bool)
      → lookup key (assign_known k enabled base)
        ≡ or_else (if str_eq k key then enabled else none) (lookup key base)
  unfolding assign_known
  lookup-assign_known k none base = ground arith
  lookup-assign_known k (some b) base =
      ground (arith, lookup-assign k key b base, eq_iff k key, known)

  lookup-apply_overrides :
      (entries : Dict (Option Bool)) (base : Dict Bool)
      → lookup key (apply_overrides entries base) ≡ or_else (flag_at key entries) (lookup key base)
  unfolding apply_overrides
  lookup-apply_overrides [] base = refl
  lookup-apply_overrides ((k, v) ∷ entries) base =
      ground (
        arith,
        lookup-apply_overrides entries (assign_known k v base),
        lookup-assign_known k v base,
      )

  lookup-default : (role : String) → lookup key (default_permissions role) ≡ some (default role key)
  unfolding default_permissions
  lookup-default role = ground (
    arith,
    lookup-every_key key (λ _. true) permissions,
    lookup-every_key key (λ _. false) permissions,
    lookup-every_key key (λ k. mem_text k member_default_permissions) permissions,
    known,
  )

  lookup-apply_or_base :
      (entries : Option (Dict (Option Bool))) (role : String)
      → lookup key (apply_or_base entries (default_permissions role))
        ≡ some (get_or (read key entries) (default role key))
  unfolding apply_or_base
  lookup-apply_or_base none role = lookup-default role
  lookup-apply_or_base (some es) role =
      ground (arith, lookup-apply_overrides es (default_permissions role), lookup-default role)

  lookup-resolve :
      (role : String)
      → str_eq role "owner" ≡ false
      → lookup key (resolve_role_permissions role none) ≡ some (default role key)
  unfolding resolve_role_permissions
  lookup-resolve role h = ground (arith, lookup-default role)

  lookup-resolve-overrides :
      (role : String) (os : Overrides)
      → str_eq role "owner" ≡ false
      → lookup key (resolve_role_permissions role (some os))
        ≡ some (get_or (override (lookup role os) os key) (default role key))
  unfolding resolve_role_permissions role_overrides lookup
  lookup-resolve-overrides role [] h = ground (arith, lookup-default role)
  lookup-resolve-overrides role (o ∷ os) h =
      let base = default_permissions role in
      let found : lookup key (apply_or_base (role_table (lookup role (o ∷ os)) (o ∷ os)) base)
          ≡ some (get_or (override (lookup role (o ∷ os)) (o ∷ os) key) (default role key)) =
        lookup-apply_or_base (role_table (lookup role (o ∷ os)) (o ∷ os)) role
        ∙ ap (λ f. some (get_or f (default role key)))
            (read-role_table (lookup role (o ∷ os)) (o ∷ os)) in
      ap
        (λ b. lookup key (
          if b
          then every_key (λ _. true) permissions
          else apply_or_base (role_table (lookup role (o ∷ os)) (o ∷ os)) base))
        h
      ∙ found

-- The empty key is not in the registry.
has_key-blank : has_key "" permissions ≡ false
unfolding lookup permissions
has_key-blank = refl

-- Who may do what: nobody anything outside the registry; the owner everything in it; any other role what
-- an override of the key says, and without one what the default says. No overrides are empty ones.
abbrev pub allowed : String → Overrides → String → Bool
allowed role os key =
    has_key key permissions
    && (str_eq role "owner" || get_or (override (lookup role os) os key) (default role key))

-- The same for the ways to call `has_permission`; a call without a key is refused.
abbrev pub may : String → Argument → Option String → Bool
may role absent (some key) = allowed role [] key
may role (settings os) (some key) = allowed role os key
may role (key_text k) (some key) = allowed role [] key
may role (key_text k) none = allowed role [] k
may role absent none = false
may role (settings os) none = false

-- The overrides, or none.
abbrev listed : Option Overrides → Overrides
listed none = []
listed (some os) = os

granted-eq-allowed :
    (role : String) (overrides : Option Overrides) (key : String)
    → granted role overrides (some key) ≡ allowed role (listed overrides) key
unfolding granted lookup
granted-eq-allowed role none key = elim (Bool-cases (has_key key permissions)) [
  | inl known ↦ ground (arith, lookup-resolve key known role, has_key-blank, eq_iff key "")
  | inr unknown ↦ ground arith
]
granted-eq-allowed role (some os) key = elim (Bool-cases (has_key key permissions)) [
  | inl known ↦
      ground (arith, lookup-resolve-overrides key known role os, has_key-blank, eq_iff key "")
  | inr unknown ↦ ground arith
]

-- `has_permission` grants a key, given in either place, exactly when it is in the registry and the
-- role is the owner's, or an override of the key for the role says so, or there is none and the role
-- has the key by default; the overrides for a role are its own dictionary where it has one, and
-- otherwise the Booleans that stand under the keys themselves.
pub has_permission-eq-may :
    (role : String) (overrides : Argument) (permission_key : Option String)
    → has_permission role overrides permission_key ≡ may role overrides permission_key
unfolding has_permission settings_of key_of granted
has_permission-eq-may role absent none = refl
has_permission-eq-may role (settings os) none = refl
has_permission-eq-may role (key_text k) none = granted-eq-allowed role none k
has_permission-eq-may role absent (some key) = granted-eq-allowed role none key
has_permission-eq-may role (settings os) (some key) = granted-eq-allowed role (some os) key
has_permission-eq-may role (key_text k) (some key) = granted-eq-allowed role none key

-- What a role may do that has a dictionary of its own.
pub has_permission-table :
    (role key : String) (overrides : Overrides) (entries : Dict (Option Bool))
    → str_eq role "owner" ≡ false
    → lookup role overrides ≡ some (table entries)
    → has_permission role (settings overrides) (some key)
      ≡ (has_key key permissions && get_or (flag_at key entries) (default role key))
has_permission-table role key overrides entries plain here =
    has_permission-eq-may role (settings overrides) (some key) ∙ rw (plain, here) refl
