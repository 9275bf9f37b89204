-- ===== src/Permissions/Keys.antt =====
-- The resolved dictionary has the keys of the registry, whatever the overrides hold.
use bolodb.Prelude.{
  Bool, true, false, ◌≡◌, refl, ap, [], ◌∷◌, Option, none, some, inl, inr, arith, String, str_eq,
  Bool-cases,
}
use bolodb.Prelude.Dict.{Dict, lookup, assign, has_key, mem_text, keys}
use bolodb.Permissions.{
  Permission, permissions, member_default_permissions, Overrides, role_overrides, assign_known,
  apply_overrides, every_key, default_permissions, apply_or_base, resolve_role_permissions,
}

keys-every_key :
    (value : String → Bool) (registry : Dict Permission)
    → keys (every_key value registry) ≡ keys registry
unfolding keys every_key
keys-every_key value [] = refl
keys-every_key value ((k, p) ∷ registry) = ap (λ ks. k ∷ ks) (keys-every_key value registry)

keys-assign_has :
    (key : String) (v : Bool) (d : Dict Bool)
    → has_key key d ≡ true
    → keys (assign key v d) ≡ keys d
unfolding keys assign lookup
keys-assign_has key v [] h = cc h
keys-assign_has key v ((k, w) ∷ d) h = elim (Bool-cases (str_eq k key)) [
  | inl e ↦ rw e
  | inr e ↦ rw e (ap (λ ks. k ∷ ks) (keys-assign_has key v d (rw e at h)))
]

-- The keys decide what is found.
has_key-eq_of_keys {ℓ κ} :
    {V : Type ℓ} {W : Type κ} (key : String) (d : Dict V) (e : Dict W)
    → keys d ≡ keys e
    → has_key key d ≡ has_key key e
unfolding keys lookup
has_key-eq_of_keys key [] [] h = refl
has_key-eq_of_keys key [] (_ ∷ e) h = cc h
has_key-eq_of_keys key (_ ∷ d) [] h = cc h
has_key-eq_of_keys key ((k, v) ∷ d) ((j, w) ∷ e) h = ground (arith, has_key-eq_of_keys key d e)

keys-apply_overrides :
    (entries : Dict (Option Bool)) (base : Dict Bool)
    → keys base ≡ keys permissions
    → keys (apply_overrides entries base) ≡ keys permissions
unfolding apply_overrides assign_known
keys-apply_overrides [] base h = h
keys-apply_overrides ((k, none) ∷ entries) base h = keys-apply_overrides entries base h
keys-apply_overrides ((k, some b) ∷ entries) base h =
    keys-apply_overrides entries (assign_known k (some b) base)
      (ground (arith, has_key-eq_of_keys k base permissions, keys-assign_has k b base))

keys-default_permissions : (role : String) → keys (default_permissions role) ≡ keys permissions
unfolding default_permissions
keys-default_permissions role = ground (
  arith,
  keys-every_key (λ _. true) permissions,
  keys-every_key (λ _. false) permissions,
  keys-every_key (λ k. mem_text k member_default_permissions) permissions,
)

keys-apply_or_base :
    (entries : Option (Dict (Option Bool))) (role : String)
    → keys (apply_or_base entries (default_permissions role)) ≡ keys permissions
unfolding apply_or_base
keys-apply_or_base none role = keys-default_permissions role
keys-apply_or_base (some entries) role =
    keys-apply_overrides entries (default_permissions role) (keys-default_permissions role)

-- Whatever the role and the overrides, the resolved dictionary has exactly the keys of the registry,
-- in its order.
pub keys-resolve_role_permissions :
    (role : String) (overrides : Option Overrides)
    → keys (resolve_role_permissions role overrides) ≡ keys permissions
unfolding resolve_role_permissions
keys-resolve_role_permissions role none =
    ground (arith, keys-every_key (λ _. true) permissions, keys-default_permissions role)
keys-resolve_role_permissions role (some overrides) = ground (
  arith,
  keys-every_key (λ _. true) permissions,
  keys-default_permissions role,
  keys-apply_or_base (role_overrides role overrides) role,
)
