-- ===== src/Workspaces/Merging.antt =====
-- What a settings update makes of the overrides, and of what a role may do: `update_workspace_settings`
-- of backend/app/controllers/workspaces.py with `has_permission` of backend/app/permissions.py.
pub mod Stored
use bolodb.Prelude.{
  ◌≡◌, refl, ap, sym, ◌∙◌, subst, Bool, true, false, not, ◌&&◌, ◌||◌, List, [], ◌∷◌, Option, none,
  some, arith, is_empty, get_or, String, str_eq, eq_iff, if◌then◌else◌, inl, inr, Bool-cases,
}
use bolodb.Prelude.Dict.{Dict, lookup, assign, has_key, lookup-assign}
use bolodb.Permissions.{
  Setting, flag, table, Overrides, settings, permissions, settings_of, key_of, has_permission,
}
use bolodb.Permissions.Resolved.{or_else, flag_at, override, default, may, has_permission-eq-may}
use bolodb.Workspaces.Settings.{pop, merge, merged_entry, merge_roles, new_permissions}

-- No key stands twice, as in every `dict`.
abbrev pub UniqueKeys {ℓ} : {V : Type ℓ} → Dict V → Type ℓ
UniqueKeys [] = Unit
UniqueKeys ((k, v) ∷ d) = (lookup k d ≡ none) × UniqueKeys d

module _ {V : Type 0} where
  pub lookup-pop :
      (key j : String) (d : Dict V)
      → lookup j (pop key d) ≡ (if str_eq key j then none else lookup j d)
  unfolding lookup pop
  lookup-pop key j [] = ground arith
  lookup-pop key j ((k, v) ∷ d) =
      ground (arith, lookup-pop key j d, eq_iff k key, eq_iff k j, eq_iff key j)

  pub UniqueKeys-pop : (key : String) (d : Dict V) → UniqueKeys d → UniqueKeys (pop key d)
  unfolding pop
  UniqueKeys-pop key [] u = tt
  UniqueKeys-pop key ((k, v) ∷ d) u = elim (Bool-cases (str_eq k key)) [
    | inl e ↦ rw e (UniqueKeys-pop key d u.1)
    | inr e ↦ rw e (ground (arith, lookup-pop key k d, u.0), UniqueKeys-pop key d u.1)
  ]

  UniqueKeys-assign :
      (key : String) (v : V) (d : Dict V) → UniqueKeys d → UniqueKeys (assign key v d)
  unfolding assign lookup
  UniqueKeys-assign key v [] u = (refl, tt)
  UniqueKeys-assign key v ((k, w) ∷ d) u = elim (Bool-cases (str_eq k key)) [
    | inl e ↦ rw e u
    | inr e ↦ rw e (
      ground (arith, lookup-assign key k v d, eq_iff k key, eq_iff key k, u.0),
      UniqueKeys-assign key v d u.1,
    )
  ]

-- The entry that a request makes of an old one.
abbrev pub entry_after : Option Setting → Option Setting → Option Setting
entry_after none old = old
entry_after (some entry) old = some (merged_entry old entry)

pub lookup-merge_roles :
    (role : String) (merged given : Overrides)
    → str_eq role "owner" ≡ false
    → UniqueKeys given
    → lookup role (merge_roles merged given) ≡ entry_after (lookup role given) (lookup role merged)
unfolding merge_roles lookup
lookup-merge_roles role merged [] plain u = refl
lookup-merge_roles role merged ((r, entry) ∷ rest) plain u =
    let new = merged_entry (lookup r merged) entry in
    let later = lookup-merge_roles role (assign r new merged) rest plain u.1 in
    let skipped = lookup-merge_roles role merged rest plain u.1 in
    let written = lookup-assign r role new merged in
    elim (Bool-cases (str_eq r role)) [
      | inl here ↦
          let same : r ≡ role = (eq_iff r role).0 here in
          let not_owner : str_eq r "owner" ≡ false = cc (ap (λ k. str_eq k "owner") same, plain) in
          let absent : lookup role rest ≡ none = cc (ap (λ k. lookup k rest) same, u.0) in
          rw (not_owner, here)
            (later
              ∙ ap (λ o. entry_after o (lookup role (assign r new merged))) absent
              ∙ written
              ∙ (rw here (ap (λ k. some (merged_entry (lookup k merged) entry)) same)))
      | inr elsewhere ↦ elim (Bool-cases (str_eq r "owner")) [
        | inl owner ↦ rw (owner, elsewhere) skipped
        | inr role_too ↦
            rw (role_too, elsewhere)
              (later ∙ ap (λ o. entry_after (lookup role rest) o) (written ∙ rw elsewhere refl))
      ]
    ]

-- The flag that a request makes of an old one; a value that is no Boolean takes it away.
abbrev pub flag_after : Option (Option Bool) → Option Bool → Option Bool
flag_after none old = old
flag_after (some v) old = v

flag_at-absent :
    (key : String) (d : Dict (Option Bool)) → lookup key d ≡ none → flag_at key d ≡ none
unfolding lookup
flag_at-absent key [] h = refl
flag_at-absent key ((k, v) ∷ d) h = elim (Bool-cases (str_eq k key)) [
  | inl e ↦ absurd (cc (rw e at h))
  | inr e ↦ rw (e, flag_at-absent key d (rw e at h)) refl
]

or_else-none : (o : Option Bool) → or_else o none ≡ o
or_else-none none = refl
or_else-none (some b) = refl

flag_at-assign :
    (key k : String) (v : Option Bool) (d : Dict (Option Bool))
    → UniqueKeys d
    → flag_at key (assign k v d) ≡ (if str_eq k key then v else flag_at key d)
unfolding assign
flag_at-assign key k v [] u = refl
flag_at-assign key k v ((j, w) ∷ d) u = elim (Bool-cases (str_eq j k)) [
  | inl e ↦
      let same : j ≡ k = (eq_iff j k).0 e in
      elim (Bool-cases (str_eq k key)) [
        | inl here ↦
            let at_key : k ≡ key = (eq_iff k key).0 here in
            let absent : lookup key d ≡ none = cc (ap (λ i. lookup i d) (same ∙ at_key), u.0) in
            rw (e, here, flag_at-absent key d absent)
              (ap (λ i. if str_eq i key then v else none) same ∙ rw here refl)
        | inr elsewhere ↦
            let old : str_eq j key ≡ false = cc (ap (λ i. str_eq i key) same, elsewhere) in
            rw (e, elsewhere, old) refl
      ]
  | inr e ↦
      let later = flag_at-assign key k v d u.1 in
      elim (Bool-cases (str_eq k key)) [
        | inl here ↦
            let old : str_eq j key ≡ false = cc (ap (λ i. str_eq j i) ((eq_iff k key).0 here), e) in
            rw (e, old, here, later, here) (or_else-none v)
        | inr elsewhere ↦ rw (e, elsewhere, later, elsewhere) refl
      ]
]

pub flag_at-merge :
    (key : String) (old new : Dict (Option Bool))
    → UniqueKeys old
    → UniqueKeys new
    → flag_at key (merge old new) ≡ flag_after (lookup key new) (flag_at key old)
unfolding merge lookup
flag_at-merge key old [] u w = refl
flag_at-merge key old ((k, v) ∷ new) u w =
    let later = flag_at-merge key (assign k v old) new (UniqueKeys-assign k v old u) w.1 in
    let written = flag_at-assign key k v old u in
    elim (Bool-cases (str_eq k key)) [
      | inl here ↦
          let absent : lookup key new ≡ none =
            cc (ap (λ i. lookup i new) ((eq_iff k key).0 here), w.0) in
          rw here (
            later
            ∙ ap (λ o. flag_after o (flag_at key (assign k v old))) absent
            ∙ written
            ∙ rw here refl)
      | inr elsewhere ↦
          rw elsewhere
            (later ∙ ap (λ o. flag_after (lookup key new) o) (written ∙ rw elsewhere refl))
    ]

pub flag_at_unique :
    (key : String) (d : Dict (Option Bool))
    → UniqueKeys d
    → flag_at key d ≡ flag_after (lookup key d) none
unfolding lookup
flag_at_unique key [] u = refl
flag_at_unique key ((k, v) ∷ d) u = elim (Bool-cases (str_eq k key)) [
  | inl here ↦
      let absent : lookup key d ≡ none = cc (ap (λ i. lookup i d) ((eq_iff k key).0 here), u.0) in
      rw (here, flag_at-absent key d absent) refl
  | inr elsewhere ↦ rw elsewhere (or_else-none (flag_at key d) ∙ flag_at_unique key d u.1)
]
