-- ===== src/Permissions/Defaults.antt =====
-- The `default_roles` of the registry against what `has_permission` grants.
use bolodb.Prelude.{
  true, false, ◌≡◌, refl, ◌⊎◌, inl, inr, [], ◌∷◌, String, some, arith, str_eq, eq_iff, All,
  Bool-cases, subst,
}
use bolodb.Prelude.Dict.{Dict, lookup, mem_text}
use bolodb.Permissions.{
  Permission, everyone, admins, permissions, member_default_permissions, absent, has_permission,
}
use bolodb.Permissions.Resolved.{has_permission-eq-may}

-- An entry that names members is a default of theirs, and every other one is not.
abbrev Agrees : String × Permission → Type 0
Agrees (key, p) =
    (p.default_roles ≡ everyone) × (mem_text key member_default_permissions ≡ true)
    ⊎ (p.default_roles ≡ admins) × (mem_text key member_default_permissions ≡ false)

permissions-Agrees : All Agrees permissions
unfolding permissions member_default_permissions mem_text
permissions-Agrees = (
  inl (refl, refl),
  (
    inr (refl, refl),
    (
      inr (refl, refl),
      (
        inr (refl, refl),
        (
          inl (refl, refl),
          (
            inr (refl, refl),
            (
              inl (refl, refl),
              (
                inl (refl, refl),
                (
                  inr (refl, refl),
                  (
                    inl (refl, refl),
                    (
                      inr (refl, refl),
                      (
                        inr (refl, refl),
                        (
                          inl (refl, refl),
                          (
                            inl (refl, refl),
                            (
                              inl (refl, refl),
                              (
                                inr (refl, refl),
                                (
                                  inl (refl, refl),
                                  (
                                    inr (refl, refl),
                                    (
                                      inr (refl, refl),
                                      (
                                        inr (refl, refl),
                                        (
                                          inl (refl, refl),
                                          (inr (refl, refl), (inr (refl, refl), tt)),
                                        ),
                                      ),
                                    ),
                                  ),
                                ),
                              ),
                            ),
                          ),
                        ),
                      ),
                    ),
                  ),
                ),
              ),
            ),
          ),
        ),
      ),
    ),
  ),
)

of_lookup :
    (key : String) (p : Permission) (registry : Dict Permission)
    → All Agrees registry
    → lookup key registry ≡ some p
    → Agrees (key, p)
unfolding lookup
of_lookup key p [] h e = cc e
of_lookup key p ((k, q) ∷ registry) h e = elim (Bool-cases (str_eq k key)) [
  | inl same ↦
      let found : q ≡ p = cc (rw same at e) in
      subst (λ r. Agrees (key, r)) found (subst (λ j. Agrees (j, q)) ((eq_iff k key).0 same) h.0)
  | inr other ↦ of_lookup key p registry h.1 (rw other at e)
]

-- Without overrides, a registered permission is granted to exactly the roles that its `default_roles`
-- names.
pub has_permission-default_roles :
    (role key : String) (p : Permission)
    → lookup key permissions ≡ some p
    → has_permission role absent (some key) ≡ mem_text role p.default_roles
unfolding mem_text everyone admins lookup
has_permission-default_roles role key p e = rw has_permission-eq-may (
    ground (
      arith,
      of_lookup key p permissions permissions-Agrees e,
      eq_iff role "owner",
      eq_iff role "admin",
      eq_iff role "member",
      eq_iff "owner" role,
      eq_iff "admin" role,
      eq_iff "member" role,
    ))
