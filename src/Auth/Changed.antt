-- ===== src/Auth/Changed.antt =====
-- `change_password`: the caller's new session is the only one that is left.
use bolodb.Prelude.{
  ℕ, ◌+◌, ◌≡◌, refl, sym, ap, subst, ◌∙◌, true, List, Option, none, some, arith, All, All-imp, ◌==◌,
  ==_iff, String, str_eq, inl, inr, Bool-cases, ok, err,
}
use bolodb.Prelude.Rows.{find}
use bolodb.Guard.{
  Claims, signed, user_of, same_version, version_of, is_kind, token_version_is_current, check_token,
}
use bolodb.Guard
use bolodb.Auth.{UserRow, Store, Services, backend_of}
use bolodb.Auth.Accounts.{
  has_user_id, get_user_by_id, user_at, with_password, set_password_and_revoke_sessions,
}
use bolodb.Auth.Handlers.{
  Answer, strong, create_jwt, create_access_jwt, change_for, change_password,
}
use bolodb.Auth.Calls.{Call, run, Issued}
use bolodb.Auth.Rows.{Good, find_own, find-user_view}
use bolodb.Auth.Issued.{Fair, Reads}
use bolodb.Auth.Passwords.{find-with_password, user_at_lem, change_password-Fair}
use bolodb.Auth.Revoked.{run-Fair, refused_later}

-- An answer that succeeds leaves the user with a higher version, and carries a session of it.
abbrev Renews : ℕ → String → Store → Answer → Type 0
Renews uid user_id st (later, err e) = Unit
Renews uid user_id st (later, ok claims) =
    (u : UserRow) × (v : UserRow) × (find (has_user_id uid) st.users ≡ some u)
    × (find (has_user_id uid) later.users ≡ some v)
    × (v.token_version ≡ u.token_version + 1)
    × (claims ≡ create_jwt user_id v.token_version)

module _ (s : Services) (user_id : String) (uid : ℕ) (st : Store) (g : Good st) where
  change_for-Renews :
      (old new : String) (found : Option UserRow)
      → user_at (some uid) st ≡ found
      → Renews uid user_id st (change_for s user_id old new found st)
  unfolding change_for set_password_and_revoke_sessions
  change_for-Renews old new none f = tt
  change_for-Renews old new (some u) f = elim (Bool-cases (str_eq u.hashed_pass "")) [
    | inl social ↦ rw social tt
    | inr own ↦ rw own (elim (Bool-cases (s.verify_password old u.hashed_pass)) [
      | inr wrong ↦ rw wrong tt
      | inl right ↦
          let hashed = s.hash_password new in
          let (uid', read, here, same) = user_at_lem (some uid) st u f in
          let same' : u.id ≡ uid = cc (same, read) in
          let mine = find_own (has_user_id uid) st.users u g.0 f in
          rw right (
            rw mine (
              u,
              with_password hashed u,
              f,
              find-with_password uid hashed st u f same',
              refl,
              refl,
            ))
    ])
  ]

  change_password-Renews :
      (old new : String)
      → s.backend.to_uuid user_id ≡ some uid
      → Renews uid user_id st (change_password s user_id old new st)
  unfolding change_password
  change_password-Renews old new read = elim (Bool-cases (strong new)) [
    | inr weak ↦ rw weak tt
    | inl fit ↦ rw fit (
        change_for-Renews old new (get_user_by_id s.backend.to_uuid user_id st)
          (sym (ap (λ o. user_at o st) read)))
  ]

-- The session of the current version is let in.
accepted_now :
    (s : Services) (st : Store) (user_id : String) (uid : ℕ) (v : UserRow)
    → s.backend.to_uuid user_id ≡ some uid
    → find (has_user_id uid) st.users ≡ some v
    → check_token (backend_of s st) (signed (create_access_jwt user_id v.token_version))
      ≡ ok (create_access_jwt user_id v.token_version)
unfolding check_token token_version_is_current
accepted_now s st user_id uid v read f =
    let b = backend_of s st in
    let c = create_access_jwt user_id v.token_version in
    let current : (v.token_version == v.token_version) ≡ true =
      (==_iff v.token_version v.token_version).1 refl in
    let now : token_version_is_current b c ≡ true =
      ap (λ o. version_of b c o) read
      ∙ ap (λ o. same_version c o) (find-user_view uid st.users v f)
      ∙ current in
    rw now refl

-- A change of the password that succeeds answers with a session that opens at once, while no token
-- that the calls before it have handed out for the user opens one, whatever is called afterwards;
-- identifiers are read as they are printed, and those of the store are distinct and have been given
-- out.
pub change_password-check_token :
    (s : Services) (st later : Store) (calls more : List Call) (old new user_id : String) (uid : ℕ)
    (claims : List Claims)
    → Reads s
    → Good st
    → s.backend.to_uuid user_id ≡ some uid
    → change_password s user_id old new (run s calls st).0 ≡ (later, ok claims)
    → ((version : ℕ) × (claims ≡ create_jwt user_id version)
        × (check_token (backend_of s later) (signed (create_access_jwt user_id version))
            ≡ ok (create_access_jwt user_id version)))
      × All
          (λ c.
            user_of s.backend c ≡ some uid
            → check_token (backend_of s (run s more later).0) (signed c) ≡ err Guard.invalid_token)
          (run s calls st).1
change_password-check_token s st later calls more old new user_id uid claims reads g read e =
    let before = (run s calls st).0 in
    let (good, grows, issued) = run-Fair s reads calls st g in
    let (u, v, f, f', rise, same) =
      subst (λ (a : Answer). Renews uid user_id before a) e
        (change_password-Renews s user_id uid before good old new read) in
    let (good', grows', issued') =
      subst (λ (a : Answer). Fair s before a) e
        (change_password-Fair s reads user_id old new before good) in
    (
      (v.token_version, same, accepted_now s later user_id uid v read f'),
      All-imp (Issued s before) _
          (λ c i for_user.
            refused_later s reads before later uid u v more c good' f f' (omega (arith, rise)) i
              for_user)
          (run s calls st).1 issued,
    )
