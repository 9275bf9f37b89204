-- ===== src/Auth/Passwords.antt =====
-- The handlers of passwords, the profile and the refresh: the rest of the calls.
use bolodb.Prelude.{
  ℕ, ◌+◌, ◌≡◌, refl, sym, ap, ◌∙◌, true, not, ◌||◌, Option, none, some, arith, ==_iff, String,
  str_eq, inl, inr, Bool-cases,
}
use bolodb.Prelude.Rows.{find, find-holds}
use bolodb.Datetime.{Datetime, before}
use bolodb.Guard.{
  Claims, Decoded, expired_signature, invalid_signature, signed, user_of, uuid_of, or_text, is_kind,
  token_version_is_current,
}
use bolodb.Guard.Access.{version_of_lem}
use bolodb.Auth.{
  UserRow, PasswordResetToken, Store, Services, backend_of, ResetToken, reset_expired, reset_forged,
  reset_signed,
}
use bolodb.Auth.Accounts.{
  has_user_id, get_user_by_email, user_at, get_user_by_id, update_user, with_password,
  set_password_and_revoke_sessions, readdressed,
}
use bolodb.Auth.Handlers.{strong, send_code, change_for, change_password}
use bolodb.Auth.Recovery.{
  request_for, request_password_reset, reset_with, reset_for, user_named, reset_signed_by, reset_by,
  reset_password,
}
use bolodb.Auth.Profile.{
  held_by_other, change_address, update_profile, is_verified, renewed_for, refresh_by, refresh_jwt,
}
use bolodb.Auth.Rows.{
  Good, Grows, find_own, update_user-Grows, update_user-Good, find-update_rows_user, row_of_view,
}
use bolodb.Auth.Issued.{Grows-refl, Fair, Reads, create_jwt-Issued}

pub user_at_lem :
    (read : Option ℕ) (st : Store) (u : UserRow)
    → user_at read st ≡ some u
    → (uid : ℕ) × (read ≡ some uid) × (find (has_user_id uid) st.users ≡ some u) × (u.id ≡ uid)
user_at_lem none st u e = absurd (cc e)
user_at_lem (some uid) st u e =
    (uid, refl, e, (==_iff u.id uid).0 (find-holds (has_user_id uid) st.users u e))

-- The row of a user after its password has been set.
pub find-with_password :
    (uid : ℕ) (hashed : String) (st : Store) (u : UserRow)
    → find (has_user_id uid) st.users ≡ some u
    → u.id ≡ uid
    → find (has_user_id uid) (update_user u.id (with_password hashed) st).users
      ≡ some (with_password hashed u)
find-with_password uid hashed st u f same =
    let own : has_user_id u.id u ≡ true = (==_iff u.id u.id).1 refl in
    find-update_rows_user (with_password hashed) (λ r. refl) (λ r. omega arith) u.id uid st.users u
      f
    ∙ rw own refl

module _ (s : Services) (reads : Reads s) where
  change_for-Fair :
      (user_id old new : String) (found : Option UserRow) (st : Store)
      → Good st
      → get_user_by_id s.backend.to_uuid user_id st ≡ found
      → Fair s st (change_for s user_id old new found st)
  unfolding change_for set_password_and_revoke_sessions
  change_for-Fair user_id old new none st g e = (g, Grows-refl st, tt)
  change_for-Fair user_id old new (some u) st g e = elim (Bool-cases (str_eq u.hashed_pass "")) [
    | inl social ↦ rw social (g, Grows-refl st, tt)
    | inr own ↦ rw own (elim (Bool-cases (s.verify_password old u.hashed_pass)) [
      | inr wrong ↦ rw wrong (g, Grows-refl st, tt)
      | inl right ↦
          let hashed = s.hash_password new in
          let (uid, read, f, same) = user_at_lem (s.backend.to_uuid user_id) st u e in
          let mine = find_own (has_user_id uid) st.users u g.0 f in
          rw right (
            rw mine (
              update_user-Good (with_password hashed) (λ r. refl) (λ r. omega arith) u.id st g,
              update_user-Grows (with_password hashed) (λ r. refl) (λ r. omega arith) u.id st,
              create_jwt-Issued s (update_user u.id (with_password hashed) st) user_id uid
                  (u.token_version + 1) (with_password hashed u) read
                  (find-with_password uid hashed st u f same) (omega arith),
            ))
    ])
  ]

  pub change_password-Fair :
      (user_id old new : String) (st : Store)
      → Good st
      → Fair s st (change_password s user_id old new st)
  unfolding change_password
  change_password-Fair user_id old new st g = elim (Bool-cases (strong new)) [
    | inr weak ↦ rw weak (g, Grows-refl st, tt)
    | inl fit ↦
        rw fit
          (change_for-Fair user_id old new (get_user_by_id s.backend.to_uuid user_id st) st g refl)
  ]

  request_for-Good :
      (now : Datetime) (jti email : String) (found : Option UserRow) (st : Store)
      → Good st
      → Good (request_for s now jti email found st)
        × Grows st (request_for s now jti email found st)
  unfolding request_for
  request_for-Good now jti email none st g = (g, Grows-refl st)
  request_for-Good now jti email (some u) st g = elim (Bool-cases (str_eq u.hashed_pass "")) [
    | inl social ↦ rw social (g, Grows-refl st)
    | inr own ↦ rw own (g, Grows-refl st)
  ]

  pub request_password_reset-Fair :
      (now : Datetime) (jti email : String) (st : Store)
      → Good st
      → Fair s st (request_password_reset s now jti email st)
  unfolding request_password_reset
  request_password_reset-Fair now jti email st g =
      let (good, grows) = request_for-Good now jti email (get_user_by_email email st) st g in
      (good, grows, tt)

  reset_with-Fair :
      (now : Datetime) (jti_hash new : String) (u : UserRow) (found : Option PasswordResetToken)
      (st : Store)
      → Good st
      → Fair s st (reset_with s now jti_hash new u found st)
  unfolding reset_with set_password_and_revoke_sessions
  reset_with-Fair now jti_hash new u none st g = (g, Grows-refl st, tt)
  reset_with-Fair now jti_hash new u (some r) st g = elim (Bool-cases (r.consumed)) [
    | inl used ↦ rw used (g, Grows-refl st, tt)
    | inr fresh ↦ rw fresh (elim (Bool-cases (before r.expires_at now)) [
      | inl late ↦ rw late (g, Grows-refl st, tt)
      | inr early ↦
          let hashed = s.hash_password new in
          rw early (
            update_user-Good (with_password hashed) (λ r. refl) (λ r. omega arith) u.id st g,
            update_user-Grows (with_password hashed) (λ r. refl) (λ r. omega arith) u.id st,
            tt,
          )
    ])
  ]

  reset_for-Fair :
      (now : Datetime) (jti new : String) (found : Option UserRow) (st : Store)
      → Good st
      → Fair s st (reset_for s now jti new found st)
  unfolding reset_for
  reset_for-Fair now jti new none st g = (g, Grows-refl st, tt)
  reset_for-Fair now jti new (some u) st g = reset_with-Fair now (s.hash_jti jti) new u _ st g

  reset_signed_by-Fair :
      (now : Datetime) (new : String) (c : Claims) (jti : Option String) (st : Store)
      → Good st
      → Fair s st (reset_signed_by s now new c jti st)
  unfolding reset_signed_by
  reset_signed_by-Fair now new c none st g = (g, Grows-refl st, tt)
  reset_signed_by-Fair now new c (some jti) st g =
      elim (Bool-cases (not (is_kind c "password_reset") || str_eq jti "")) [
        | inl bad ↦ rw bad (g, Grows-refl st, tt)
        | inr good ↦ rw good (reset_for-Fair now jti new (user_named s c.user_id st) st g)
      ]

  reset_by-Fair :
      (now : Datetime) (new : String) (token : ResetToken) (st : Store)
      → Good st
      → Fair s st (reset_by s now new token st)
  unfolding reset_by
  reset_by-Fair now new reset_expired st g = (g, Grows-refl st, tt)
  reset_by-Fair now new reset_forged st g = (g, Grows-refl st, tt)
  reset_by-Fair now new (reset_signed r) st g = reset_signed_by-Fair now new r.claims r.jti st g

  pub reset_password-Fair :
      (now : Datetime) (new : String) (token : ResetToken) (st : Store)
      → Good st
      → Fair s st (reset_password s now new token st)
  unfolding reset_password
  reset_password-Fair now new token st g = elim (Bool-cases (strong new)) [
    | inr weak ↦ rw weak (g, Grows-refl st, tt)
    | inl fit ↦ rw fit (reset_by-Fair now new token st g)
  ]

  change_address-Fair :
      (now : Datetime) (code user_id email : String) (found : Option UserRow) (st : Store)
      → Good st
      → Fair s st (change_address s now code user_id email found st)
  unfolding change_address send_code
  change_address-Fair now code user_id email none st g = (g, Grows-refl st, tt)
  change_address-Fair now code user_id email (some u) st g =
      elim (Bool-cases (str_eq u.email email)) [
        | inl same ↦ rw same (g, Grows-refl st, tt)
        | inr new ↦ rw new (
          update_user-Good (readdressed email) (λ r. refl) (λ r. omega arith) u.id st g,
          update_user-Grows (readdressed email) (λ r. refl) (λ r. omega arith) u.id st,
          tt,
        )
      ]

  pub update_profile-Fair :
      (now : Datetime) (code user_id : String) (email : Option String) (st : Store)
      → Good st
      → Fair s st (update_profile s now code user_id email st)
  unfolding update_profile
  update_profile-Fair now code user_id none st g = (g, Grows-refl st, tt)
  update_profile-Fair now code user_id (some email) st g =
      elim (Bool-cases (held_by_other s user_id (get_user_by_email email st))) [
        | inl held ↦ rw held (g, Grows-refl st, tt)
        | inr free ↦ rw free (
            change_address-Fair now code user_id email (get_user_by_id s.backend.to_uuid user_id st)
              st g)
      ]

  -- A token that is current is renewed with its own version.
  renewed_for-Fair :
      (c : Claims) (user_id : Option String) (st : Store)
      → Good st
      → c.user_id ≡ user_id
      → token_version_is_current (backend_of s st) c ≡ true
      → Fair s st (st, renewed_for s c user_id)
  unfolding renewed_for token_version_is_current
  renewed_for-Fair c none st g e current = (g, Grows-refl st, tt)
  renewed_for-Fair c (some user_id) st g e current =
      let b = backend_of s st in
      let (uid, v, subject, here, version) = version_of_lem b c (user_of b c) current in
      let (u, f, same) = row_of_view uid st.users v here in
      let read = ap (λ o. uuid_of b (or_text o c.sub)) (sym e) ∙ subject in
      (g, Grows-refl st, ((uid, u, read, f, omega (arith, same, version)), tt))

  refresh_by-Fair : (token : Decoded) (st : Store) → Good st → Fair s st (st, refresh_by s token st)
  unfolding refresh_by
  refresh_by-Fair expired_signature st g = (g, Grows-refl st, tt)
  refresh_by-Fair invalid_signature st g = (g, Grows-refl st, tt)
  refresh_by-Fair (signed c) st g =
      elim (Bool-cases
        (not (is_kind c "refresh") || not (token_version_is_current (backend_of s st) c))) [
          | inl bad ↦ rw bad (g, Grows-refl st, tt)
          | inr good ↦ rw good (elim (Bool-cases (is_verified (user_named s c.user_id st))) [
            | inr unproved ↦ rw unproved (g, Grows-refl st, tt)
            | inl proved ↦ rw proved (renewed_for-Fair c c.user_id st g refl (ground (arith, good)))
          ])
        ]

  pub refresh_jwt-Fair :
      (token : Decoded) (st : Store) → Good st → Fair s st (refresh_jwt s token st)
  unfolding refresh_jwt
  refresh_jwt-Fair token st g = refresh_by-Fair token st g
