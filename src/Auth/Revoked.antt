-- ===== src/Auth/Revoked.antt =====
-- A change or a reset of the password ends every session that was handed out before, for good.
use bolodb.Prelude.{
  ℕ, ◌+◌, ◌<◌, ◌≤◌, ◌≡◌, refl, sym, ap, subst, ◌∙◌, false, not, ◌&&◌, ◌||◌, List, [], ◌∷◌, Option,
  none, some, arith, All, All-imp, All-append, ◌==◌, ==_iff, String, str_eq, inl, inr, Bool-cases,
  ok, err, get_or,
}
use bolodb.Prelude.Rows.{find, find-holds}
use bolodb.Datetime.{Datetime, before}
use bolodb.Guard.{
  Claims, Decoded, signed, User, user_of, same_version, version_of, is_kind,
  token_version_is_current, check_token,
}
use bolodb.Guard
use bolodb.Auth.{
  UserRow, PasswordResetToken, Store, Services, backend_of, ResetClaims, reset_signed,
}
use bolodb.Auth.Accounts.{has_user_id, user_at, with_password, set_password_and_revoke_sessions}
use bolodb.Auth.Handlers.{Answer, strong}
use bolodb.Auth.Recovery.{
  reset_with, reset_for, user_named, reset_signed_by, reset_by, reset_password,
}
use bolodb.Auth.Calls.{
  Call, log_in, sign_up, google, change, verify, resend, request_reset, reset, profile, refresh,
  carried, perform, run, Issued,
}
use bolodb.Auth.Rows.{Good, Grows, Grows-trans, find-user_view}
use bolodb.Auth.Issued.{Grows-refl, Fair, Reads, Issued-Grows}
use bolodb.Auth.Steps.{
  login-Fair, signup-Fair, supabase_google_login-Fair, verify_email_code-Fair,
  resend_verification_email-Fair,
}
use bolodb.Auth.Passwords.{
  find-with_password, change_password-Fair, request_password_reset-Fair, reset_password-Fair,
  update_profile-Fair, refresh_jwt-Fair,
}

module _ (s : Services) (reads : Reads s) where
  perform-Fair : (c : Call) (st : Store) → Good st → Fair s st (perform s c st)
  unfolding perform
  perform-Fair (log_in email password) st g = login-Fair s reads email password st g
  perform-Fair (sign_up now outcome code email password) st g =
      signup-Fair s reads now outcome code email password st g
  perform-Fair (google i) st g = supabase_google_login-Fair s reads i st g
  perform-Fair (change user_id old new) st g = change_password-Fair s reads user_id old new st g
  perform-Fair (verify now email code) st g = verify_email_code-Fair s reads now email code st g
  perform-Fair (resend now code email) st g =
      resend_verification_email-Fair s reads now code email st g
  perform-Fair (request_reset now jti email) st g =
      request_password_reset-Fair s reads now jti email st g
  perform-Fair (reset now new token) st g = reset_password-Fair s reads now new token st g
  perform-Fair (profile now code user_id email) st g =
      update_profile-Fair s reads now code user_id email st g
  perform-Fair (refresh token) st g = refresh_jwt-Fair s reads token st g

  -- Sequences of calls are fair.
  pub run-Fair :
      (calls : List Call) (st : Store)
      → Good st
      → Good (run s calls st).0
        × Grows st (run s calls st).0
        × All (Issued s (run s calls st).0) (run s calls st).1
  unfolding run
  run-Fair [] st g = (g, Grows-refl st, tt)
  run-Fair (c ∷ calls) st g =
      let next = (perform s c st).0 in
      let (good, grows, issued) = perform-Fair c st g in
      let (good', grows', issued') = run-Fair calls next good in
      (
        good',
        Grows-trans st next (run s calls next).0 grows grows',
        All-append (Issued s (run s calls next).0) (carried (perform s c st).1) (run s calls next).1
            (All-imp (Issued s next) (Issued s (run s calls next).0)
              (λ k i. Issued-Grows s next (run s calls next).0 k grows' i)
              (carried (perform s c st).1) issued)
            issued',
      )

  -- Claims of a lower version are refused.
  refused_below :
      (st : Store) (c : Claims) (uid : ℕ) (u : UserRow)
      → user_of (backend_of s st) c ≡ some uid
      → find (has_user_id uid) st.users ≡ some u
      → get_or c.ver 0 < u.token_version
      → check_token (backend_of s st) (signed c) ≡ err Guard.invalid_token
  unfolding check_token token_version_is_current
  refused_below st c uid u read f below =
      let b = backend_of s st in
      let stale : (get_or c.ver 0 == u.token_version) ≡ false = ground (arith, below) in
      let seen = find-user_view uid st.users u f in
      let old : token_version_is_current b c ≡ false =
        ap (λ o. version_of b c o) read ∙ ap (λ o. same_version c o) seen ∙ stale in
      let refused : (is_kind c "access" && token_version_is_current b c) ≡ false =
        ground (arith, old) in
      rw refused refl

  -- The claims for a user that stand below a later row are refused, whatever is called afterwards.
  pub refused_later :
      (st later : Store) (uid : ℕ) (u v : UserRow) (more : List Call) (c : Claims)
      → Good later
      → find (has_user_id uid) st.users ≡ some u
      → find (has_user_id uid) later.users ≡ some v
      → u.token_version < v.token_version
      → Issued s st c
      → user_of s.backend c ≡ some uid
      → check_token (backend_of s (run s more later).0) (signed c) ≡ err Guard.invalid_token
  refused_later st later uid u v more c g f f' rise (uid', u', read, here, le) for_user =
      let (good, grows, issued) = run-Fair more later g in
      let (w, fw, rise') = grows uid v f' in
      let same_id : uid' ≡ uid = cc (read, for_user) in
      let same : u' ≡ u = cc (here, f, ap (λ n. find (has_user_id n) st.users) same_id) in
      let older : get_or c.ver 0 ≤ u.token_version =
        subst (λ (k : UserRow). get_or c.ver 0 ≤ k.token_version) same le in
      refused_below (run s more later).0 c uid w for_user fw (omega (arith, older, rise, rise'))

  -- An answer that succeeds leaves the user with a higher version.
  abbrev Raises : ℕ → Store → Answer → Type 0
  Raises uid st (later, err e) = Unit
  Raises uid st (later, ok claims) =
      (u : UserRow) × (v : UserRow) × (find (has_user_id uid) st.users ≡ some u)
      × (find (has_user_id uid) later.users ≡ some v)
      × (v.token_version ≡ u.token_version + 1)

  reset_with-Raises :
      (now : Datetime) (jti_hash new : String) (uid : ℕ) (u : UserRow)
      (found : Option PasswordResetToken) (st : Store)
      → find (has_user_id uid) st.users ≡ some u
      → u.id ≡ uid
      → Raises uid st (reset_with s now jti_hash new u found st)
  unfolding reset_with set_password_and_revoke_sessions
  reset_with-Raises now jti_hash new uid u none st f same = tt
  reset_with-Raises now jti_hash new uid u (some r) st f same = elim (Bool-cases (r.consumed)) [
    | inl used ↦ rw used tt
    | inr fresh ↦ rw fresh (elim (Bool-cases (before r.expires_at now)) [
      | inl late ↦ rw late tt
      | inr early ↦
          let hashed = s.hash_password new in
          rw early (u, with_password hashed u, f, find-with_password uid hashed st u f same, refl)
    ])
  ]

  reset_for-Raises :
      (now : Datetime) (jti new : String) (uid : ℕ) (found : Option UserRow) (st : Store)
      → user_at (some uid) st ≡ found
      → Raises uid st (reset_for s now jti new found st)
  unfolding reset_for
  reset_for-Raises now jti new uid none st f = tt
  reset_for-Raises now jti new uid (some u) st f =
      reset_with-Raises now (s.hash_jti jti) new uid u _ st f
        ((==_iff u.id uid).0 (find-holds (has_user_id uid) st.users u f))

  reset_signed_by-Raises :
      (now : Datetime) (new : String) (c : Claims) (jti : Option String) (uid : ℕ) (st : Store)
      → user_named s c.user_id st ≡ user_at (some uid) st
      → Raises uid st (reset_signed_by s now new c jti st)
  unfolding reset_signed_by
  reset_signed_by-Raises now new c none uid st named = tt
  reset_signed_by-Raises now new c (some jti) uid st named =
      elim (Bool-cases (not (is_kind c "password_reset") || str_eq jti "")) [
        | inl bad ↦ rw bad tt
        | inr good ↦
            rw good (reset_for-Raises now jti new uid (user_named s c.user_id st) st (sym named))
      ]

  reset_password-Raises :
      (now : Datetime) (new user_id : String) (r : ResetClaims) (uid : ℕ) (st : Store)
      → r.claims.user_id ≡ some user_id
      → s.backend.to_uuid user_id ≡ some uid
      → Raises uid st (reset_password s now new (reset_signed r) st)
  unfolding reset_password reset_by
  reset_password-Raises now new user_id r uid st names read = elim (Bool-cases (strong new)) [
    | inr weak ↦ rw weak tt
    | inl fit ↦ rw fit (
        reset_signed_by-Raises now new r.claims r.jti uid st
          (ap (λ o. user_named s o st) names ∙ ap (λ o. user_at o st) read))
  ]

-- After any calls and a reset of the password that succeeds, no token that those calls have handed out
-- for the user, by a sign-in, a change or a refresh, opens a session, whatever is called afterwards;
-- identifiers are read as they are printed, and those of the store are distinct and have been given
-- out.
pub reset_password-check_token :
    (s : Services) (st later : Store) (calls more : List Call) (now : Datetime)
    (new user_id : String) (r : ResetClaims) (uid : ℕ) (claims : List Claims)
    → Reads s
    → Good st
    → r.claims.user_id ≡ some user_id
    → s.backend.to_uuid user_id ≡ some uid
    → reset_password s now new (reset_signed r) (run s calls st).0 ≡ (later, ok claims)
    → All
        (λ c.
          user_of s.backend c ≡ some uid
          → check_token (backend_of s (run s more later).0) (signed c) ≡ err Guard.invalid_token)
        (run s calls st).1
reset_password-check_token s st later calls more now new user_id r uid claims reads g names read e =
    let before = (run s calls st).0 in
    let (good, grows, issued) = run-Fair s reads calls st g in
    let (u, v, f, f', rise) =
      subst (λ (a : Answer). Raises s reads uid before a) e
        (reset_password-Raises s reads now new user_id r uid before names read) in
    let (good', grows', issued') =
      subst (λ (a : Answer). Fair s before a) e
        (reset_password-Fair s reads now new (reset_signed r) before good) in
    All-imp (Issued s before) _
      (λ c i for_user.
        refused_later s reads before later uid u v more c good' f f' (omega (arith, rise)) i
          for_user)
      (run s calls st).1 issued
