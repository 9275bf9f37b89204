-- ===== src/Auth/Profile.antt =====
-- `update_profile` of backend/app/controllers/auth.py, as far as it changes the address, and `refresh_jwt`
-- of backend/app/routes/auth.py.
use bolodb.Prelude.{
  Bool, false, not, ◌||◌, List, [], ◌∷◌, Option, none, some, String, str_eq, if◌then◌else◌, Result,
  ok, err, get_or,
}
use bolodb.Datetime.{Datetime}
use bolodb.Guard.{
  Claims, Decoded, expired_signature, invalid_signature, signed, is_kind, token_version_is_current,
}
use bolodb.Auth.{
  UserRow, Store, AuthError, email_taken, invalid_token, session_expired, Services, backend_of,
}
use bolodb.Auth.Accounts.{get_user_by_email, get_user_by_id, update_user, readdressed}
use bolodb.Auth.Handlers.{Answer, create_access_jwt, send_code}
use bolodb.Auth.Recovery.{user_named}

abbrev pub is_verified : Option UserRow → Bool
is_verified none = false
is_verified (some u) = u.email_verified

module _ (s : Services) where
  -- Another account has the address.
  abbrev pub held_by_other : String → Option UserRow → Bool
  held_by_other user_id none = false
  held_by_other user_id (some u) = not (str_eq (s.show_id u.id) user_id)

  unfoldable pub change_address :
      Datetime → String → String → String → Option UserRow → Store → Answer
  change_address now code user_id email none st = (st, ok [])
  change_address now code user_id email (some u) st =
      if str_eq u.email email
      then (st, ok [])
      else (send_code s now code user_id email (update_user u.id (readdressed email) st), ok [])

  -- `update_profile`
  unfoldable pub update_profile : Datetime → String → String → Option String → Store → Answer
  update_profile now code user_id none st = (st, ok [])
  update_profile now code user_id (some email) st =
      if held_by_other user_id (get_user_by_email email st)
      then (st, err email_taken)
      else change_address now code user_id email (get_user_by_id s.backend.to_uuid user_id st) st

  -- A new access token, of the version that the refresh token has.
  unfoldable pub renewed_for : Claims → Option String → Result AuthError (List Claims)
  renewed_for c none = err invalid_token
  renewed_for c (some user_id) = ok (create_access_jwt user_id (get_or c.ver 0) ∷ [])

  unfoldable pub refresh_by : Decoded → Store → Result AuthError (List Claims)
  refresh_by expired_signature st = err session_expired
  refresh_by invalid_signature st = err invalid_token
  refresh_by (signed c) st =
      if not (is_kind c "refresh") || not (token_version_is_current (backend_of s st) c)
      then err invalid_token
      else if not (is_verified (user_named s c.user_id st))
      then err invalid_token
      else renewed_for c c.user_id

  -- `refresh_jwt`, on what the cookie decodes to.
  unfoldable pub refresh_jwt : Decoded → Store → Answer
  refresh_jwt token st = (st, refresh_by token st)
