-- ===== src/Auth/Calls.antt =====
-- Sequences of calls of the handlers of backend/app/controllers/auth.py, with the claims of all the tokens
-- that they have handed out.
use bolodb.Prelude.{ℕ, ◌≤◌, ◌≡◌, List, [], ◌∷◌, ◌++◌, Option, some, String, Result, get_or, ok_or}
use bolodb.Prelude.Rows.{find}
use bolodb.Datetime.{Datetime}
use bolodb.Guard.{Claims, Decoded, user_of}
use bolodb.Verification.{EmailVerificationOutcome}
use bolodb.Auth.{UserRow, Store, AuthError, Services, ResetToken, Identity, backend_of}
use bolodb.Auth.Accounts.{has_user_id}
use bolodb.Auth.Handlers.{
  Answer, login, signup, supabase_google_login, change_password, verify_email_code,
  resend_verification_email,
}
use bolodb.Auth.Recovery.{request_password_reset, reset_password}
use bolodb.Auth.Profile.{update_profile, refresh_jwt}

pub data Call : Type 0 where
  log_in : String → String → Call
  sign_up : Datetime → EmailVerificationOutcome → String → String → String → Call
  google : Identity → Call
  change : String → String → String → Call
  verify : Datetime → String → String → Call
  resend : Datetime → String → String → Call
  request_reset : Datetime → String → String → Call
  reset : Datetime → String → ResetToken → Call
  profile : Datetime → String → String → Option String → Call
  refresh : Decoded → Call

abbrev pub carried : Result AuthError (List Claims) → List Claims
carried answer = ok_or answer []

module _ (s : Services) where
  unfoldable pub perform : Call → Store → Answer
  perform (log_in email password) st = login s email password st
  perform (sign_up now outcome code email password) st = signup s now outcome code email password st
  perform (google i) st = supabase_google_login s i st
  perform (change user_id old new) st = change_password s user_id old new st
  perform (verify now email code) st = verify_email_code s now email code st
  perform (resend now code email) st = resend_verification_email s now code email st
  perform (request_reset now jti email) st = request_password_reset s now jti email st
  perform (reset now new token) st = reset_password s now new token st
  perform (profile now code user_id email) st = update_profile s now code user_id email st
  perform (refresh token) st = refresh_jwt s token st

  -- The calls in turn: the store they leave, and the claims they hand out.
  unfoldable pub run : List Call → Store → Store × List Claims
  run [] st = (st, [])
  run (c ∷ calls) st =
      let (next, answer) = perform c st in
      let (last, later) = run calls next in (last, carried answer ++ later)

  -- The claims name a user of the store, and no version above the user's.
  abbrev pub Issued : Store → Claims → Type 0
  Issued st c =
      (uid : ℕ) × (u : UserRow) × (user_of (backend_of s st) c ≡ some uid)
      × (find (has_user_id uid) st.users ≡ some u)
      × (get_or c.ver 0 ≤ u.token_version)
