-- ===== src/Auth/Handlers.antt =====
-- The handlers of backend/app/controllers/auth.py, and `refresh_jwt` of backend/app/routes/auth.py. Each
-- returns the store and its answer, which carries the claims of the tokens that it hands out.
use bolodb.Prelude.{
  ℕ, Bool, true, false, not, ◌&&◌, ◌||◌, List, [], ◌∷◌, ◌++◌, Option, none, some, length, is_none,
  leb, String, str_eq, if◌then◌else◌, Result, ok, err,
}
use bolodb.Text.{Text, codes, is_digit}
use bolodb.Datetime.{Datetime}
use bolodb.Guard.{Claims}
use bolodb.Otp.{OtpTable, create_otp, verify_otp}
use bolodb.Verification.{EmailVerificationOutcome}
use bolodb.Auth.{
  UserRow, code_letter, Store, AuthError, invalid_credentials, email_unverified, email_taken,
  address_refused, weak_password, user_not_found, social_account, wrong_password, no_account,
  already_verified, invalid_code, no_subject, no_email, unverified_namesake, account_exists,
  Services, Identity,
}
use bolodb.Auth.Accounts.{
  get_user_by_email, get_user_by_supabase_id, get_user_by_id, create_user, update_user,
  set_password_and_revoke_sessions, verified, linked,
}

abbrev pub Answer : Type 0
Answer = Store × Result AuthError (List Claims)

unfoldable pub any_char : (ℕ → Bool) → Text → Bool
any_char p [] = false
any_char p (c ∷ t) = p c || any_char p t

-- `validate_password_strength` accepts it.
unfoldable pub strong : String → Bool
unfolding any_char
strong password =
    leb 8 (length (codes password))
    && any_char (λ c. leb b'A' c && leb c b'Z') (codes password)
    && any_char (λ c. leb b'a' c && leb c b'z') (codes password)
    && any_char is_digit (codes password)

abbrev pub claims_of : String → String → ℕ → Claims
claims_of typ user_id version = record {
  typ = some typ;
  user_id = some user_id;
  sub = none;
  ver = some version;
}

-- `create_access_jwt`
abbrev pub create_access_jwt : String → ℕ → Claims
create_access_jwt user_id version = claims_of "access" user_id version

-- `create_jwt`: the access token and the refresh token.
abbrev pub create_jwt : String → ℕ → List Claims
create_jwt user_id version =
    claims_of "access" user_id version ∷ claims_of "refresh" user_id version ∷ []

-- The provider is Google and vouches for the address.
abbrev pub google_verified : Identity → Bool
google_verified i = str_eq i.provider "google" && i.email_verified

module _ (s : Services) where
  abbrev pub session_of : UserRow → List Claims
  session_of u = create_jwt (s.show_id u.id) u.token_version

  unfoldable pub login_as : String → Option UserRow → Result AuthError (List Claims)
  login_as password none = err invalid_credentials
  login_as password (some u) =
      if str_eq u.hashed_pass "" || not (s.verify_password password u.hashed_pass)
      then err invalid_credentials
      else if not u.email_verified
      then err email_unverified
      else ok (session_of u)

  -- `login`
  unfoldable pub login : String → String → Store → Answer
  login email password st = (st, login_as password (get_user_by_email email st))

  -- `create_otp` and `send_verification_email`.
  unfoldable pub send_code : Datetime → String → String → String → Store → Store
  send_code now code user_id email st = record st {
    otps = create_otp s.hash_code now user_id "signup" code st.otps;
    letters = st.letters ++ code_letter email code ∷ [];
  }

  unfoldable pub signed_up : Datetime → String → String → ℕ → Option Store → Store → Answer
  signed_up now code email uid none st = (st, err email_taken)
  signed_up now code email uid (some later) st =
      (send_code now code (s.show_id uid) email later, ok [])

  -- `signup`; the request model refuses a weak password, and `outcome` is that of `verify_email`.
  unfoldable pub signup :
      Datetime → EmailVerificationOutcome → String → String → String → Store → Answer
  signup now outcome code email password st =
      if not (strong password)
      then (st, err weak_password)
      else if not outcome.allowed
      then (st, err address_refused)
      else if not (is_none (get_user_by_email email st))
      then (st, err email_taken)
      else signed_up now code email st.next_id
          (create_user
            (record {
              email = email;
              hashed_pass = s.hash_password password;
              supabase_id = none;
              email_verified = false;
            })
            st)
          st

  -- A new account for the identity; nobody else makes it in between.
  unfoldable pub joined_by : Option Store → ℕ → Store → Answer
  joined_by none uid st = (st, err account_exists)
  joined_by (some later) uid st = (later, ok (create_jwt (s.show_id uid) 0))

  unfoldable pub linked_to : Identity → Option UserRow → Store → Answer
  linked_to i none st =
      joined_by
        (create_user
          (record {
            email = i.email;
            hashed_pass = "";
            supabase_id = some i.sub;
            email_verified = google_verified i;
          })
          st)
        st.next_id st
  linked_to i (some u) st =
      if not u.email_verified
      then (st, err unverified_namesake)
      else (update_user u.id (linked i.sub) st, ok (session_of u))

  unfoldable pub google_as : Identity → Option UserRow → Store → Answer
  google_as i (some u) st = (st, ok (session_of u))
  google_as i none st =
      linked_to i (if google_verified i then get_user_by_email i.email st else none) st

  -- `supabase_google_login`, on the identity that the provider's token names.
  unfoldable pub supabase_google_login : Identity → Store → Answer
  supabase_google_login i st =
      if str_eq i.sub ""
      then (st, err no_subject)
      else if str_eq i.email ""
      then (st, err no_email)
      else google_as i (get_user_by_supabase_id i.sub st) st

  abbrev pub reissued : String → Option ℕ → Result AuthError (List Claims)
  reissued user_id none = err user_not_found
  reissued user_id (some version) = ok (create_jwt user_id version)

  unfoldable pub change_for : String → String → String → Option UserRow → Store → Answer
  change_for user_id old new none st = (st, err user_not_found)
  change_for user_id old new (some u) st =
      if str_eq u.hashed_pass ""
      then (st, err social_account)
      else if not (s.verify_password old u.hashed_pass)
      then (st, err wrong_password)
      else let (later, version) = set_password_and_revoke_sessions u.id (s.hash_password new) st in
        (later, reissued user_id version)

  -- `change_password`
  unfoldable pub change_password : String → String → String → Store → Answer
  change_password user_id old new st =
      if not (strong new)
      then (st, err weak_password)
      else change_for user_id old new (get_user_by_id s.backend.to_uuid user_id st) st

  abbrev pub code_result : UserRow → Store → OtpTable × Bool → Answer
  code_result u st (otps, false) = (record st { otps = otps }, err invalid_code)
  code_result u st (otps, true) =
      (update_user u.id verified (record st { otps = otps }), ok (session_of u))

  unfoldable pub verify_code_of : Datetime → String → Option UserRow → Store → Answer
  verify_code_of now code none st = (st, err no_account)
  verify_code_of now code (some u) st =
      if u.email_verified
      then (st, err already_verified)
      else code_result u st (verify_otp s.hash_code now (s.show_id u.id) "signup" code st.otps)

  -- `verify_email_code`
  unfoldable pub verify_email_code : Datetime → String → String → Store → Answer
  verify_email_code now email code st = verify_code_of now code (get_user_by_email email st) st

  unfoldable pub resend_to : Datetime → String → String → Option UserRow → Store → Answer
  resend_to now code email none st = (st, err no_account)
  resend_to now code email (some u) st =
      if u.email_verified
      then (st, err already_verified)
      else (send_code now code (s.show_id u.id) email st, ok [])

  -- `resend_verification_email`
  unfoldable pub resend_verification_email : Datetime → String → String → Store → Answer
  resend_verification_email now code email st =
      resend_to now code email (get_user_by_email email st) st
