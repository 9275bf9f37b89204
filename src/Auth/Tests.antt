-- ===== src/Auth/Tests.antt =====
-- The theorems about sessions: Ana signs up, proves her address, signs in, and changes or resets her
-- password.
use bolodb.Prelude.{
  ℕ, zero, suc, ◌≡◌, refl, ap, true, false, List, [], ◌∷◌, none, some, All, filter_by, String,
  str_eq, ok, err,
}
use bolodb.Prelude.Rows.{find, update_rows, any_row}
use bolodb.Text.{codes}
use bolodb.Datetime.{Datetime, before}
use bolodb.Guard.{Claims, signed, invalid_signature, user_of, check_token}
use bolodb.Guard
use bolodb.Otp.{create_otp, delete_otp_for_user, verify_otp, verify_row}
use bolodb.Verification.{EmailVerificationOutcome}
use bolodb.Auth.{Store, Services, backend_of, ResetClaims, reset_signed}
use bolodb.Auth.Accounts.{create_user, set_password_and_revoke_sessions}
use bolodb.Auth.Handlers.{
  strong, any_char, create_jwt, create_access_jwt, login_as, login, send_code, signed_up, signup,
  verify_code_of, verify_email_code, change_for, change_password,
}
use bolodb.Auth.Recovery.{
  request_for, request_password_reset, reset_with, reset_for, reset_signed_by, reset_by,
  reset_password,
}
use bolodb.Auth.Calls.{Call, sign_up, verify, log_in, request_reset, perform, run}
use bolodb.Auth.Revoked.{reset_password-check_token}
use bolodb.Auth.Changed.{change_password-check_token}

-- Numbers are printed in unary.
abbrev show_id : ℕ → String
show_id zero = ""
show_id (suc n) = String.◌∷◌ "i" (show_id n)

abbrev size : String → ℕ
size String.[] = 0
size (String.◌∷◌ c rest) = suc (size rest)

size-show_id : (n : ℕ) → size (show_id n) ≡ n
size-show_id zero = refl
size-show_id (suc n) = ap suc (size-show_id n)

-- Passwords and codes are stored as they are.
abbrev services : Services
services = record {
  hash_password = λ p. p;
  verify_password = λ p h. str_eq p h;
  hash_code = λ c. c;
  hash_jti = λ j. j;
  show_id = show_id;
  backend = record {
    decode = λ token. invalid_signature;
    to_uuid = λ text. some (size text);
    users = [];
    members = [];
    workspace_settings = [];
  };
}

reads : (n : ℕ) → services.backend.to_uuid (services.show_id n) ≡ some n
reads n = ap some (size-show_id n)

abbrev nobody : Store
nobody = record {
  users = [];
  resets = [];
  otps = record { rows = []; next_id = 0 };
  letters = [];
  next_id = 0;
}

abbrev noon : Datetime
noon = record { minutes = 1051920720; micros = 0 }

abbrev welcome : EmailVerificationOutcome
welcome = record {
  allowed = true;
  status = codes "ok";
  reason = [];
  disposable = false;
  catch_all = false;
  skipped = false;
}

-- Ana signs up, proves her address, which signs her in, and asks for a reset.
abbrev calls : List Call
calls =
    sign_up noon welcome "123456" "ana@x.io" "Secret12"
    ∷ verify noon "ana@x.io" "123456"
    ∷ request_reset noon "j1" "ana@x.io"
    ∷ []

abbrev before_change : Store
before_change = (run services calls nobody).0

abbrev issued_claims : List Claims
issued_claims = (run services calls nobody).1

-- Two tokens have been handed out, for the identifier 0.
issued-two : issued_claims ≡ create_jwt "" 0
unfolding run perform signup strong any_char create_user any_row find signed_up send_code create_otp
    delete_otp_for_user verify_email_code verify_code_of verify_otp verify_row filter_by update_rows
    before login login_as request_password_reset request_for
issued-two = refl

abbrev with_new_password : Store → Store
with_new_password st = (set_password_and_revoke_sessions 0 "Better34" st).0

changes :
    change_password services "" "Secret12" "Better34" before_change
    ≡ (with_new_password before_change, ok (create_jwt "" 1))
unfolding run perform signup strong any_char create_user any_row find signed_up send_code create_otp
    delete_otp_for_user verify_email_code verify_code_of verify_otp verify_row filter_by update_rows
    before login login_as request_password_reset request_for change_password change_for
    set_password_and_revoke_sessions
changes = refl

change_password-check_token_example :
    ((version : ℕ) × (create_jwt "" 1 ≡ create_jwt "" version)
      × (check_token
            (backend_of services (with_new_password before_change))
            (signed (create_access_jwt "" version))
          ≡ ok (create_access_jwt "" version)))
    × All
        (λ c.
          user_of services.backend c ≡ some 0
          → check_token
              (backend_of services
                (run services
                  (log_in "ana@x.io" "Better34" ∷ [])
                  (with_new_password before_change)).0)
              (signed c)
            ≡ err Guard.invalid_token)
        issued_claims
change_password-check_token_example =
    change_password-check_token services nobody (with_new_password before_change) calls
      (log_in "ana@x.io" "Better34" ∷ []) "Secret12" "Better34" "" 0 (create_jwt "" 1) reads
      (tt, tt) refl changes

abbrev reset_claims : ResetClaims
reset_claims = record {
  claims = record { typ = some "password_reset"; user_id = some ""; sub = none; ver = none };
  jti = some "j1";
}

abbrev after_reset : Store
after_reset = (reset_password services noon "Better34" (reset_signed reset_claims) before_change).0

resets :
    reset_password services noon "Better34" (reset_signed reset_claims) before_change
    ≡ (after_reset, ok [])
unfolding run perform signup strong any_char create_user any_row find signed_up send_code create_otp
    delete_otp_for_user verify_email_code verify_code_of verify_otp verify_row filter_by update_rows
    before login login_as request_password_reset request_for reset_password reset_by reset_signed_by
    reset_for reset_with set_password_and_revoke_sessions
resets = refl

reset_password-check_token_example :
    All
      (λ c.
        user_of services.backend c ≡ some 0
        → check_token
            (backend_of services (run services (log_in "ana@x.io" "Better34" ∷ []) after_reset).0)
            (signed c)
          ≡ err Guard.invalid_token)
      issued_claims
reset_password-check_token_example =
    reset_password-check_token services nobody after_reset calls (log_in "ana@x.io" "Better34" ∷ [])
      noon "Better34" "" reset_claims 0 [] reads (tt, tt) refl refl resets
