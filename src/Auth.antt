-- ===== src/Auth.antt =====
-- Accounts, sessions and password recovery (backend/app/controllers/auth.py, backend/app/pgdatabase/users.py,
-- the refresh of backend/app/routes/auth.py). What signs, hashes and reads identifiers is a record of
-- functions; a token is the claims that are signed.
pub mod Accounts
pub mod Handlers
pub mod Recovery
pub mod Profile
pub mod Calls
pub mod Rows
pub mod Issued
pub mod Steps
pub mod Passwords
pub mod Revoked
pub mod Changed
mod Tests
use bolodb.Prelude.{ℕ, Bool, List, [], ◌∷◌, Option, none, some, map, String}
use bolodb.Datetime.{Datetime}
use bolodb.Guard.{Backend, Claims, User}
use bolodb.Otp.{OtpTable}

-- A row of the table of users.
pub record UserRow : Type 0 where
  pub id : ℕ
  pub email : String
  pub hashed_pass : String
  pub supabase_id : Option String
  pub email_verified : Bool
  pub token_version : ℕ

pub record PasswordResetToken : Type 0 where
  pub user_id : ℕ
  pub jti_hash : String
  pub expires_at : Datetime
  pub consumed : Bool

-- What is mailed: a code, or a reset token.
pub data Letter : Type 0 where
  code_letter reset_letter : String → String → Letter

pub record Store : Type 0 where
  pub users : List UserRow
  pub resets : List PasswordResetToken
  pub otps : OtpTable
  pub letters : List Letter
  pub next_id : ℕ

-- Why a handler refuses.
pub data AuthError : Type 0 where
  invalid_credentials email_unverified email_taken address_refused : AuthError
  weak_password user_not_found social_account wrong_password : AuthError
  no_account already_verified invalid_code : AuthError
  invalid_link link_expired link_used : AuthError
  no_subject no_email unverified_namesake account_exists : AuthError
  invalid_token session_expired : AuthError

-- The digests, the printing of an identifier, and the guards' backend, whose users are the store's.
pub record Services : Type 0 where
  pub hash_password : String → String
  pub verify_password : String → String → Bool
  pub hash_code : String → String
  pub hash_jti : String → String
  pub show_id : ℕ → String
  pub backend : Backend

abbrev pub user_view : UserRow → User
user_view u = record { id = u.id; token_version = u.token_version }

-- What the guards of a request read of the store.
abbrev pub backend_of : Services → Store → Backend
backend_of s st = record s.backend { users = map user_view st.users }

-- The claims of a reset token, and those of an external token (`app_metadata` and `user_metadata`
-- name the provider and whether the address is proved).
pub record ResetClaims : Type 0 where
  pub claims : Claims
  pub jti : Option String

pub data ResetToken : Type 0 where
  reset_expired reset_forged : ResetToken
  reset_signed : ResetClaims → ResetToken

pub record Identity : Type 0 where
  pub sub : String
  pub email : String
  pub provider : String
  pub email_verified : Bool
