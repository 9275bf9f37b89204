-- ===== src/Otp.antt =====
-- The codes of backend/app/pgdatabase/otp.py. The digest of a code and the code that the generator draws
-- are arguments; `verify_otp` locks its row, so that each call is one step on the table.
pub mod Guesses
mod Tests
use bolodb.Prelude.{
  ℕ, suc, ◌+◌, Bool, true, false, not, ◌&&◌, List, [], ◌∷◌, ◌++◌, Option, none, some, filter_by,
  leb, ◌==◌, String, str_eq, if◌then◌else◌,
}
use bolodb.Prelude.Rows.{update_rows}
use bolodb.Datetime.{Datetime, before}

abbrev pub otp_ttl_minutes : ℕ
otp_ttl_minutes = 10

abbrev pub max_otp_attempts : ℕ
max_otp_attempts = 5

-- A row of the table of codes.
pub record OtpCode : Type 0 where
  pub id : ℕ
  pub user_id : String
  pub purpose : String
  pub code_hash : String
  pub expires_at : Datetime
  pub attempts : ℕ
  pub used : Bool

pub record OtpTable : Type 0 where
  pub rows : List OtpCode
  pub next_id : ℕ

abbrev pub is_for : String → String → OtpCode → Bool
is_for user_id purpose r = str_eq r.user_id user_id && str_eq r.purpose purpose

-- The rows that `verify_otp` selects.
abbrev pub is_open : String → String → OtpCode → Bool
is_open user_id purpose r = is_for user_id purpose r && not r.used

abbrev pub first : List OtpCode → Option OtpCode
first [] = none
first (r ∷ rows) = some r

abbrev pub after_ttl : Datetime → Datetime
after_ttl now = record now { minutes = now.minutes + otp_ttl_minutes }

-- `delete_otp_for_user`
unfoldable pub delete_otp_for_user : String → String → OtpTable → OtpTable
delete_otp_for_user user_id purpose t = record t {
  rows = filter_by (λ r. not (is_for user_id purpose r)) t.rows;
}

abbrev pub issued : (String → String) → Datetime → String → String → String → ℕ → OtpCode
issued hash_code now user_id purpose code id = record {
  id = id;
  user_id = user_id;
  purpose = purpose;
  code_hash = hash_code code;
  expires_at = after_ttl now;
  attempts = 0;
  used = false;
}

-- `create_otp`: the codes of the user for the purpose are deleted, and the new one is inserted.
unfoldable pub create_otp :
    (String → String) → Datetime → String → String → String → OtpTable → OtpTable
create_otp hash_code now user_id purpose code t =
    let t' = delete_otp_for_user user_id purpose t in
    record {
      rows = t'.rows ++ issued hash_code now user_id purpose code t'.next_id ∷ [];
      next_id = suc t'.next_id;
    }

abbrev pub with_attempt : OtpCode → OtpCode
with_attempt r = record r { attempts = r.attempts + 1 }

abbrev pub spent : OtpCode → OtpCode
spent r = record r { used = true }

abbrev pub has_otp_id : ℕ → OtpCode → Bool
has_otp_id id r = r.id == id

-- What `verify_otp` does with the row that it found.
unfoldable pub verify_row :
    (String → String) → Datetime → String → Option OtpCode → OtpTable → OtpTable × Bool
verify_row hash_code now code none t = (t, false)
verify_row hash_code now code (some r) t =
    if before r.expires_at now
    then (t, false)
    else if leb max_otp_attempts r.attempts
    then (t, false)
    else if not (str_eq r.code_hash (hash_code code))
    then (record t { rows = update_rows (has_otp_id r.id) with_attempt t.rows }, false)
    else (record t { rows = update_rows (λ q. has_otp_id r.id q && not q.used) spent t.rows }, true)

-- `verify_otp`
unfoldable pub verify_otp :
    (String → String) → Datetime → String → String → String → OtpTable → OtpTable × Bool
verify_otp hash_code now user_id purpose code t =
    verify_row hash_code now code (first (filter_by (is_open user_id purpose) t.rows)) t
