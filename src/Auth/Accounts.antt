-- ===== src/Auth/Accounts.antt =====
-- The table of users: backend/app/pgdatabase/users.py.
use bolodb.Prelude.{
  ℕ, suc, ◌+◌, Bool, true, false, ◌||◌, [], ◌∷◌, ◌++◌, Option, none, some, ◌==◌, String, str_eq,
  if◌then◌else◌,
}
use bolodb.Prelude.Rows.{find, update_rows, any_row}
use bolodb.Auth.{UserRow, Store}

abbrev pub has_user_id : ℕ → UserRow → Bool
has_user_id uid u = u.id == uid

abbrev pub has_address : String → UserRow → Bool
has_address email u = str_eq u.email email

abbrev same_text : String → Option String → Bool
same_text s none = false
same_text s (some t) = str_eq t s

abbrev pub has_supabase_id : String → UserRow → Bool
has_supabase_id supabase_id u = same_text supabase_id u.supabase_id

-- `get_user_by_email`
abbrev pub get_user_by_email : String → Store → Option UserRow
get_user_by_email email st = find (has_address email) st.users

-- `get_user_by_supabase_id`
abbrev pub get_user_by_supabase_id : String → Store → Option UserRow
get_user_by_supabase_id supabase_id st = find (has_supabase_id supabase_id) st.users

abbrev pub user_at : Option ℕ → Store → Option UserRow
user_at none st = none
user_at (some uid) st = find (has_user_id uid) st.users

-- `get_user_by_id`: `none` where the identifier cannot be read.
abbrev pub get_user_by_id : (String → Option ℕ) → String → Store → Option UserRow
get_user_by_id to_uuid user_id st = user_at (to_uuid user_id) st

-- What a new account is made from.
pub record NewUser : Type 0 where
  pub email : String
  pub hashed_pass : String
  pub supabase_id : Option String
  pub email_verified : Bool

abbrev pub supabase_taken : Option String → Store → Bool
supabase_taken none st = false
supabase_taken (some supabase_id) st = any_row (has_supabase_id supabase_id) st.users

abbrev pub row_for : NewUser → ℕ → UserRow
row_for n id = record {
  id = id;
  email = n.email;
  hashed_pass = n.hashed_pass;
  supabase_id = n.supabase_id;
  email_verified = n.email_verified;
  token_version = 0;
}

-- `create_user`; `none` is `UserAlreadyExistsError`, by the unique columns.
unfoldable pub create_user : NewUser → Store → Option Store
create_user n st =
    if any_row (has_address n.email) st.users || supabase_taken n.supabase_id st
    then none
    else some
        (record st { users = st.users ++ row_for n st.next_id ∷ []; next_id = suc st.next_id })

-- `update_user` on one row.
abbrev pub update_user : ℕ → (UserRow → UserRow) → Store → Store
update_user uid values st = record st { users = update_rows (has_user_id uid) values st.users }

abbrev pub with_password : String → UserRow → UserRow
with_password hashed u = record u { hashed_pass = hashed; token_version = u.token_version + 1 }

abbrev new_version : Option UserRow → Option ℕ
new_version none = none
new_version (some u) = some (u.token_version + 1)

-- `set_password_and_revoke_sessions`, with the version that it returns.
unfoldable pub set_password_and_revoke_sessions : ℕ → String → Store → Store × Option ℕ
set_password_and_revoke_sessions uid hashed st =
    (update_user uid (with_password hashed) st, new_version (find (has_user_id uid) st.users))

abbrev bumped : UserRow → UserRow
bumped u = record u { token_version = u.token_version + 1 }

-- `bump_token_version`
unfoldable pub bump_token_version : ℕ → Store → Store × Bool
bump_token_version uid st = (update_user uid bumped st, any_row (has_user_id uid) st.users)

abbrev pub verified : UserRow → UserRow
verified u = record u { email_verified = true }

abbrev pub linked : String → UserRow → UserRow
linked supabase_id u = record u { supabase_id = some supabase_id }

abbrev pub readdressed : String → UserRow → UserRow
readdressed email u = record u { email = email; email_verified = false }
