-- ===== src/Auth/Recovery.antt =====
-- Password recovery by a mailed link (`request_password_reset` and `reset_password` of
-- backend/app/controllers/auth.py). A reset token is what it decodes to.
use bolodb.Prelude.{
  ℕ, ◌+◌, Bool, true, false, not, ◌&&◌, ◌||◌, [], ◌∷◌, ◌++◌, Option, none, some, ◌==◌, String,
  str_eq, if◌then◌else◌, ok, err,
}
use bolodb.Prelude.Rows.{find, update_rows}
use bolodb.Datetime.{Datetime, before}
use bolodb.Guard.{Claims, is_kind}
use bolodb.Auth.{
  UserRow, PasswordResetToken, reset_letter, Store, weak_password, invalid_link, link_expired,
  link_used, Services, ResetToken, reset_expired, reset_forged, reset_signed,
}
use bolodb.Auth.Accounts.{get_user_by_email, get_user_by_id, set_password_and_revoke_sessions}
use bolodb.Auth.Handlers.{Answer, strong}

module _ (s : Services) where
  abbrev reset_ttl_minutes : ℕ
  reset_ttl_minutes = 15

  unfoldable pub request_for : Datetime → String → String → Option UserRow → Store → Store
  request_for now jti email none st = st
  request_for now jti email (some u) st = if str_eq u.hashed_pass "" then st else record st {
    resets =
        st.resets
        ++ record {
          user_id = u.id;
          jti_hash = s.hash_jti jti;
          expires_at = record now { minutes = now.minutes + reset_ttl_minutes };
          consumed = false;
        }
          ∷ [];
    letters = st.letters ++ reset_letter email jti ∷ [];
  }

  -- `request_password_reset`, which answers the same whatever it does.
  unfoldable pub request_password_reset : Datetime → String → String → Store → Answer
  request_password_reset now jti email st =
      (request_for now jti email (get_user_by_email email st) st, ok [])

  abbrev pub reset_row_of : ℕ → String → PasswordResetToken → Bool
  reset_row_of uid jti_hash r = str_eq r.jti_hash jti_hash && r.user_id == uid

  abbrev pub consumed : PasswordResetToken → PasswordResetToken
  consumed r = record r { consumed = true }

  abbrev pub open_row : String → PasswordResetToken → Bool
  open_row jti_hash r = str_eq r.jti_hash jti_hash && not r.consumed

  unfoldable pub reset_with :
      Datetime → String → String → UserRow → Option PasswordResetToken → Store → Answer
  reset_with now jti_hash new u none st = (st, err invalid_link)
  reset_with now jti_hash new u (some r) st =
      if r.consumed
      then (st, err link_used)
      else if before r.expires_at now
      then (st, err link_expired)
      else (
        (set_password_and_revoke_sessions u.id (s.hash_password new)
            (record st { resets = update_rows (open_row jti_hash) consumed st.resets })).0,
        ok [],
      )

  unfoldable pub reset_for : Datetime → String → String → Option UserRow → Store → Answer
  reset_for now jti new none st = (st, err invalid_link)
  reset_for now jti new (some u) st =
      reset_with now (s.hash_jti jti) new u (find (reset_row_of u.id (s.hash_jti jti)) st.resets) st

  abbrev pub user_named : Option String → Store → Option UserRow
  user_named none st = none
  user_named (some user_id) st = get_user_by_id s.backend.to_uuid user_id st

  unfoldable pub reset_signed_by : Datetime → String → Claims → Option String → Store → Answer
  reset_signed_by now new c none st = (st, err invalid_link)
  reset_signed_by now new c (some jti) st =
      if not (is_kind c "password_reset") || str_eq jti ""
      then (st, err invalid_link)
      else reset_for now jti new (user_named c.user_id st) st

  unfoldable pub reset_by : Datetime → String → ResetToken → Store → Answer
  reset_by now new reset_expired st = (st, err link_expired)
  reset_by now new reset_forged st = (st, err invalid_link)
  reset_by now new (reset_signed r) st = reset_signed_by now new r.claims r.jti st

  -- `reset_password`, on what the token decodes to.
  unfoldable pub reset_password : Datetime → String → ResetToken → Store → Answer
  reset_password now new token st =
      if not (strong new) then (st, err weak_password) else reset_by now new token st
