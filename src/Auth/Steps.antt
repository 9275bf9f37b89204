-- ===== src/Auth/Steps.antt =====
-- Each handler in turn: the store stays good, versions do not fall, and the claims handed out are at most
-- of their user's version.
use bolodb.Prelude.{
  ◌≡◌, refl, Bool, true, false, Option, none, some, arith, is_none, String, str_eq, if◌then◌else◌,
  inl, inr, Bool-cases,
}
use bolodb.Prelude.Rows.{find}
use bolodb.Datetime.{Datetime}
use bolodb.Otp.{OtpTable}
use bolodb.Verification.{EmailVerificationOutcome}
use bolodb.Auth.{UserRow, Store, Services, Identity}
use bolodb.Auth.Accounts.{
  has_address, has_supabase_id, get_user_by_email, get_user_by_supabase_id, NewUser, create_user,
  update_user, verified, linked,
}
use bolodb.Auth.Handlers.{
  strong, login, send_code, signed_up, signup, joined_by, linked_to, google_as, google_verified,
  supabase_google_login, verify_code_of, verify_email_code, resend_to, resend_verification_email,
  code_result,
}
use bolodb.Auth.Rows.{Good, update_user-Grows, update_user-Good}
use bolodb.Auth.Issued.{
  Grows-refl, Fair, Reads, create_jwt-Issued, session_of-Issued, session_of-later, login_as-Fair,
  create_user-Good,
}

module _ (s : Services) (reads : Reads s) where
  pub login-Fair :
      (email password : String) (st : Store) → Good st → Fair s st (login s email password st)
  unfolding login
  login-Fair email password st g =
      login_as-Fair s reads password st (has_address email) (get_user_by_email email st) g refl

  signed_up-Fair :
      (now : Datetime) (code email : String) (n : NewUser) (made : Option Store) (st : Store)
      → Good st
      → create_user n st ≡ made
      → Fair s st (signed_up s now code email st.next_id made st)
  unfolding signed_up send_code
  signed_up-Fair now code email n none st g e = (g, Grows-refl st, tt)
  signed_up-Fair now code email n (some later) st g e =
      let (good, grows, here) = create_user-Good s reads n st later g e in (good, grows, tt)

  pub signup-Fair :
      (now : Datetime) (outcome : EmailVerificationOutcome) (code email password : String)
      (st : Store)
      → Good st
      → Fair s st (signup s now outcome code email password st)
  unfolding signup
  signup-Fair now outcome code email password st g = elim (Bool-cases (strong password)) [
    | inr weak ↦ rw weak (g, Grows-refl st, tt)
    | inl fit ↦ rw fit (elim (Bool-cases (outcome.allowed)) [
      | inr refused ↦ rw refused (g, Grows-refl st, tt)
      | inl allowed ↦ rw allowed (elim (Bool-cases (is_none (get_user_by_email email st))) [
        | inr known ↦ rw known (g, Grows-refl st, tt)
        | inl fresh ↦ rw fresh (signed_up-Fair now code email _ _ st g refl)
      ])
    ])
  ]

  joined_by-Fair :
      (n : NewUser) (made : Option Store) (st : Store)
      → Good st
      → create_user n st ≡ made
      → Fair s st (joined_by s made st.next_id st)
  unfolding joined_by
  joined_by-Fair n none st g e = (g, Grows-refl st, tt)
  joined_by-Fair n (some later) st g e =
      let (good, grows, here) = create_user-Good s reads n st later g e in
      (
        good,
        grows,
        create_jwt-Issued s later (s.show_id st.next_id) st.next_id 0 _ (reads st.next_id) here
            (omega arith),
      )

  linked_to-Fair :
      (i : Identity) (p : UserRow → Bool) (found : Option UserRow) (st : Store)
      → Good st
      → ((u : UserRow) → found ≡ some u → find p st.users ≡ some u)
      → Fair s st (linked_to s i found st)
  unfolding linked_to
  linked_to-Fair i p none st g f = joined_by-Fair _ _ st g refl
  linked_to-Fair i p (some u) st g f = elim (Bool-cases (u.email_verified)) [
    | inr unproved ↦ rw unproved (g, Grows-refl st, tt)
    | inl proved ↦
        let grows = update_user-Grows (linked i.sub) (λ r. refl) (λ r. omega arith) u.id st in
        rw proved (
          update_user-Good (linked i.sub) (λ r. refl) (λ r. omega arith) u.id st g,
          grows,
          session_of-later s reads st (update_user u.id (linked i.sub) st) p u g grows (f u refl),
        )
  ]

  namesake :
      (i : Identity) (st : Store) (u : UserRow)
      → (if google_verified i then get_user_by_email i.email st else none) ≡ some u
      → find (has_address i.email) st.users ≡ some u
  namesake i st u e = elim (Bool-cases (google_verified i)) [
    | inl proved ↦ rw proved at e
    | inr unproved ↦ absurd (cc (rw unproved at e))
  ]

  google_as-Fair :
      (i : Identity) (found : Option UserRow) (st : Store)
      → Good st
      → get_user_by_supabase_id i.sub st ≡ found
      → Fair s st (google_as s i found st)
  unfolding google_as
  google_as-Fair i (some u) st g f =
      (g, Grows-refl st, session_of-Issued s reads st (has_supabase_id i.sub) u g f)
  google_as-Fair i none st g f =
      linked_to-Fair i (has_address i.email)
        (if google_verified i then get_user_by_email i.email st else none) st g (namesake i st)

  pub supabase_google_login-Fair :
      (i : Identity) (st : Store) → Good st → Fair s st (supabase_google_login s i st)
  unfolding supabase_google_login
  supabase_google_login-Fair i st g = elim (Bool-cases (str_eq i.sub "")) [
    | inl bare ↦ rw bare (g, Grows-refl st, tt)
    | inr named ↦ rw named (elim (Bool-cases (str_eq i.email "")) [
      | inl bare ↦ rw bare (g, Grows-refl st, tt)
      | inr mailed ↦ rw mailed (google_as-Fair i (get_user_by_supabase_id i.sub st) st g refl)
    ])
  ]

  code_result-Fair :
      (u : UserRow) (p : UserRow → Bool) (st : Store) (r : OtpTable × Bool)
      → Good st
      → find p st.users ≡ some u
      → Fair s st (code_result s u st r)
  code_result-Fair u p st (otps, false) g f = (g, Grows-refl st, tt)
  code_result-Fair u p st (otps, true) g f =
      let grows = update_user-Grows verified (λ r. refl) (λ r. omega arith) u.id st in
      (
        update_user-Good verified (λ r. refl) (λ r. omega arith) u.id st g,
        grows,
        session_of-later s reads st (update_user u.id verified (record st { otps = otps })) p u g
            grows f,
      )

  verify_code_of-Fair :
      (now : Datetime) (code : String) (p : UserRow → Bool) (found : Option UserRow) (st : Store)
      → Good st
      → find p st.users ≡ found
      → Fair s st (verify_code_of s now code found st)
  unfolding verify_code_of
  verify_code_of-Fair now code p none st g f = (g, Grows-refl st, tt)
  verify_code_of-Fair now code p (some u) st g f = elim (Bool-cases (u.email_verified)) [
    | inl proved ↦ rw proved (g, Grows-refl st, tt)
    | inr unproved ↦ rw unproved (code_result-Fair u p st _ g f)
  ]

  pub verify_email_code-Fair :
      (now : Datetime) (email code : String) (st : Store)
      → Good st
      → Fair s st (verify_email_code s now email code st)
  unfolding verify_email_code
  verify_email_code-Fair now email code st g =
      verify_code_of-Fair now code (has_address email) (get_user_by_email email st) st g refl

  resend_to-Fair :
      (now : Datetime) (code email : String) (found : Option UserRow) (st : Store)
      → Good st
      → Fair s st (resend_to s now code email found st)
  unfolding resend_to send_code
  resend_to-Fair now code email none st g = (g, Grows-refl st, tt)
  resend_to-Fair now code email (some u) st g = elim (Bool-cases (u.email_verified)) [
    | inl proved ↦ rw proved (g, Grows-refl st, tt)
    | inr unproved ↦ rw unproved (g, Grows-refl st, tt)
  ]

  pub resend_verification_email-Fair :
      (now : Datetime) (code email : String) (st : Store)
      → Good st
      → Fair s st (resend_verification_email s now code email st)
  unfolding resend_verification_email
  resend_verification_email-Fair now code email st g =
      resend_to-Fair now code email (get_user_by_email email st) st g
