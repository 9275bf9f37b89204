-- ===== src/Auth/Issued.antt =====
-- No handler hands out claims above the version of their user, and none lowers a version.
use bolodb.Prelude.{
  ℕ, suc, ◌<◌, ◌≤◌, ◌≡◌, refl, subst, Bool, not, ◌||◌, [], ◌∷◌, ◌++◌, Option, none, some, arith,
  All, All-imp, All-append, String, str_eq, inl, inr, Bool-cases,
}
use bolodb.Prelude.Rows.{find, any_row, find-append}
use bolodb.Guard.{Claims}
use bolodb.Auth.{UserRow, Store, Services}
use bolodb.Auth.Accounts.{has_user_id, NewUser, has_address, supabase_taken, row_for, create_user}
use bolodb.Auth.Handlers.{Answer, create_jwt, session_of, login_as}
use bolodb.Auth.Calls.{Issued, carried}
use bolodb.Auth.Rows.{Good, Grows, find_own, UniqueIds-append, find-fresh}

pub Grows-refl : (st : Store) → Grows st st
Grows-refl st uid u f = (u, f, omega arith)

module _ (s : Services) where
  -- A store after a call, and its answer.
  abbrev pub Fair : Store → Answer → Type 0
  Fair st (later, answer) = Good later × Grows st later × All (Issued s later) (carried answer)

  -- Identifiers are read as they are printed.
  abbrev pub Reads : Type 0
  Reads = (n : ℕ) → s.backend.to_uuid (s.show_id n) ≡ some n

  pub Issued-Grows :
      (st later : Store) (c : Claims) → Grows st later → Issued s st c → Issued s later c
  Issued-Grows st later c grows (uid, u, same, f, le) =
      let (v, fv, rise) = grows uid u f in (uid, v, same, fv, omega (arith, le, rise))

  -- A session for an identifier that is read as a user's.
  pub create_jwt-Issued :
      (st : Store) (user_id : String) (uid version : ℕ) (u : UserRow)
      → s.backend.to_uuid user_id ≡ some uid
      → find (has_user_id uid) st.users ≡ some u
      → version ≤ u.token_version
      → All (Issued s st) (create_jwt user_id version)
  create_jwt-Issued st user_id uid version u read f le =
      ((uid, u, read, f, le), ((uid, u, read, f, le), tt))

  module _ (reads : Reads) where
    pub session_of-Issued :
        (st : Store) (p : UserRow → Bool) (u : UserRow)
        → Good st
        → find p st.users ≡ some u
        → All (Issued s st) (session_of s u)
    session_of-Issued st p u g f =
        create_jwt-Issued st (s.show_id u.id) u.id u.token_version u (reads u.id)
          (find_own p st.users u g.0 f) (omega arith)

    -- A session that was read before the store grew.
    pub session_of-later :
        (st later : Store) (p : UserRow → Bool) (u : UserRow)
        → Good st
        → Grows st later
        → find p st.users ≡ some u
        → All (Issued s later) (session_of s u)
    session_of-later st later p u g grows f =
        All-imp (Issued s st) (Issued s later) (λ c i. Issued-Grows st later c grows i)
          (session_of s u) (session_of-Issued st p u g f)

    pub login_as-Fair :
        (password : String) (st : Store) (p : UserRow → Bool) (found : Option UserRow)
        → Good st
        → find p st.users ≡ found
        → Fair st (st, login_as s password found)
    unfolding login_as
    login_as-Fair password st p none g f = (g, Grows-refl st, tt)
    login_as-Fair password st p (some u) g f =
        elim (Bool-cases
          (str_eq u.hashed_pass "" || not (s.verify_password password u.hashed_pass))) [
            | inl bad ↦ rw bad ((g, Grows-refl st, tt))
            | inr good ↦ rw good (elim (Bool-cases (u.email_verified)) [
              | inr unproved ↦ rw unproved ((g, Grows-refl st, tt))
              | inl proved ↦ rw proved (g, Grows-refl st, session_of-Issued st p u g f)
            ])
          ]

    pub create_user-Good :
        (n : NewUser) (st later : Store)
        → Good st
        → create_user n st ≡ some later
        → Good later
          × Grows st later
          × (find (has_user_id st.next_id) later.users ≡ some (row_for n st.next_id))
    unfolding create_user
    create_user-Good n st later g e =
        elim (Bool-cases
          (any_row (has_address n.email) st.users || supabase_taken n.supabase_id st)) [
            | inl taken ↦ absurd (cc (rw taken at e))
            | inr free ↦
                let row = row_for n st.next_id in
                let made = record st { users = st.users ++ row ∷ []; next_id = suc st.next_id } in
                let same : made ≡ later = cc (rw free at e) in
                subst
                  (λ (l : Store).
                    Good l × Grows st l × (find (has_user_id st.next_id) l.users ≡ some row))
                  same
                  (
                    (
                      UniqueIds-append st.next_id st.users row g.1 refl g.0,
                      All-append (λ (u : UserRow). u.id < suc st.next_id) st.users (row ∷ [])
                          (All-imp (λ (u : UserRow). u.id < st.next_id)
                            (λ (u : UserRow). u.id < suc st.next_id) (λ u h. omega (arith, h))
                            st.users g.1)
                          (omega arith, tt),
                    ),
                    (λ uid u f.
                        (u, find-append (has_user_id uid) st.users (row ∷ []) u f, omega arith)),
                    find-fresh st.next_id st.users row g.1 refl,
                  )
          ]
