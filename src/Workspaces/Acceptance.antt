-- ===== src/Workspaces/Acceptance.antt =====
-- What the acceptance of an invitation requires and does: `accept_invite` of
-- backend/app/controllers/workspaces.py, alone and after `invite_user`.
use bolodb.Prelude.{
  ℕ, ◌≡◌, refl, true, false, [], ◌∷◌, ◌++◌, Option, none, some, arith, inl, inr, Bool-cases, ok,
  err, >>=-eq-ok, is_none, subst, ap,
}
use bolodb.Prelude.Rows.{find, find-update_rows_hit}
use bolodb.Text.{Text}
use bolodb.Datetime.{Datetime, before}
use bolodb.Workspaces.{invite_accepted, WorkspaceInvite, Store, member_row, log_activity}
use bolodb.Workspaces.Codes.{normalize_invite_code}
use bolodb.Workspaces.Invites.{
  invite_id_is, open_invite, invite_for, accepted, join_workspace, accept_open, accept_invite,
}

is_none_lem : {A : Type 0} (o : Option A) → is_none o ≡ true → o ≡ none
is_none_lem none e = refl
is_none_lem (some a) e = absurd (cc e)

-- An invitation that is neither accepted nor expired, to somebody who is not a member.
abbrev pub IsOpen : Datetime → ℕ → Store → WorkspaceInvite → Type 0
IsOpen now uid st i =
    (i.accepted_at ≡ none)
    × (before i.expires_at now ≡ false)
    × (member_row i.workspace_id uid st ≡ none)

open_invite_lem :
    (found : Option WorkspaceInvite) (i : WorkspaceInvite)
    → open_invite found ≡ ok i
    → (found ≡ some i) × (i.accepted_at ≡ none)
unfolding open_invite
open_invite_lem none i e = absurd (cc e)
open_invite_lem (some j) i e = elim (Bool-cases (is_none j.accepted_at)) [
  | inr done ↦ absurd (cc (rw done at e))
  | inl fresh ↦
      let same : j ≡ i = cc (rw fresh at e) in
      (
        ap some same,
        subst (λ (k : WorkspaceInvite). k.accepted_at ≡ none) same
            (is_none_lem j.accepted_at fresh),
      )
]

accept_open_lem :
    (now : Datetime) (uid : ℕ) (i : WorkspaceInvite) (st : Store) (result : ℕ × Store)
    → accept_open now uid i st ≡ ok result
    → (before i.expires_at now ≡ false)
      × (member_row i.workspace_id uid st ≡ none)
      × ((i.workspace_id, join_workspace now uid i st) ≡ result)
unfolding accept_open
accept_open_lem now uid i st result e = elim (Bool-cases (before i.expires_at now)) [
  | inl late ↦ absurd (cc (rw late at e))
  | inr early ↦ elim (Bool-cases (is_none (member_row i.workspace_id uid st))) [
    | inr inside ↦ absurd (cc (rw (early, inside) at e))
    | inl absent ↦ (early, is_none_lem _ absent, cc (rw (early, absent) at e))
  ]
]

module _ (now : Datetime) (uid : ℕ) (token user_email : Text) (i : WorkspaceInvite)
    (st : Store) where
  -- The invitation is marked, so it is refused the next time.
  again-invite_accepted :
      (later : Datetime) (other : ℕ)
      → find (invite_for (normalize_invite_code token) user_email) st.invites ≡ some i
      → accept_invite later token other user_email (join_workspace now uid i st)
        ≡ err invite_accepted
  unfolding accept_invite join_workspace log_activity open_invite
  again-invite_accepted later other f =
      let marked =
        find-update_rows_hit (invite_for (normalize_invite_code token) user_email)
          (invite_id_is i.id) (accepted now) st.invites i (λ r. refl) f (ground arith) in
      rw marked refl

members-join_workspace :
    (now : Datetime) (uid : ℕ) (i : WorkspaceInvite) (st : Store) (wid : ℕ)
    → i.workspace_id ≡ wid
    → (join_workspace now uid i st).members
      ≡ st.members ++ record { workspace_id = wid; user_id = uid; role = i.role } ∷ []
unfolding join_workspace log_activity
members-join_workspace now uid i st wid same =
    ap (λ (w : ℕ). st.members ++ record { workspace_id = w; user_id = uid; role = i.role } ∷ [])
      same

-- An invitation that is accepted is the one with the normalised code and the caller's address, was
-- neither accepted nor expired, and its workspace did not have the caller; the one new membership has
-- its workspace and role, and whoever tries the same code and address afterwards is told that it has
-- been accepted.
pub accept_invite-IsOpen :
    (now : Datetime) (token : Text) (uid : ℕ) (user_email : Text) (st : Store) (wid : ℕ)
    (joined : Store)
    → accept_invite now token uid user_email st ≡ ok (wid, joined)
    → (i : WorkspaceInvite) × (find (invite_for (normalize_invite_code token) user_email) st.invites
        ≡ some i)
      × IsOpen now uid st i
      × (i.workspace_id ≡ wid)
      × (joined.members
          ≡ st.members ++ record { workspace_id = wid; user_id = uid; role = i.role } ∷ [])
      × ((later : Datetime) (other : ℕ)
          → accept_invite later token other user_email joined ≡ err invite_accepted)
unfolding accept_invite
accept_invite-IsOpen now token uid user_email st wid joined e =
    let (i, opened, rest) =
      >>=-eq-ok
        (open_invite (find (invite_for (normalize_invite_code token) user_email) st.invites)) _ e in
    let (f, fresh) = open_invite_lem _ i opened in
    let (early, absent, result) = accept_open_lem now uid i st (wid, joined) rest in
    let same_wid : i.workspace_id ≡ wid = ap (λ (r : ℕ × Store). r.0) result in
    let same : join_workspace now uid i st ≡ joined = ap (λ (r : ℕ × Store). r.1) result in
    (
      i,
      f,
      (fresh, early, absent),
      same_wid,
      subst
          (λ (s : Store).
            s.members
            ≡ st.members ++ record { workspace_id = wid; user_id = uid; role = i.role } ∷ [])
          same (members-join_workspace now uid i st wid same_wid),
      λ later other.
          subst (λ (s : Store). accept_invite later token other user_email s ≡ err invite_accepted)
            same (again-invite_accepted now uid token user_email i st later other f),
    )
