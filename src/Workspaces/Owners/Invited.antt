-- ===== src/Workspaces/Owners/Invited.antt =====
-- The handlers of invitations and settings keep the store well-formed.
use bolodb.Prelude.{
  ℕ, suc, ◌<◌, ◌≡◌, refl, true, not, ◌||◌, [], ◌∷◌, Option, none, some, arith, All-imp, All-append,
  All-filter_by, String, inl, inr, Bool-cases, Option-cases, Result, ok, err, ◌>>=◌, is_none,
}
use bolodb.Prelude.Rows.{find, All-update_rows, All-find}
use bolodb.Text.{Text}
use bolodb.Datetime.{Datetime, before}
use bolodb.Guard.{WorkspaceMember}
use bolodb.Workspaces.{Workspace, WorkspaceInvite, Store, member_row, invitable, log_activity}
use bolodb.Workspaces.Members.{has_workspace}
use bolodb.Workspaces.Invites.{
  settings_row, default_role_of, target_role_of, has_email, member_account, invites_to,
  invite_id_is, Offer, reissued, token_taken, written, mail_invite, with_name, workspace_row,
  write_invite, invite_user, open_invite, get_open_invite, rescind, rescind_invite, renewed, resend,
  resend_invite, invite_for, accepted, join_workspace, accept_open, accept_invite,
}
use bolodb.Workspaces.Codes.{normalize_invite_code}
use bolodb.Workspaces.Owners.{IsSound, WellFormed, Keeps, KeepsWith}
use bolodb.Workspaces.Owners.Counts.{owners_in-append}
use bolodb.Workspaces.Owners.Rows.{any_row-below, Unique-append}
use bolodb.Workspaces.Owners.Roles.{weight_invitable}

mail_invite-WellFormed :
    (email token : Text) (w : Option Workspace) (st : Store)
    → WellFormed st
    → WellFormed (mail_invite email token w st)
mail_invite-WellFormed email token none st h = h
mail_invite-WellFormed email token (some w) st h = h

written-WellFormed :
    (wid : ℕ) (email : Text) (o : Offer) (own : Option WorkspaceInvite) (st : Store)
    → invitable o.role ≡ true
    → has_workspace wid st ≡ true
    → WellFormed st
    → WellFormed (written wid email o own st)
written-WellFormed wid email o none st role here (one, unique, workspaces, members, invites) =
    let n = st.next_id in
    let below : wid < n = any_row-below wid n st.workspaces workspaces here in
    (
      one,
      unique,
      All-imp (λ (w : Workspace). w.id < n) (λ (w : Workspace). w.id < suc n)
          (λ w h. omega (arith, h)) st.workspaces workspaces,
      All-imp (λ (m : WorkspaceMember). m.workspace_id < n)
          (λ (m : WorkspaceMember). m.workspace_id < suc n) (λ m h. omega (arith, h)) st.members
          members,
      All-append (IsSound (suc n)) st.invites (_ ∷ [])
          (All-imp (IsSound n) (IsSound (suc n)) (λ i h. (h.0, omega (arith, h.1))) st.invites
            invites)
          ((role, omega (arith, below)), tt),
    )
written-WellFormed wid email o (some own) st role here (one, unique, workspaces, members, invites) =
    (
      one,
      unique,
      workspaces,
      members,
      All-update_rows (IsSound st.next_id) (invite_id_is own.id) (reissued o) st.invites
          (λ i h. (role, h.1)) invites,
    )

write_invite-Keeps :
    (wid : ℕ) (email : Text) (o : Offer) (own : Option WorkspaceInvite) (st : Store)
    → invitable o.role ≡ true
    → WellFormed st
    → Keeps (write_invite wid email o own st)
unfolding write_invite log_activity
write_invite-Keeps wid email o own st role h =
    elim (Bool-cases (token_taken o.token own st || not (has_workspace wid st))) [
      | inl refused ↦ rw refused tt
      | inr free ↦ rw free (
          mail_invite-WellFormed email o.token (workspace_row wid st) (written wid email o own st)
            (written-WellFormed wid email o own st role (ground (arith, free)) h))
    ]

pub invite_user-Keeps :
    (now : Datetime) (token : Text) (wid : ℕ) (email : Text) (role : Option String) (uid : ℕ)
    (st : Store)
    → WellFormed st
    → Keeps (invite_user now token wid email role uid st)
unfolding invite_user
invite_user-Keeps now token wid email role uid st h =
    elim (Bool-cases (invitable (target_role_of role (default_role_of (settings_row wid st))))) [
      | inr bad ↦ rw bad tt
      | inl good ↦
          rw good (elim (Bool-cases (member_account wid (find (has_email email) st.accounts) st)) [
            | inl inside ↦ rw inside tt
            | inr outside ↦
                rw outside (
                  write_invite-Keeps wid email _ (find (invites_to wid email) st.invites) st good h)
          ])
    ]

rescind-Keeps :
    (wid : ℕ) (actor_id : Option ℕ) (found : Result _ WorkspaceInvite) (st : Store)
    → WellFormed st
    → Keeps (found >>= λ i. ok (rescind wid actor_id i st))
unfolding rescind log_activity
rescind-Keeps wid actor_id (err refused) st h = tt
rescind-Keeps wid actor_id (ok i) st (one, unique, workspaces, members, invites) =
    (one, unique, workspaces, members, All-filter_by (IsSound st.next_id) _ st.invites invites)

pub rescind_invite-Keeps :
    (wid : ℕ) (iid actor_id : Option ℕ) (st : Store)
    → WellFormed st
    → Keeps (rescind_invite wid iid actor_id st)
unfolding rescind_invite
rescind_invite-Keeps wid iid actor_id st h =
    rescind-Keeps wid actor_id (get_open_invite wid iid st) st h

module _ (now : Datetime) (token : Text) (wid : ℕ) (actor_id : Option ℕ) where
  resend-Keeps :
      (found : Result _ WorkspaceInvite) (st : Store)
      → WellFormed st
      → Keeps (found >>= λ i. resend now token wid actor_id i st)
  unfolding resend log_activity
  resend-Keeps (err refused) st h = tt
  resend-Keeps (ok i) st (one, unique, workspaces, members, invites) =
      mail_invite-WellFormed i.email _ (with_name (workspace_row wid st)) _ (
        one,
        unique,
        workspaces,
        members,
        All-update_rows (IsSound st.next_id) (invite_id_is i.id)
            (renewed now token (settings_row wid st)) st.invites (λ j k. k) invites,
      )

  pub resend_invite-Keeps :
      (iid : Option ℕ) (st : Store)
      → WellFormed st
      → Keeps (resend_invite now token wid iid actor_id st)
  unfolding resend_invite
  resend_invite-Keeps iid st h = resend-Keeps (get_open_invite wid iid st) st h

-- The new member is not an owner, and has no other row.
join_workspace-WellFormed :
    (now : Datetime) (uid : ℕ) (i : WorkspaceInvite) (st : Store)
    → IsSound st.next_id i
    → is_none (member_row i.workspace_id uid st) ≡ true
    → WellFormed st
    → WellFormed (join_workspace now uid i st)
unfolding join_workspace log_activity
join_workspace-WellFormed now uid i st sound absent (one, unique, workspaces, members, invites) =
    let row : WorkspaceMember = record {
      workspace_id = i.workspace_id;
      user_id = uid;
      role = i.role;
    } in
    let alone : member_row i.workspace_id uid st ≡ none =
      elim (Option-cases (member_row i.workspace_id uid st)) [
        | inl e ↦ e
        | inr found ↦ absurd (cc (rw found.1 at absent))
      ] in
    (
      λ w k.
          ground
            (arith, owners_in-append w st.members row, one w k, weight_invitable i.role sound.0),
      Unique-append st.members row unique alone,
      workspaces,
      All-append (λ (m : WorkspaceMember). m.workspace_id < st.next_id) st.members (row ∷ [])
          members (sound.1, tt),
      All-update_rows (IsSound st.next_id) (invite_id_is i.id) (accepted now) st.invites (λ j k. k)
          invites,
    )

accept_open-KeepsWith :
    (now : Datetime) (uid : ℕ) (i : WorkspaceInvite) (st : Store)
    → IsSound st.next_id i
    → WellFormed st
    → KeepsWith (accept_open now uid i st)
unfolding accept_open
accept_open-KeepsWith now uid i st sound h = elim (Bool-cases (before i.expires_at now)) [
  | inl late ↦ rw late tt
  | inr early ↦ rw early (elim (Bool-cases (is_none (member_row i.workspace_id uid st))) [
    | inr inside ↦ rw inside tt
    | inl absent ↦ rw absent (join_workspace-WellFormed now uid i st sound absent h)
  ])
]

module _ (now : Datetime) (uid : ℕ) (st : Store) where
  accept_found-KeepsWith :
      (found : Option WorkspaceInvite)
      → ((i : WorkspaceInvite) → found ≡ some i → IsSound st.next_id i)
      → WellFormed st
      → KeepsWith (open_invite found >>= λ i. accept_open now uid i st)
  unfolding open_invite
  accept_found-KeepsWith none sound h = tt
  accept_found-KeepsWith (some i) sound h = elim (Bool-cases (is_none i.accepted_at)) [
    | inr done ↦ rw done tt
    | inl fresh ↦ rw fresh (accept_open-KeepsWith now uid i st (sound i refl) h)
  ]

pub accept_invite-KeepsWith :
    (now : Datetime) (token : Text) (uid : ℕ) (user_email : Text) (st : Store)
    → WellFormed st
    → KeepsWith (accept_invite now token uid user_email st)
unfolding accept_invite
accept_invite-KeepsWith now token uid user_email st (one, unique, workspaces, members, invites) =
    accept_found-KeepsWith now uid st
      (find (invite_for (normalize_invite_code token) user_email) st.invites)
      (λ i f.
        All-find (IsSound st.next_id) (invite_for (normalize_invite_code token) user_email)
          st.invites i invites f)
      (one, unique, workspaces, members, invites)
