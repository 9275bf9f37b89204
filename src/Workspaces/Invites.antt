-- ===== src/Workspaces/Invites.antt =====
-- Invitations: `invite_user`, `bulk_invite`, `get_invites`, `list_pending_invites`, `rescind_invite`,
-- `resend_invite` and `accept_invite` of backend/app/controllers/workspaces.py.
use bolodb.Prelude.{
  ℕ, suc, ◌+◌, ◌*◌, Bool, false, not, ◌&&◌, ◌||◌, List, [], ◌∷◌, ◌++◌, Option, none, some,
  filter_by, ◌==◌, String, str_eq, if◌then◌else◌, is_none, is_empty, Result, ok, err, ◌>>=◌,
}
use bolodb.Prelude.Rows.{find, update_rows, any_row}
use bolodb.Text.{Text, eq_text}
use bolodb.Datetime.{Datetime, before}
use bolodb.Workspaces.{
  Refusal, already_a_member, could_not_process, invalid_role, invite_not_found, invite_accepted,
  invite_expired, Workspace, WorkspaceInvite, WorkspaceSettings, Account, Store, workspace_with,
  member_row, invitable, log_activity,
}
use bolodb.Workspaces.Codes.{normalize_invite_code}
use bolodb.Workspaces.Members.{has_workspace}

abbrev pub invite_expiry_default : ℕ
invite_expiry_default = 7

abbrev pub settings_row : ℕ → Store → Option WorkspaceSettings
settings_row wid st = find (λ (s : WorkspaceSettings). s.workspace_id == wid) st.settings

-- `getattr(settings, "default_invite_role", "member")`
abbrev pub default_role_of : Option WorkspaceSettings → String
default_role_of none = "member"
default_role_of (some s) = s.default_invite_role

-- `getattr(settings, "invite_expiry_days", INVITE_EXPIRY_DAYS)`
abbrev pub expiry_days_of : Option WorkspaceSettings → ℕ
expiry_days_of none = invite_expiry_default
expiry_days_of (some s) = s.invite_expiry_days

-- `now + timedelta(days=days)`
abbrev pub days_after : ℕ → Datetime → Datetime
days_after days now = record now { minutes = now.minutes + days * 1440 }

-- `role if role else default_role`
abbrev pub target_role_of : Option String → String → String
target_role_of none default = default
target_role_of (some role) default = if str_eq role "" then default else role

abbrev pub has_email : Text → Account → Bool
has_email email a = eq_text a.email email

abbrev pub member_account : ℕ → Option Account → Store → Bool
member_account wid none st = false
member_account wid (some a) st = not (is_none (member_row wid a.id st))

abbrev pub invites_to : ℕ → Text → WorkspaceInvite → Bool
invites_to wid email i = i.workspace_id == wid && eq_text i.email email

abbrev pub invite_id_is : ℕ → WorkspaceInvite → Bool
invite_id_is id i = i.id == id

-- What an invitation offers, to whom, from whom, and until when.
pub record Offer : Type 0 where
  pub role : String
  pub token : Text
  pub invited_by : ℕ
  pub expires_at : Datetime

abbrev pub reissued : Offer → WorkspaceInvite → WorkspaceInvite
reissued o i = record i {
  role = o.role;
  token = o.token;
  invited_by = o.invited_by;
  expires_at = o.expires_at;
  accepted_at = none;
}

-- Another row has the token, which the table's unique constraint refuses.
abbrev pub token_taken : Text → Option WorkspaceInvite → Store → Bool
token_taken token none st = any_row (λ (i : WorkspaceInvite). eq_text i.token token) st.invites
token_taken token (some own) st =
    any_row (λ (i : WorkspaceInvite). eq_text i.token token && not (i.id == own.id)) st.invites

abbrev pub written : ℕ → Text → Offer → Option WorkspaceInvite → Store → Store
written wid email o none st = record st {
  invites =
      st.invites
      ++ record {
        id = st.next_id;
        workspace_id = wid;
        email = email;
        role = o.role;
        token = o.token;
        invited_by = o.invited_by;
        expires_at = o.expires_at;
        accepted_at = none;
      }
        ∷ [];
  next_id = suc st.next_id;
}
written wid email o (some own) st = record st {
  invites = update_rows (invite_id_is own.id) (reissued o) st.invites;
}

abbrev pub written_id : Option WorkspaceInvite → Store → ℕ
written_id none st = st.next_id
written_id (some own) st = own.id

-- `send_workspace_invite_email`, which needs the workspace's name.
abbrev pub mail_invite : Text → Text → Option Workspace → Store → Store
mail_invite email token none st = st
mail_invite email token (some w) st = record st {
  mails = st.mails ++ record { email = email; workspace_name = w.name; token = token } ∷ [];
}

abbrev pub workspace_row : ℕ → Store → Option Workspace
workspace_row wid st = find (workspace_with wid) st.workspaces

-- The commit, the mail and the log. The unique token and the workspace's key are the constraints.
unfoldable pub write_invite :
    ℕ → Text → Offer → Option WorkspaceInvite → Store → Result Refusal Store
write_invite wid email o own st =
    if token_taken o.token own st || not (has_workspace wid st)
    then err could_not_process
    else ok (
        log_activity wid (some o.invited_by) "member.invited" (written_id own st)
          (mail_invite email o.token (workspace_row wid st) (written wid email o own st)))

-- `invite_user`; the token is what `generate_invite_code` returns.
unfoldable pub invite_user :
    Datetime → Text → ℕ → Text → Option String → ℕ → Store → Result Refusal Store
invite_user now token wid email role uid st =
    let target_role = target_role_of role (default_role_of (settings_row wid st)) in
    if not (invitable target_role)
    then err invalid_role
    else if member_account wid (find (has_email email) st.accounts) st
    then err already_a_member
    else write_invite wid email
        (record {
          role = target_role;
          token = token;
          invited_by = uid;
          expires_at = days_after (expiry_days_of (settings_row wid st)) now;
        })
        (find (invites_to wid email) st.invites) st

-- `accepted_at is None and expires_at > now`
abbrev pub is_pending : Datetime → WorkspaceInvite → Bool
is_pending now i = is_none i.accepted_at && before now i.expires_at

-- `get_invites`: the join leaves out an invitation without its workspace.
unfoldable pub get_invites : Datetime → Text → Store → List WorkspaceInvite
get_invites now email st =
    filter_by (λ i. has_workspace i.workspace_id st && (eq_text i.email email && is_pending now i))
      st.invites

insert_by_expiry : WorkspaceInvite → List WorkspaceInvite → List WorkspaceInvite
insert_by_expiry i [] = i ∷ []
insert_by_expiry i (j ∷ rows) =
    let rest = insert_by_expiry i rows in
    if before i.expires_at j.expires_at then j ∷ rest else i ∷ j ∷ rows

by_expiry : List WorkspaceInvite → List WorkspaceInvite
by_expiry [] = []
by_expiry (i ∷ rows) = insert_by_expiry i (by_expiry rows)

-- `list_pending_invites`, the last to expire first.
unfoldable pub list_pending_invites : Datetime → ℕ → Store → List WorkspaceInvite
unfolding insert_by_expiry by_expiry
list_pending_invites now wid st =
    by_expiry
      (filter_by (λ (i : WorkspaceInvite). i.workspace_id == wid && is_pending now i) st.invites)

-- `_get_invite`, and what the callers refuse next.
unfoldable pub open_invite : Option WorkspaceInvite → Result Refusal WorkspaceInvite
open_invite none = err invite_not_found
open_invite (some i) = if is_none i.accepted_at then ok i else err invite_accepted

abbrev pub invite_row : ℕ → ℕ → Store → Option WorkspaceInvite
invite_row wid iid st = find (λ i. i.id == iid && i.workspace_id == wid) st.invites

abbrev pub get_open_invite : ℕ → Option ℕ → Store → Result Refusal WorkspaceInvite
get_open_invite wid none st = err invite_not_found
get_open_invite wid (some iid) st = open_invite (invite_row wid iid st)

unfoldable pub rescind : ℕ → Option ℕ → WorkspaceInvite → Store → Store
rescind wid actor_id i st =
    log_activity wid actor_id "member.invite_revoked" i.id
      (record st { invites = filter_by (λ j. not (invite_id_is i.id j)) st.invites })

-- `rescind_invite`; an identifier that cannot be read is `none`.
unfoldable pub rescind_invite : ℕ → Option ℕ → Option ℕ → Store → Result Refusal Store
rescind_invite wid iid actor_id st =
    get_open_invite wid iid st >>= λ i. ok (rescind wid actor_id i st)

-- Only an invitation that has expired gets the fresh token.
abbrev pub renewed : Datetime → Text → Option WorkspaceSettings → WorkspaceInvite → WorkspaceInvite
renewed now token s i = record i {
  token = if before i.expires_at now then token else i.token;
  expires_at = days_after (expiry_days_of s) now;
}

-- `if workspace_name:`
abbrev pub with_name : Option Workspace → Option Workspace
with_name none = none
with_name (some w) = if is_empty w.name then none else some w

unfoldable pub resend :
    Datetime → Text → ℕ → Option ℕ → WorkspaceInvite → Store → Result Refusal Store
resend now token wid actor_id i st =
    let fresh = renewed now token (settings_row wid st) i in
    ok (
      log_activity wid actor_id "member.invite_resent" i.id (
        mail_invite i.email fresh.token (with_name (workspace_row wid st)) (record st {
          invites =
              update_rows (invite_id_is i.id) (renewed now token (settings_row wid st)) st.invites;
        })))

-- `resend_invite`
unfoldable pub resend_invite :
    Datetime → Text → ℕ → Option ℕ → Option ℕ → Store → Result Refusal Store
resend_invite now token wid iid actor_id st =
    get_open_invite wid iid st >>= λ i. resend now token wid actor_id i st

abbrev pub invite_for : Text → Text → WorkspaceInvite → Bool
invite_for token email i = eq_text i.token token && eq_text i.email email

abbrev pub accepted : Datetime → WorkspaceInvite → WorkspaceInvite
accepted now i = record i { accepted_at = some now }

-- The membership, the mark on the invitation and the entry in the log.
unfoldable pub join_workspace : Datetime → ℕ → WorkspaceInvite → Store → Store
join_workspace now uid i st =
    log_activity i.workspace_id (some uid) "member.joined" uid (record st {
      invites = update_rows (invite_id_is i.id) (accepted now) st.invites;
      members =
          st.members ++ record { workspace_id = i.workspace_id; user_id = uid; role = i.role } ∷ [];
    })

unfoldable pub accept_open : Datetime → ℕ → WorkspaceInvite → Store → Result Refusal (ℕ × Store)
accept_open now uid i st =
    if before i.expires_at now
    then err invite_expired
    else if not (is_none (member_row i.workspace_id uid st))
    then err already_a_member
    else ok (i.workspace_id, join_workspace now uid i st)

-- `accept_invite`, with the workspace joined.
unfoldable pub accept_invite : Datetime → Text → ℕ → Text → Store → Result Refusal (ℕ × Store)
accept_invite now token uid user_email st =
    open_invite (find (invite_for (normalize_invite_code token) user_email) st.invites) >>= λ i.
    accept_open now uid i st
