-- ===== src/Workspaces/Members.antt =====
-- `create_workspace`, `update_workspace`, `delete_workspace`, `leave_workspace`, `update_member_role`,
-- `transfer_ownership` and `remove_member` of backend/app/controllers/workspaces.py.
use bolodb.Prelude.{
  ℕ, zero, suc, Bool, true, false, not, ◌&&◌, ◌||◌, List, [], ◌∷◌, ◌++◌, Option, none, some,
  filter_by, leb, ltb, ◌==◌, String, str_eq, if◌then◌else◌, Result, ok, err,
}
use bolodb.Prelude.Rows.{update_rows, any_row}
use bolodb.Text.{Text, codes, lower, strip, eq_text, is_digit}
use bolodb.Text.Number.{of_ℕ}
use bolodb.Guard.{WorkspaceMember, is_member}
use bolodb.Workspaces.{
  Refusal, no_unique_slug, workspace_not_found, member_not_found, sole_owner, invalid_role,
  insufficient_permissions, target_above, role_above, already_yours, only_the_owner, invalid_uuid,
  no_such_workspace, Workspace, WorkspaceInvite, WorkspaceSettings, Activity, Store, workspace_with,
  belongs_to, owners_count, member_row, role_rank, invitable, log_activity, delete_member,
}

abbrev is_slug_char : ℕ → Bool
is_slug_char c = (leb b'a' c && leb c b'z') || is_digit c

-- `re.sub(r"[^a-z0-9]+", "-", text)`; the flag says whether the run of other characters has begun.
dashed : Bool → Text → Text
dashed in_run [] = []
dashed in_run (c ∷ t) =
    let kept = c ∷ dashed false t in
    let run = dashed true t in if is_slug_char c then kept else if in_run then run else b'-' ∷ run

lstrip_dash : Text → Text
lstrip_dash [] = []
lstrip_dash (c ∷ t) = let rest = lstrip_dash t in if c == b'-' then rest else c ∷ t

reversed_onto : Text → Text → Text
reversed_onto [] done = done
reversed_onto (c ∷ t) done = reversed_onto t (c ∷ done)

-- `slugify`
unfoldable pub slugify : Text → Text
unfolding dashed lstrip_dash reversed_onto
slugify text =
    let trimmed = lstrip_dash (dashed false (lower text)) in
    reversed_onto (lstrip_dash (reversed_onto trimmed [])) []

abbrev pub slug_or : Text → Text
slug_or [] = codes "workspace"
slug_or (c ∷ t) = c ∷ t

-- The slug of an attempt: the base, then the base with the attempt's number.
unfoldable pub slug_of : Text → ℕ → Text
slug_of base zero = base
slug_of base (suc n) = base ++ b'-' ∷ of_ℕ (suc n)

abbrev has_slug : Text → Workspace → Bool
has_slug slug w = eq_text w.slug slug

unfoldable pub slug_taken : Text → List Workspace → Bool
slug_taken slug [] = false
slug_taken slug (w ∷ rows) = has_slug slug w || slug_taken slug rows

-- The first free slug of the attempts that are left.
unfoldable pub free_slug : ℕ → ℕ → Text → List Workspace → Option Text
free_slug zero attempt base rows = none
free_slug (suc left) attempt base rows =
    let later = free_slug left (suc attempt) base rows in
    if slug_taken (slug_of base attempt) rows then later else some (slug_of base attempt)

abbrev pub max_attempts : ℕ
max_attempts = 10

-- The workspace, its owner, and the entry in the log.
unfoldable pub add_workspace : ℕ → Text → Text → Store → Store
add_workspace uid name slug st =
    log_activity st.next_id (some uid) "workspace.created" st.next_id (record st {
      workspaces = st.workspaces ++ record { id = st.next_id; name = name; slug = slug } ∷ [];
      members =
          st.members ++ record { workspace_id = st.next_id; user_id = uid; role = "owner" } ∷ [];
      next_id = suc st.next_id;
    })

abbrev pub with_slug : ℕ → Text → Store → Option Text → Result Refusal Store
with_slug uid name st none = err no_unique_slug
with_slug uid name st (some slug) = ok (add_workspace uid name slug st)

-- `create_workspace`
unfoldable pub create_workspace : ℕ → Text → Store → Result Refusal Store
create_workspace uid name st =
    with_slug uid name st (free_slug max_attempts 0 (slug_or (slugify name)) st.workspaces)

abbrev pub renamed : Text → Workspace → Workspace
renamed name w = record w { name = name }

abbrev pub has_workspace : ℕ → Store → Bool
has_workspace wid st = any_row (workspace_with wid) st.workspaces

-- `update_workspace`; the entry in the log needs the workspace.
unfoldable pub update_workspace : ℕ → Option Text → Option ℕ → Store → Result Refusal Store
update_workspace wid none actor_id st = ok st
update_workspace wid (some name) actor_id st =
    if has_workspace wid st
    then ok (
        log_activity wid actor_id "workspace.updated" wid (record st {
          workspaces = update_rows (workspace_with wid) (renamed (strip name)) st.workspaces;
        }))
    else err no_such_workspace

-- `delete_workspace`: the rows of the workspace go with it.
unfoldable pub delete_workspace : ℕ → Store → Result Refusal Store
delete_workspace wid st =
    if not (has_workspace wid st)
    then err workspace_not_found
    else ok (record st {
      workspaces = filter_by (λ w. not (workspace_with wid w)) st.workspaces;
      members = filter_by (λ m. not (belongs_to wid m)) st.members;
      invites = filter_by (λ (i : WorkspaceInvite). not (i.workspace_id == wid)) st.invites;
      settings = filter_by (λ (s : WorkspaceSettings). not (s.workspace_id == wid)) st.settings;
      activity = filter_by (λ (a : Activity). not (a.workspace_id == wid)) st.activity;
    })

-- The sole owner of a workspace.
abbrev pub is_sole_owner : ℕ → WorkspaceMember → Store → Bool
is_sole_owner wid m st = str_eq m.role "owner" && leb (owners_count wid st) 1

unfoldable pub leave_as : ℕ → ℕ → Option WorkspaceMember → Store → Result Refusal Store
leave_as wid uid none st = err member_not_found
leave_as wid uid (some m) st =
    if is_sole_owner wid m st
    then err sole_owner
    else ok (log_activity wid (some uid) "member.left" uid (delete_member wid uid st))

-- `leave_workspace`
unfoldable pub leave_workspace : ℕ → ℕ → Store → Result Refusal Store
leave_workspace wid uid st = leave_as wid uid (member_row wid uid st) st

abbrev pub with_role : String → WorkspaceMember → WorkspaceMember
with_role role m = record m { role = role }

abbrev pub set_role : ℕ → ℕ → String → Store → Store
set_role wid uid role st = record st {
  members = update_rows (is_member wid uid) (with_role role) st.members;
}

unfoldable pub change_role :
    ℕ → ℕ → String → Option ℕ → ℕ → Option WorkspaceMember → Store → Result Refusal Store
change_role wid tuid role actor_id actor_rank none st = err member_not_found
change_role wid tuid role actor_id actor_rank (some m) st =
    if leb actor_rank (role_rank m.role)
    then err target_above
    else if leb actor_rank (role_rank role)
    then err role_above
    else if str_eq m.role "owner" && not (str_eq role "owner")
    then err sole_owner
    else ok (log_activity wid actor_id "member.role_updated" tuid (set_role wid tuid role st))

-- `update_member_role`
unfoldable pub update_member_role :
    ℕ → ℕ → String → Option ℕ → String → Store → Result Refusal Store
update_member_role wid tuid role actor_id actor_role st =
    if not (invitable role)
    then err invalid_role
    else if ltb (role_rank actor_role) (role_rank "admin")
    then err insufficient_permissions
    else change_role wid tuid role actor_id (role_rank actor_role) (member_row wid tuid st) st

-- `target.role = "owner"`, and then `actor.role = "admin"`.
unfoldable pub hand_over :
    ℕ → ℕ → ℕ → Option WorkspaceMember → Option WorkspaceMember → Store → Result Refusal Store
hand_over wid cuid tuid none actor st = err member_not_found
hand_over wid cuid tuid (some target) none st = err only_the_owner
hand_over wid cuid tuid (some target) (some actor) st =
    if not (str_eq actor.role "owner")
    then err only_the_owner
    else ok (
        log_activity wid (some cuid) "member.ownership_transferred" tuid
          (set_role wid cuid "admin" (set_role wid tuid "owner" st)))

-- The target's identifier is read first, inside a `try`, and then the caller's.
unfoldable pub transfer_to : ℕ → Option ℕ → Option ℕ → Store → Result Refusal Store
transfer_to wid _ none st = err member_not_found
transfer_to wid none (some tuid) st = err invalid_uuid
transfer_to wid (some cuid) (some tuid) st =
    hand_over wid cuid tuid (member_row wid tuid st) (member_row wid cuid st) st

-- `transfer_ownership`: the identifiers come as texts, and `to_uuid` reads them.
unfoldable pub transfer_ownership :
    (String → Option ℕ) → ℕ → String → String → Store → Result Refusal Store
transfer_ownership to_uuid wid current_owner_id target_user_id st =
    if str_eq current_owner_id target_user_id
    then err already_yours
    else transfer_to wid (to_uuid current_owner_id) (to_uuid target_user_id) st

abbrev pub is_self : Option ℕ → ℕ → Bool
is_self none tuid = false
is_self (some actor) tuid = actor == tuid

unfoldable pub remove_as :
    ℕ → ℕ → Option ℕ → ℕ → Option WorkspaceMember → Store → Result Refusal Store
remove_as wid tuid actor_id actor_rank none st = err member_not_found
remove_as wid tuid actor_id actor_rank (some m) st =
    if not (is_self actor_id tuid) && leb actor_rank (role_rank m.role)
    then err target_above
    else if not (is_self actor_id tuid) && ltb actor_rank (role_rank "admin")
    then err insufficient_permissions
    else if is_sole_owner wid m st
    then err sole_owner
    else ok (log_activity wid actor_id "member.removed" tuid (delete_member wid tuid st))

-- `remove_member`
unfoldable pub remove_member : ℕ → ℕ → Option ℕ → String → Store → Result Refusal Store
remove_member wid tuid actor_id actor_role st =
    remove_as wid tuid actor_id (role_rank actor_role) (member_row wid tuid st) st
