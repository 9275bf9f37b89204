-- ===== src/Workspaces/Owners/Reached.antt =====
-- Every store that the handlers reach gives each workspace exactly one owner.
use bolodb.Prelude.{
  ℕ, ◌≡◌, true, List, [], ◌∷◌, Option, none, some, String, inl, inr, Bool-cases, Result, ok, err,
  ok_or,
}
use bolodb.Prelude.Rows.{any_row}
use bolodb.Text.{Text}
use bolodb.Datetime.{Datetime}
use bolodb.Workspaces.{Refusal, WorkspaceSettings, Store, owners_count, invitable, log_activity}
use bolodb.Workspaces.Members.{has_workspace}
use bolodb.Workspaces.Invites.{invite_user, settings_row}
use bolodb.Workspaces.Bulk.{
  normalize_email, mem_address, worked, one_address, each_address, bulk_invite,
}
use bolodb.Workspaces.Settings.{
  SettingsUpdate, put_settings, read_settings, get_workspace_settings, update_workspace_settings,
}
use bolodb.Workspaces.Owners.{
  WellFormed, Keeps, KeepsWith, Op, sign_up, create, rename, delete, leave, invite, invite_all,
  rescind, resend, accept, update_role, transfer, remove, look_up_settings, write_settings,
  store_or, step, IsApart, no_workspaces, Reachable, initial, called,
}
use bolodb.Workspaces.Owners.Handlers.{
  create_workspace-Keeps, update_workspace-Keeps, delete_workspace-Keeps, leave_workspace-Keeps,
  remove_member-Keeps,
}
use bolodb.Workspaces.Owners.Roles.{update_member_role-Keeps, transfer_ownership-Keeps}
use bolodb.Workspaces.Owners.Invited.{
  invite_user-Keeps, rescind_invite-Keeps, resend_invite-Keeps, accept_invite-KeepsWith,
}

ok_or-WellFormed :
    (r : Result Refusal Store) (st : Store) → WellFormed st → Keeps r → WellFormed (ok_or r st)
ok_or-WellFormed (err refused) st h k = h
ok_or-WellFormed (ok later) st h k = k

store_or-WellFormed :
    {A : Type 0} (r : Result Refusal (A × Store)) (st : Store)
    → WellFormed st
    → KeepsWith r
    → WellFormed (store_or r st)
store_or-WellFormed (err refused) st h k = h
store_or-WellFormed (ok (a, later)) st h k = k

put_settings-WellFormed :
    (wid : ℕ) (s : WorkspaceSettings) (found : Option WorkspaceSettings) (st : Store)
    → WellFormed st
    → WellFormed (put_settings wid s found st)
unfolding put_settings
put_settings-WellFormed wid s none st h = h
put_settings-WellFormed wid s (some old) st h = h

update_workspace_settings-KeepsWith :
    (wid : ℕ) (u : SettingsUpdate) (actor_id : Option ℕ) (st : Store)
    → WellFormed st
    → KeepsWith (update_workspace_settings wid u actor_id st)
unfolding update_workspace_settings log_activity
update_workspace_settings-KeepsWith wid u actor_id st h = elim (Bool-cases (has_workspace wid st)) [
  | inr absent ↦ rw absent tt
  | inl here ↦ rw here (put_settings-WellFormed wid _ (settings_row wid st) st h)
]

read_settings-KeepsWith :
    (wid : ℕ) (found : Option WorkspaceSettings) (st : Store)
    → WellFormed st
    → KeepsWith (read_settings wid found st)
unfolding read_settings
read_settings-KeepsWith wid (some s) st h = h
read_settings-KeepsWith wid none st h = elim (Bool-cases (has_workspace wid st)) [
  | inr absent ↦ rw absent tt
  | inl here ↦ rw here h
]

get_workspace_settings-KeepsWith :
    (wid : ℕ) (st : Store) → WellFormed st → KeepsWith (get_workspace_settings wid st)
unfolding get_workspace_settings
get_workspace_settings-KeepsWith wid st h = read_settings-KeepsWith wid (settings_row wid st) st h

worked-WellFormed :
    (email : Text) (r : Result Refusal Store) (st : Store)
    → WellFormed st
    → Keeps r
    → WellFormed (worked email r st).1
worked-WellFormed email (err refused) st h k = h
worked-WellFormed email (ok later) st h k = k

module _ (validate : Text → Option Text) (now : Datetime) (wid : ℕ) (role : String) (uid : ℕ) where
  one_address-WellFormed :
      (token raw : Text) (email : Option Text) (seen : List Text) (st : Store)
      → WellFormed st
      → WellFormed (one_address validate now wid role uid token raw email seen st).2
  unfolding one_address
  one_address-WellFormed token raw none seen st h = h
  one_address-WellFormed token raw (some email) seen st h =
      elim (Bool-cases (mem_address email seen)) [
        | inl known ↦ rw known h
        | inr fresh ↦ rw fresh (
            worked-WellFormed email (invite_user now token wid email (some role) uid st) st h
              (invite_user-Keeps now token wid email (some role) uid st h))
      ]

  each_address-WellFormed :
      (addresses : List (Text × Text)) (seen : List Text) (st : Store)
      → WellFormed st
      → WellFormed (each_address validate now wid role uid addresses seen st).1
  unfolding each_address
  each_address-WellFormed [] seen st h = h
  each_address-WellFormed ((raw, token) ∷ rest) seen st h =
      each_address-WellFormed rest _ _
        (one_address-WellFormed token raw (normalize_email validate raw) seen st h)

  bulk_invite-KeepsWith :
      (addresses : List (Text × Text)) (st : Store)
      → WellFormed st
      → KeepsWith (bulk_invite validate now wid role uid addresses st)
  unfolding bulk_invite
  bulk_invite-KeepsWith addresses st h = elim (Bool-cases (invitable role)) [
    | inr bad ↦ rw bad tt
    | inl good ↦ rw good (each_address-WellFormed addresses [] st h)
  ]

module _ (to_uuid : String → Option ℕ) where
  step-WellFormed :
      (op : Op) (st : Store) → IsApart to_uuid op → WellFormed st → WellFormed (step to_uuid op st)
  unfolding step
  step-WellFormed (sign_up account) st apart h = h
  step-WellFormed (create uid name) st apart h =
      ok_or-WellFormed _ st h (create_workspace-Keeps uid name st h)
  step-WellFormed (rename wid name actor_id) st apart h =
      ok_or-WellFormed _ st h (update_workspace-Keeps wid name actor_id st h)
  step-WellFormed (delete wid) st apart h =
      ok_or-WellFormed _ st h (delete_workspace-Keeps wid st h)
  step-WellFormed (leave wid uid) st apart h =
      ok_or-WellFormed _ st h (leave_workspace-Keeps wid uid st h)
  step-WellFormed (invite now token wid email role uid) st apart h =
      ok_or-WellFormed _ st h (invite_user-Keeps now token wid email role uid st h)
  step-WellFormed (invite_all validate now wid role uid addresses) st apart h =
      store_or-WellFormed _ st h (bulk_invite-KeepsWith validate now wid role uid addresses st h)
  step-WellFormed (rescind wid iid actor_id) st apart h =
      ok_or-WellFormed _ st h (rescind_invite-Keeps wid iid actor_id st h)
  step-WellFormed (resend now token wid iid actor_id) st apart h =
      ok_or-WellFormed _ st h (resend_invite-Keeps now token wid actor_id iid st h)
  step-WellFormed (accept now token uid email) st apart h =
      store_or-WellFormed _ st h (accept_invite-KeepsWith now token uid email st h)
  step-WellFormed (update_role wid tuid role actor_id actor_role) st apart h =
      ok_or-WellFormed _ st h (update_member_role-Keeps wid tuid role actor_id actor_role st h)
  step-WellFormed (transfer wid current target) st apart h =
      ok_or-WellFormed _ st h (transfer_ownership-Keeps to_uuid wid current target st apart h)
  step-WellFormed (remove wid tuid actor_id actor_role) st apart h =
      ok_or-WellFormed _ st h (remove_member-Keeps wid tuid actor_id actor_role st h)
  step-WellFormed (look_up_settings wid) st apart h =
      store_or-WellFormed _ st h (get_workspace_settings-KeepsWith wid st h)
  step-WellFormed (write_settings wid u actor_id) st apart h =
      store_or-WellFormed _ st h (update_workspace_settings-KeepsWith wid u actor_id st h)

  -- No workspace, no member and no invitation.
  no_workspaces-WellFormed : (accounts : List _) → WellFormed (no_workspaces to_uuid accounts)
  unfolding any_row
  no_workspaces-WellFormed accounts = ((λ w k. absurd (cc k)), tt, tt, tt, tt)

  pub Reachable-WellFormed : (st : Store) → Reachable to_uuid st → WellFormed st
  Reachable-WellFormed st (initial accounts) = no_workspaces-WellFormed accounts
  Reachable-WellFormed _ (called op st apart r) =
      step-WellFormed op st apart (Reachable-WellFormed st r)

-- From a store without workspaces, whatever handlers are called in whatever order, each workspace that
-- is there has exactly one owner, provided that no call of `transfer_ownership` names its caller as
-- the target under another spelling.
pub Reachable-owners_count :
    (to_uuid : String → Option ℕ) (st : Store) (wid : ℕ)
    → Reachable to_uuid st
    → has_workspace wid st ≡ true
    → owners_count wid st ≡ 1
unfolding owners_count
Reachable-owners_count to_uuid st wid r here = (Reachable-WellFormed to_uuid st r).0 wid here
