-- ===== src/Workspaces/Tests.antt =====
-- The theorems about workspaces at small concrete inputs.
use bolodb.Prelude.{
  ℕ, ◌≡◌, refl, Bool, true, ◌&&◌, ◌||◌, arith, List, [], ◌∷◌, ◌++◌, Option, none, some, String,
  str_eq, if◌then◌else◌, get_or, ok, err, filter_by,
}
use bolodb.Prelude.Rows.{find, update_rows, any_row}
use bolodb.Prelude.Dict.{Dict, lookup, has_key}
use bolodb.Text.{Text, codes, is_space, lstrip, strip, lower, upper, eq_text}
use bolodb.Datetime.{Datetime, before}
use bolodb.Permissions.{table, Overrides, settings, permissions, has_permission}
use bolodb.Permissions.Resolved.{flag_at, default}
use bolodb.Guard.{WorkspaceMember}
use bolodb.Workspaces.{
  invite_accepted, WorkspaceInvite, Account, Store, owners_count, member_row, log_activity,
}
use bolodb.Workspaces.Members.{
  slugify, slug_of, slug_taken, free_slug, add_workspace, create_workspace, has_workspace,
  transfer_ownership,
}
use bolodb.Workspaces.Codes.{
  code_of, code_alphabet, generate_invite_code, squeezed, compact_of, canonical,
  normalize_invite_code,
}
use bolodb.Workspaces.Codes.Respelled.{Respelled, ends, extra, left_out, letter, small_letter}
use bolodb.Workspaces.Codes.Typed.{normalize-generate_invite_code}
use bolodb.Workspaces.Invites.{
  settings_row, write_invite, invite_user, open_invite, invite_for, join_workspace, accept_open,
  accept_invite,
}
use bolodb.Workspaces.Settings.{
  SettingsUpdate, SettingsView, default_settings, settings_or_default, view_of, changed,
  put_settings, get_workspace_settings, update_workspace_settings,
}
use bolodb.Workspaces.Owners.{
  create, invite, accept, step, no_workspaces, Reachable, initial, called,
}
use bolodb.Workspaces.Owners.Reached.{Reachable-owners_count}
use bolodb.Workspaces.Transfer.{transfer_ownership-owners_count}
use bolodb.Workspaces.Acceptance.{IsOpen, accept_invite-IsOpen}
use bolodb.Workspaces.Merging.{UniqueKeys, flag_after}
use bolodb.Workspaces.Merging.Stored.{
  table_of, get-update_workspace_settings, update_workspace_settings-has_permission,
}

-- `"1"` and `"01"` are two spellings of one identifier.
abbrev to_uuid : String → Option ℕ
to_uuid s = if str_eq s "1" || str_eq s "01" then some 1 else if str_eq s "2" then some 2 else none

abbrev ana_email : Text
ana_email = codes "ana@x.io"

abbrev bob_email : Text
bob_email = codes "bob@x.io"

abbrev ana : Account
ana = record { id = 1; email = ana_email }

abbrev bob : Account
bob = record { id = 2; email = bob_email }

abbrev noon : Datetime
noon = record { minutes = 1051920720; micros = 0 }

abbrev choices : List ℕ
choices = 0 ∷ 1 ∷ 10 ∷ 11 ∷ 12 ∷ 31 ∷ 9 ∷ 20 ∷ []

-- The codes of `choices`, in lower case and with spaces.
abbrev typed : Text
typed = codes " bolo 01ab-cz9m "

Respelled-typed : Respelled typed (generate_invite_code choices)
unfolding generate_invite_code code_of code_alphabet is_space
Respelled-typed = extra _ _ _ refl (
    small_letter _ _ _ _ (omega arith, omega arith, refl)
      (small_letter _ _ _ _ (omega arith, omega arith, refl)
        (small_letter _ _ _ _ (omega arith, omega arith, refl)
          (small_letter _ _ _ _ (omega arith, omega arith, refl)
            (extra _ _ _ refl (
              left_out _ _ _ refl (
                letter _ _ _ (
                  letter _ _ _ (
                    small_letter _ _ _ _ (omega arith, omega arith, refl)
                      (small_letter _ _ _ _ (omega arith, omega arith, refl)
                        (letter _ _ _ (
                          small_letter _ _ _ _ (omega arith, omega arith, refl)
                            (small_letter _ _ _ _ (omega arith, omega arith, refl)
                              (letter _ _ _ (
                                small_letter _ _ _ _ (omega arith, omega arith, refl)
                                  (extra _ _ _ refl ends))))))))))))))))

normalize-generate_invite_code_example : normalize_invite_code typed ≡ generate_invite_code choices
normalize-generate_invite_code_example =
    normalize-generate_invite_code choices typed
      (
        omega arith,
        (
          omega arith,
          (
            omega arith,
            (omega arith, (omega arith, (omega arith, (omega arith, (omega arith, tt))))),
          ),
        ),
      )
      refl Respelled-typed

-- Ana makes a workspace and invites Bob, who joins with the code that he types.
abbrev founded : Store
founded = step to_uuid (create 1 (codes "Acme")) (no_workspaces to_uuid (ana ∷ bob ∷ []))

abbrev invited : Store
invited = step to_uuid (invite noon (generate_invite_code choices) 0 bob_email none 1) founded

abbrev joined : Store
joined = step to_uuid (accept noon typed 2 bob_email) invited

joined-Reachable : Reachable to_uuid joined
joined-Reachable = called (accept noon typed 2 bob_email) invited tt (
    called (invite noon (generate_invite_code choices) 0 bob_email none 1) founded tt (
      called (create 1 (codes "Acme")) (no_workspaces to_uuid (ana ∷ bob ∷ [])) tt
        (initial (ana ∷ bob ∷ []))))

abbrev row_of : ℕ → String → WorkspaceMember
row_of uid role = record { workspace_id = 0; user_id = uid; role = role }

members-joined : joined.members ≡ row_of 1 "owner" ∷ row_of 2 "member" ∷ []
unfolding step create_workspace free_slug slug_taken slug_of slugify lower add_workspace
    log_activity invite_user write_invite find any_row update_rows eq_text before accept_invite
    open_invite accept_open join_workspace normalize_invite_code canonical compact_of
    generate_invite_code code_of code_alphabet squeezed strip lstrip is_space upper
members-joined = refl

has_workspace-joined : has_workspace 0 joined ≡ true
unfolding step create_workspace free_slug slug_taken slug_of slugify lower add_workspace
    log_activity invite_user write_invite find any_row update_rows eq_text before accept_invite
    open_invite accept_open join_workspace normalize_invite_code canonical compact_of
    generate_invite_code code_of code_alphabet squeezed strip lstrip is_space upper
has_workspace-joined = refl

Reachable-owners_count_example : owners_count 0 joined ≡ 1
Reachable-owners_count_example =
    Reachable-owners_count to_uuid joined 0 joined-Reachable has_workspace-joined

-- A store with one workspace of Ana's, to which Bob is invited.
abbrev open_row : WorkspaceInvite
open_row = record {
  id = 5;
  workspace_id = 0;
  email = bob_email;
  role = "admin";
  token = generate_invite_code choices;
  invited_by = 1;
  expires_at = record { minutes = 1051930720; micros = 0 };
  accepted_at = none;
}

abbrev acme : Store
acme = record {
  workspaces = record { id = 0; name = codes "Acme"; slug = codes "acme" } ∷ [];
  members = row_of 1 "owner" ∷ [];
  invites = open_row ∷ [];
  settings = [];
  accounts = ana ∷ bob ∷ [];
  activity = [];
  mails = [];
  next_id = 6;
}

member_row-acme : member_row 0 1 acme ≡ some (row_of 1 "owner")
unfolding find
member_row-acme = refl

owners_count-acme : owners_count 0 acme ≡ 1
unfolding owners_count filter_by
owners_count-acme = refl

transfer_ownership-owners_count_example :
    (later : Store) × (transfer_ownership to_uuid 0 "1" "01" acme ≡ ok later)
    × (owners_count 0 later ≡ 0)
transfer_ownership-owners_count_example =
    transfer_ownership-owners_count to_uuid 0 1 "1" "01" acme (row_of 1 "owner") refl refl refl
      member_row-acme refl (tt, tt) owners_count-acme

abbrev bob_in : Store
bob_in = join_workspace noon 2 open_row acme

accepts : accept_invite noon typed 2 bob_email acme ≡ ok (0, bob_in)
unfolding accept_invite open_invite accept_open find before eq_text normalize_invite_code canonical
    compact_of generate_invite_code code_of code_alphabet squeezed strip lstrip is_space upper
accepts = refl

accept_invite-IsOpen_example :
    (i : WorkspaceInvite) × (find (invite_for (normalize_invite_code typed) bob_email) acme.invites
      ≡ some i)
    × IsOpen noon 2 acme i
    × (i.workspace_id ≡ 0)
    × (bob_in.members
        ≡ acme.members ++ record { workspace_id = 0; user_id = 2; role = i.role } ∷ [])
    × ((later : Datetime) (other : ℕ)
        → accept_invite later typed other bob_email bob_in ≡ err invite_accepted)
accept_invite-IsOpen_example = accept_invite-IsOpen noon typed 2 bob_email acme 0 bob_in accepts

-- The owner lets members run schedules.
abbrev given_table : Dict (Option Bool)
given_table = ("schedules.manage", some true) ∷ []

abbrev given : Overrides
given = ("owner", table []) ∷ ("member", table given_table) ∷ []

abbrev request : SettingsUpdate
request = record {
  default_invite_role = none;
  invite_expiry_days = some 3;
  activity_retention_days = none;
  role_permissions = some given;
}

abbrev view : SettingsView
view = view_of (changed request (default_settings 0))

abbrev updated : Store
updated =
    log_activity 0 (some 1) "workspace.settings_updated" 0
      (put_settings 0 (changed request (default_settings 0)) none acme)

updates : update_workspace_settings 0 request (some 1) acme ≡ ok (view, updated)
unfolding update_workspace_settings find any_row
updates = refl

get-update_workspace_settings_example : get_workspace_settings 0 updated ≡ ok (view, updated)
get-update_workspace_settings_example =
    get-update_workspace_settings 0 request (some 1) acme updated view updates

settings_row-acme : settings_row 0 acme ≡ none
unfolding find
settings_row-acme = refl

given-UniqueKeys : UniqueKeys given
unfolding lookup
given-UniqueKeys = (refl, (refl, tt))

lookup-given : lookup "member" given ≡ some (table given_table)
unfolding lookup
lookup-given = refl

given_table-UniqueKeys : UniqueKeys given_table
unfolding lookup
given_table-UniqueKeys = (refl, tt)

old-UniqueKeys :
    UniqueKeys
      (table_of (lookup "member" (settings_or_default 0 (settings_row 0 acme)).role_permissions))
unfolding find lookup
old-UniqueKeys = tt

update_workspace_settings-has_permission_example :
    has_permission "member" (settings view.settings.role_permissions) (some "schedules.manage") ≡ (
      has_key "schedules.manage" permissions
      && get_or
          (flag_after (lookup "schedules.manage" given_table) (
            flag_at "schedules.manage" (
              table_of
                (lookup "member" (settings_or_default 0 (settings_row 0 acme)).role_permissions))))
          (default "member" "schedules.manage"))
update_workspace_settings-has_permission_example =
    update_workspace_settings-has_permission 0 request (some 1) acme updated view given "member"
      "schedules.manage" given_table updates refl given-UniqueKeys refl lookup-given
      given_table-UniqueKeys old-UniqueKeys
