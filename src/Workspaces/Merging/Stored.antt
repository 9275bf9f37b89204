-- ===== src/Workspaces/Merging/Stored.antt =====
-- The settings that an update stores, as the next reader finds them.
use bolodb.Prelude.{
  ℕ, ◌≡◌, refl, ap, sym, ◌∙◌, Bool, true, false, ◌&&◌, [], ◌∷◌, Option, none, some, arith, is_empty,
  get_or, ==_iff, String, str_eq, eq_iff, inl, inr, Bool-cases, ok,
}
use bolodb.Prelude.Rows.{find-holds, find-written, find-added}
use bolodb.Prelude.Dict.{Dict, lookup, has_key}
use bolodb.Permissions.{Setting, flag, table, Overrides, settings, permissions, has_permission}
use bolodb.Permissions.Resolved.{flag_at, default, has_permission-table}
use bolodb.Workspaces.{WorkspaceSettings, Store, log_activity}
use bolodb.Workspaces.Members.{has_workspace}
use bolodb.Workspaces.Invites.{settings_row}
use bolodb.Workspaces.Settings.{
  pop, merge, merged_entry, merge_roles, new_permissions, SettingsUpdate, SettingsView, view_of,
  changed, put_settings, settings_or_default, is_settings_of, read_settings, get_workspace_settings,
  update_workspace_settings,
}
use bolodb.Workspaces.Merging.{
  UniqueKeys, lookup-pop, UniqueKeys-pop, entry_after, lookup-merge_roles, flag_after,
  flag_at-merge, flag_at_unique,
}

-- The row of the workspace that an update leaves.
settings_row-put_settings :
    (wid : ℕ) (s : WorkspaceSettings) (found : Option WorkspaceSettings) (st : Store)
    → settings_row wid st ≡ found
    → is_settings_of wid s ≡ true
    → settings_row wid (put_settings wid s found st) ≡ some s
unfolding put_settings
settings_row-put_settings wid s none st f hit = find-added (is_settings_of wid) st.settings s f hit
settings_row-put_settings wid s (some old) st f hit =
    find-written (is_settings_of wid) st.settings old s f hit

is_settings_of-changed :
    (wid : ℕ) (u : SettingsUpdate) (found : Option WorkspaceSettings) (st : Store)
    → settings_row wid st ≡ found
    → is_settings_of wid (changed u (settings_or_default wid found)) ≡ true
unfolding changed
is_settings_of-changed wid u none st f = (==_iff wid wid).1 refl
is_settings_of-changed wid u (some old) st f = find-holds (is_settings_of wid) st.settings old f

get-put_settings :
    (wid : ℕ) (s : WorkspaceSettings) (actor_id : Option ℕ) (st : Store)
    → settings_row wid st ≡ some s
    → get_workspace_settings wid st ≡ ok (view_of s, st)
unfolding get_workspace_settings read_settings
get-put_settings wid s actor_id st f = rw f refl

module _ (wid : ℕ) (u : SettingsUpdate) (actor_id : Option ℕ) (st : Store) where
  -- The settings that the update makes.
  abbrev pub made : WorkspaceSettings
  made = changed u (settings_or_default wid (settings_row wid st))

  unfoldable pub stored : Store
  stored =
      log_activity wid actor_id "workspace.settings_updated" wid
        (put_settings wid made (settings_row wid st) st)

  settings_row-stored : settings_row wid stored ≡ some made
  unfolding stored log_activity
  settings_row-stored =
      settings_row-put_settings wid made (settings_row wid st) st refl
        (is_settings_of-changed wid u (settings_row wid st) st refl)

  update_lem :
      (view : SettingsView) (later : Store)
      → update_workspace_settings wid u actor_id st ≡ ok (view, later)
      → (view_of made ≡ view) × (stored ≡ later)
  unfolding update_workspace_settings stored
  update_lem view later e = elim (Bool-cases (has_workspace wid st)) [
    | inr absent ↦ absurd (cc (rw absent at e))
    | inl here ↦ (cc (rw here at e), cc (rw here at e))
  ]

-- After an update of the settings that succeeds, reading them gives what the update answered and
-- changes nothing.
pub get-update_workspace_settings :
    (wid : ℕ) (u : SettingsUpdate) (actor_id : Option ℕ) (st later : Store) (view : SettingsView)
    → update_workspace_settings wid u actor_id st ≡ ok (view, later)
    → get_workspace_settings wid later ≡ ok (view, later)
get-update_workspace_settings wid u actor_id st later view e =
    let (same_view, same_store) = update_lem wid u actor_id st view later e in
    let read =
      get-put_settings wid (made wid u actor_id st) actor_id (stored wid u actor_id st)
        (settings_row-stored wid u actor_id st) in
    cc (read, same_view, same_store)

-- The dictionary of an entry.
abbrev pub table_of : Option Setting → Dict (Option Bool)
table_of (some (table d)) = d
table_of _ = []

merged_table :
    (old : Option Setting) (d : Dict (Option Bool)) (key : String)
    → UniqueKeys d
    → UniqueKeys (table_of old)
    → (e : Dict (Option Bool)) × (merged_entry old (table d) ≡ table e)
      × (flag_at key e ≡ flag_after (lookup key d) (flag_at key (table_of old)))
merged_table none d key u w = (d, refl, flag_at_unique key d u)
merged_table (some (flag b)) d key u w = (d, refl, flag_at_unique key d u)
merged_table (some Setting.other) d key u w = (d, refl, flag_at_unique key d u)
merged_table (some (table old)) d key u w = (merge old d, refl, flag_at-merge key old d w u)

found-nonempty :
    {V : Type 0} (role : String) (d : Dict V) (v : V) → lookup role d ≡ some v → is_empty d ≡ false
unfolding lookup
found-nonempty role [] v f = absurd (cc f)
found-nonempty role (x ∷ d) v f = refl

module _ (role : String) (plain : str_eq role "owner" ≡ false) where
  swapped : str_eq "owner" role ≡ false
  swapped = ground (arith, eq_iff "owner" role, eq_iff role "owner", plain)

  lookup-pop_owner : {V : Type 0} (d : Dict V) → lookup role (pop "owner" d) ≡ lookup role d
  lookup-pop_owner d = lookup-pop "owner" role d ∙ rw swapped refl

  -- The entry of the role in what is stored.
  lookup-new_permissions :
      (given old : Overrides) (entry : Setting)
      → UniqueKeys given
      → lookup role given ≡ some entry
      → lookup role (new_permissions (some given) old) ≡ some (merged_entry (lookup role old) entry)
  unfolding new_permissions
  lookup-new_permissions given old entry u here = rw (found-nonempty role given entry here) (
      lookup-pop_owner (merge_roles (pop "owner" old) (pop "owner" given))
      ∙ lookup-merge_roles role (pop "owner" old) (pop "owner" given) plain
          (UniqueKeys-pop "owner" given u)
      ∙ ap (λ o. entry_after o (lookup role (pop "owner" old))) (lookup-pop_owner given ∙ here)
      ∙ ap (λ o. some (merged_entry o entry)) (lookup-pop_owner old))

role_permissions-made :
    (wid : ℕ) (u : SettingsUpdate) (actor_id : Option ℕ) (st : Store) (given : Overrides)
    (view : SettingsView)
    → u.role_permissions ≡ some given
    → view_of (made wid u actor_id st) ≡ view
    → view.settings.role_permissions
      ≡ new_permissions
          (some given)
          (settings_or_default wid (settings_row wid st)).role_permissions
unfolding changed
role_permissions-made wid u actor_id st given view g same =
    ap (λ (v : SettingsView). v.settings.role_permissions) (sym same)
    ∙ ap (λ o. new_permissions o (settings_or_default wid (settings_row wid st)).role_permissions) g

-- After an update of the settings whose request has a dictionary for a role other than the owner's,
-- what the stored overrides grant the role, for a registered key, is the flag that the request gives
-- the key, or the one in the role's own dictionary so far if the request leaves the key out, or else
-- the default; a value that is no Boolean falls back to the default. No key stands twice in a
-- dictionary.
pub update_workspace_settings-has_permission :
    (wid : ℕ) (u : SettingsUpdate) (actor_id : Option ℕ) (st later : Store) (view : SettingsView)
    (given : Overrides) (role key : String) (d : Dict (Option Bool))
    → update_workspace_settings wid u actor_id st ≡ ok (view, later)
    → u.role_permissions ≡ some given
    → UniqueKeys given
    → str_eq role "owner" ≡ false
    → lookup role given ≡ some (table d)
    → UniqueKeys d
    → UniqueKeys
        (table_of (lookup role (settings_or_default wid (settings_row wid st)).role_permissions))
    → has_permission role (settings view.settings.role_permissions) (some key) ≡ (
        has_key key permissions
        && get_or
            (flag_after (lookup key d) (
              flag_at key (
                table_of
                  (lookup role (settings_or_default wid (settings_row wid st)).role_permissions))))
            (default role key))
update_workspace_settings-has_permission wid u actor_id st later view given role key d e g ug plain
      here ud uo =
    let old = (settings_or_default wid (settings_row wid st)).role_permissions in
    let (same_view, same_store) = update_lem wid u actor_id st view later e in
    let (entries, merged, read) = merged_table (lookup role old) d key ud uo in
    let entry : lookup role view.settings.role_permissions ≡ some (table entries) =
      ap (λ o. lookup role o) (role_permissions-made wid u actor_id st given view g same_view)
      ∙ lookup-new_permissions role plain given old (table d) ug here
      ∙ ap some merged in
    has_permission-table role key view.settings.role_permissions entries plain entry
    ∙ ap (λ o. has_key key permissions && get_or o (default role key)) read
