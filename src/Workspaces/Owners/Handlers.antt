-- ===== src/Workspaces/Owners/Handlers.antt =====
-- Every handler that changes members or workspaces keeps the store well-formed.
use bolodb.Prelude.{
  ℕ, suc, ◌<◌, ◌≡◌, refl, false, not, ◌&&◌, [], ◌∷◌, Option, none, some, arith, All-imp, All-append,
  All-filter_by, leb, ltb, String, inl, inr, Bool-cases,
}
use bolodb.Prelude.Rows.{any_row, All-update_rows, any_row-update_rows, any_row-append}
use bolodb.Text.{Text, strip}
use bolodb.Guard.{WorkspaceMember, is_member}
use bolodb.Workspaces.{
  Workspace, WorkspaceInvite, Store, workspace_with, belongs_to, owners_count, member_row,
  role_rank, log_activity, delete_member,
}
use bolodb.Workspaces.Members.{
  slugify, slug_or, free_slug, add_workspace, with_slug, create_workspace, has_workspace, renamed,
  update_workspace, delete_workspace, is_sole_owner, leave_as, leave_workspace, is_self, remove_as,
  remove_member, max_attempts,
}
use bolodb.Workspaces.Owners.{IsSound, WellFormed, Keeps}
use bolodb.Workspaces.Owners.Counts.{
  owners_in-append, owners_in-above, owners_in-delete_workspace, owners_in-delete,
}
use bolodb.Workspaces.Owners.Rows.{
  any_row-delete, any_row-below, Unique-filter_by, Unique-append, find-above,
}

IsSound-suc : (n : ℕ) (i : WorkspaceInvite) → IsSound n i → IsSound (suc n) i
IsSound-suc n i h = (h.0, omega (arith, h.1))

-- A new workspace and its owner.
add_workspace-WellFormed :
    (uid : ℕ) (name slug : Text) (st : Store)
    → WellFormed st
    → WellFormed (add_workspace uid name slug st)
unfolding add_workspace log_activity any_row
add_workspace-WellFormed uid name slug st (one, unique, workspaces, members, invites) =
    let n = st.next_id in
    let made : Workspace = record { id = n; name = name; slug = slug } in
    let row : WorkspaceMember = record { workspace_id = n; user_id = uid; role = "owner" } in
    (
      λ w here. ground (
        arith,
        any_row-append (workspace_with w) st.workspaces made,
        owners_in-append w st.members row,
        owners_in-above n st.members members,
        any_row-below w n st.workspaces workspaces,
        one w,
      ),
      Unique-append st.members row unique (find-above n uid st.members members),
      All-append (λ (w : Workspace). w.id < suc n) st.workspaces (made ∷ [])
          (All-imp (λ (w : Workspace). w.id < n) (λ (w : Workspace). w.id < suc n)
            (λ w h. omega (arith, h)) st.workspaces workspaces)
          (omega arith, tt),
      All-append (λ (m : WorkspaceMember). m.workspace_id < suc n) st.members (row ∷ [])
          (All-imp (λ (m : WorkspaceMember). m.workspace_id < n)
            (λ (m : WorkspaceMember). m.workspace_id < suc n) (λ m h. omega (arith, h)) st.members
            members)
          (omega arith, tt),
      All-imp (IsSound n) (IsSound (suc n)) (IsSound-suc n) st.invites invites,
    )

with_slug-Keeps :
    (uid : ℕ) (name : Text) (st : Store) (slug : Option Text)
    → WellFormed st
    → Keeps (with_slug uid name st slug)
with_slug-Keeps uid name st none h = tt
with_slug-Keeps uid name st (some slug) h = add_workspace-WellFormed uid name slug st h

pub create_workspace-Keeps :
    (uid : ℕ) (name : Text) (st : Store) → WellFormed st → Keeps (create_workspace uid name st)
unfolding create_workspace
create_workspace-Keeps uid name st h =
    with_slug-Keeps uid name st (free_slug max_attempts 0 (slug_or (slugify name)) st.workspaces) h

pub update_workspace-Keeps :
    (wid : ℕ) (name : Option Text) (actor_id : Option ℕ) (st : Store)
    → WellFormed st
    → Keeps (update_workspace wid name actor_id st)
unfolding update_workspace log_activity
update_workspace-Keeps wid none actor_id st h = h
update_workspace-Keeps wid (some name) actor_id st (one, unique, workspaces, members, invites) =
    elim (Bool-cases (has_workspace wid st)) [
      | inl here ↦ rw here (
        (λ w k. one w (
            rw
              (any_row-update_rows (workspace_with w) (workspace_with wid) (renamed (strip name))
                st.workspaces (λ r. refl))
              at k)),
        unique,
        All-update_rows (λ (w : Workspace). w.id < st.next_id) (workspace_with wid)
            (renamed (strip name)) st.workspaces (λ r k. k) workspaces,
        members,
        invites,
      )
      | inr absent ↦ rw absent tt
    ]

pub delete_workspace-Keeps :
    (wid : ℕ) (st : Store) → WellFormed st → Keeps (delete_workspace wid st)
unfolding delete_workspace
delete_workspace-Keeps wid st (one, unique, workspaces, members, invites) =
    elim (Bool-cases (has_workspace wid st)) [
      | inl here ↦ rw here (
        (λ w k.
            let (left, other) = any_row-delete w wid st.workspaces k in
            rw (owners_in-delete_workspace w wid st.members other) (one w left)),
        Unique-filter_by (λ m. not (belongs_to wid m)) st.members unique,
        All-filter_by (λ (w : Workspace). w.id < st.next_id) _ st.workspaces workspaces,
        All-filter_by (λ (m : WorkspaceMember). m.workspace_id < st.next_id) _ st.members members,
        All-filter_by (IsSound st.next_id) _ st.invites invites,
      )
      | inr absent ↦ rw absent tt
    ]

-- A member that is not the sole owner goes.
delete_member-WellFormed :
    (wid uid : ℕ) (st : Store) (m : WorkspaceMember)
    → member_row wid uid st ≡ some m
    → is_sole_owner wid m st ≡ false
    → WellFormed st
    → WellFormed (delete_member wid uid st)
unfolding owners_count
delete_member-WellFormed wid uid st m f shared (one, unique, workspaces, members, invites) = (
  λ w k. ground (arith, one w k, owners_in-delete wid uid w st.members m unique f, shared),
  Unique-filter_by (λ r. not (is_member wid uid r)) st.members unique,
  workspaces,
  All-filter_by (λ (m : WorkspaceMember). m.workspace_id < st.next_id) _ st.members members,
  invites,
)

leave_as-Keeps :
    (wid uid : ℕ) (found : Option WorkspaceMember) (st : Store)
    → member_row wid uid st ≡ found
    → WellFormed st
    → Keeps (leave_as wid uid found st)
unfolding leave_as log_activity
leave_as-Keeps wid uid none st f h = tt
leave_as-Keeps wid uid (some m) st f h = elim (Bool-cases (is_sole_owner wid m st)) [
  | inl sole ↦ rw sole tt
  | inr shared ↦ rw shared (delete_member-WellFormed wid uid st m f shared h)
]

pub leave_workspace-Keeps :
    (wid uid : ℕ) (st : Store) → WellFormed st → Keeps (leave_workspace wid uid st)
unfolding leave_workspace
leave_workspace-Keeps wid uid st h = leave_as-Keeps wid uid (member_row wid uid st) st refl h

module _ (wid tuid : ℕ) (actor_id : Option ℕ) (actor_rank : ℕ) where
  remove_as-Keeps :
      (found : Option WorkspaceMember) (st : Store)
      → member_row wid tuid st ≡ found
      → WellFormed st
      → Keeps (remove_as wid tuid actor_id actor_rank found st)
  unfolding remove_as log_activity
  remove_as-Keeps none st f h = tt
  remove_as-Keeps (some m) st f h =
      elim (Bool-cases (not (is_self actor_id tuid) && leb actor_rank (role_rank m.role))) [
        | inl above ↦ rw above tt
        | inr below ↦
            rw below
              (elim (Bool-cases
                (not (is_self actor_id tuid) && ltb actor_rank (role_rank "admin"))) [
                  | inl weak ↦ rw weak tt
                  | inr strong ↦ rw strong (elim (Bool-cases (is_sole_owner wid m st)) [
                    | inl sole ↦ rw sole tt
                    | inr shared ↦ rw shared (delete_member-WellFormed wid tuid st m f shared h)
                  ])
                ])
      ]

pub remove_member-Keeps :
    (wid tuid : ℕ) (actor_id : Option ℕ) (actor_role : String) (st : Store)
    → WellFormed st
    → Keeps (remove_member wid tuid actor_id actor_role st)
unfolding remove_member
remove_member-Keeps wid tuid actor_id actor_role st h =
    remove_as-Keeps wid tuid actor_id (role_rank actor_role) (member_row wid tuid st) st refl h
