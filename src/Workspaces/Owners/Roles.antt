-- ===== src/Workspaces/Owners/Roles.antt =====
-- The handlers that change roles keep the store well-formed.
use bolodb.Prelude.{
  ℕ, ◌<◌, ◌≡◌, ◌≢◌, refl, true, false, not, ◌&&◌, List, Option, none, some, arith, leb, ltb, ◌==◌,
  ==_iff, String, str_eq, eq_iff, inl, inr, Bool-cases, ap,
}
use bolodb.Prelude.Rows.{find, update_rows, All-update_rows}
use bolodb.Guard.{WorkspaceMember, is_member}
use bolodb.Workspaces.{Store, member_row, role_rank, invitable, log_activity}
use bolodb.Workspaces.Members.{
  with_role, set_role, change_role, update_member_role, hand_over, transfer_to, transfer_ownership,
}
use bolodb.Workspaces.Owners.{owners_in, Unique, WellFormed, Keeps, IsApart, transfer}
use bolodb.Workspaces.Owners.Counts.{
  owners_in-set_role, owners_in-find, find-update_rows, find-update_rows_self,
}
use bolodb.Workspaces.Owners.Rows.{Unique-update_rows}

-- Neither an admin's nor a member's role is the owner's.
pub weight_invitable : (role : String) → invitable role ≡ true → str_eq role "owner" ≡ false
weight_invitable role h = elim (Bool-cases (str_eq role "admin")) [
  | inl admin ↦ rw ((eq_iff role "admin").0 admin) refl
  | inr other ↦
      let member : str_eq role "member" ≡ true = rw other at h in
      rw ((eq_iff role "member").0 member) refl
]

-- A change between roles that are not the owner's.
set_role-WellFormed :
    (wid uid : ℕ) (role : String) (st : Store) (m : WorkspaceMember)
    → member_row wid uid st ≡ some m
    → str_eq m.role "owner" ≡ false
    → str_eq role "owner" ≡ false
    → WellFormed st
    → WellFormed (set_role wid uid role st)
set_role-WellFormed wid uid role st m f old new (one, unique, workspaces, members, invites) = (
  λ w k. ground (arith, one w k, owners_in-set_role wid uid w role st.members m unique f, old, new),
  Unique-update_rows (is_member wid uid) role st.members unique,
  workspaces,
  All-update_rows (λ (m : WorkspaceMember). m.workspace_id < st.next_id) (is_member wid uid)
      (with_role role) st.members (λ r k. k) members,
  invites,
)

module _ (wid tuid : ℕ) (role : String) (actor_id : Option ℕ) (actor_rank : ℕ) where
  change_role-Keeps :
      (found : Option WorkspaceMember) (st : Store)
      → member_row wid tuid st ≡ found
      → invitable role ≡ true
      → WellFormed st
      → Keeps (change_role wid tuid role actor_id actor_rank found st)
  unfolding change_role log_activity
  change_role-Keeps none st f i h = tt
  change_role-Keeps (some m) st f i h = elim (Bool-cases (leb actor_rank (role_rank m.role))) [
    | inl above ↦ rw above tt
    | inr below ↦ rw below (elim (Bool-cases (leb actor_rank (role_rank role))) [
      | inl above ↦ rw above tt
      | inr below ↦
          rw below (elim (Bool-cases (str_eq m.role "owner" && not (str_eq role "owner"))) [
            | inl owner ↦ rw owner tt
            | inr other ↦
                let new = weight_invitable role i in
                rw other (set_role-WellFormed wid tuid role st m f (ground (arith, new)) new h)
          ])
    ])
  ]

pub update_member_role-Keeps :
    (wid tuid : ℕ) (role : String) (actor_id : Option ℕ) (actor_role : String) (st : Store)
    → WellFormed st
    → Keeps (update_member_role wid tuid role actor_id actor_role st)
unfolding update_member_role
update_member_role-Keeps wid tuid role actor_id actor_role st h =
    elim (Bool-cases (invitable role)) [
      | inr bad ↦ rw bad tt
      | inl good ↦ rw good (elim (Bool-cases (ltb (role_rank actor_role) (role_rank "admin"))) [
        | inl weak ↦ rw weak tt
        | inr strong ↦ rw strong (
            change_role-Keeps wid tuid role actor_id (role_rank actor_role) (member_row wid tuid st)
              st refl good h)
      ])
    ]

module _ (wid cuid tuid : ℕ) (target actor : WorkspaceMember) (st : Store) where
  -- The owners of a workspace after the two writes of a transfer between two users.
  handed : List WorkspaceMember
  handed =
      update_rows (is_member wid cuid) (with_role "admin")
        (update_rows (is_member wid tuid) (with_role "owner") st.members)

  owners_in-handed :
      (w : ℕ)
      → (cuid == tuid) ≡ false
      → member_row wid tuid st ≡ some target
      → member_row wid cuid st ≡ some actor
      → str_eq actor.role "owner" ≡ true
      → Unique st.members
      → owners_in w st.members ≡ 1
      → owners_in w handed ≡ 1
  unfolding handed
  owners_in-handed w apart t a owner unique one =
      let given = update_rows (is_member wid tuid) (with_role "owner") st.members in
      let actor_row : find (is_member wid cuid) given ≡ some actor =
        (cc (find-update_rows wid cuid tuid "owner" st.members (ground (arith, apart)), a)) in
      let target_row : find (is_member wid tuid) handed ≡ some (with_role "owner" target) =
        (cc (
          find-update_rows wid tuid cuid "admin" given apart,
          find-update_rows_self wid tuid "owner" st.members target t,
        )) in
      ground (
        arith,
        owners_in-set_role wid tuid w "owner" st.members target unique t,
        owners_in-set_role wid cuid w "admin" given actor
            (Unique-update_rows (is_member wid tuid) "owner" st.members unique) actor_row,
        owners_in-find wid tuid handed (with_role "owner" target) target_row refl,
        owner,
        one,
      )

  hand_over_to-WellFormed :
      (cuid == tuid) ≡ false
      → member_row wid tuid st ≡ some target
      → member_row wid cuid st ≡ some actor
      → str_eq actor.role "owner" ≡ true
      → WellFormed st
      → WellFormed (set_role wid cuid "admin" (set_role wid tuid "owner" st))
  unfolding handed
  hand_over_to-WellFormed apart t a owner (one, unique, workspaces, members, invites) = (
    λ w k. owners_in-handed w apart t a owner unique (one w k),
    Unique-update_rows (is_member wid cuid) "admin" _
        (Unique-update_rows (is_member wid tuid) "owner" st.members unique),
    workspaces,
    All-update_rows (λ (m : WorkspaceMember). m.workspace_id < st.next_id) (is_member wid cuid)
        (with_role "admin") _ (λ r k. k)
        (All-update_rows (λ (m : WorkspaceMember). m.workspace_id < st.next_id) (is_member wid tuid)
          (with_role "owner") st.members (λ r k. k) members),
    invites,
  )

hand_over-Keeps :
    (wid cuid tuid : ℕ) (target actor : Option WorkspaceMember) (st : Store)
    → (cuid == tuid) ≡ false
    → member_row wid tuid st ≡ target
    → member_row wid cuid st ≡ actor
    → WellFormed st
    → Keeps (hand_over wid cuid tuid target actor st)
unfolding hand_over log_activity
hand_over-Keeps wid cuid tuid none actor st apart t a h = tt
hand_over-Keeps wid cuid tuid (some target) none st apart t a h = tt
hand_over-Keeps wid cuid tuid (some target) (some actor) st apart t a h =
    elim (Bool-cases (str_eq actor.role "owner")) [
      | inr other ↦ rw other tt
      | inl owner ↦
          rw owner (hand_over_to-WellFormed wid cuid tuid target actor st apart t a owner h)
    ]

transfer_to-Keeps :
    (wid : ℕ) (current target : Option ℕ) (st : Store)
    → current ≢ target
    → WellFormed st
    → Keeps (transfer_to wid current target st)
unfolding transfer_to
transfer_to-Keeps wid current none st apart h = tt
transfer_to-Keeps wid none (some tuid) st apart h = tt
transfer_to-Keeps wid (some cuid) (some tuid) st apart h = elim (Bool-cases (cuid == tuid)) [
  | inl same ↦ absurd (apart (ap some ((==_iff cuid tuid).0 same)))
  | inr other ↦
      hand_over-Keeps wid cuid tuid (member_row wid tuid st) (member_row wid cuid st) st other refl
        refl h
]

pub transfer_ownership-Keeps :
    (to_uuid : String → Option ℕ) (wid : ℕ) (current target : String) (st : Store)
    → IsApart to_uuid (transfer wid current target)
    → WellFormed st
    → Keeps (transfer_ownership to_uuid wid current target st)
unfolding transfer_ownership
transfer_ownership-Keeps to_uuid wid current target st apart h =
    elim (Bool-cases (str_eq current target)) [
      | inl same ↦ rw same tt
      | inr different ↦ rw different (elim apart [
        | inl same ↦ absurd (cc (same, different))
        | inr users ↦ transfer_to-Keeps wid (to_uuid current) (to_uuid target) st users h
      ])
    ]
