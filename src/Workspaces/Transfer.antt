-- ===== src/Workspaces/Transfer.antt =====
-- `transfer_ownership` of backend/app/controllers/workspaces.py when the target is the caller under
-- another spelling of its identifier.
use bolodb.Prelude.{ℕ, ◌≡◌, refl, true, false, List, Option, some, arith, String, str_eq, ok}
use bolodb.Prelude.Rows.{find, update_rows}
use bolodb.Guard.{WorkspaceMember, is_member}
use bolodb.Workspaces.{Store, owners_count, member_row, log_activity}
use bolodb.Workspaces.Members.{with_role, set_role, hand_over, transfer_to, transfer_ownership}
use bolodb.Workspaces.Owners.{owners_in, Unique}
use bolodb.Workspaces.Owners.Counts.{owners_in-set_role, find-update_rows_self}
use bolodb.Workspaces.Owners.Rows.{Unique-update_rows}

-- The caller's row is given the owner's role, and then the admin's.
owners_in-handed_self :
    (wid uid : ℕ) (rows : List WorkspaceMember) (actor : WorkspaceMember)
    → find (is_member wid uid) rows ≡ some actor
    → str_eq actor.role "owner" ≡ true
    → Unique rows
    → owners_in wid rows ≡ 1
    → owners_in wid (
        update_rows
          (is_member wid uid)
          (with_role "admin")
          (update_rows (is_member wid uid) (with_role "owner") rows))
      ≡ 0
owners_in-handed_self wid uid rows actor f owner unique one =
    let given = update_rows (is_member wid uid) (with_role "owner") rows in
    ground (
      arith,
      owners_in-set_role wid uid wid "owner" rows actor unique f,
      owners_in-set_role wid uid wid "admin" given (with_role "owner" actor)
          (Unique-update_rows (is_member wid uid) "owner" rows unique)
          (find-update_rows_self wid uid "owner" rows actor f),
      owner,
      one,
    )

-- Where the target is the caller's own identifier in another spelling, and the caller is the only
-- owner, the transfer succeeds and leaves the workspace without an owner; no user has two rows of a
-- workspace.
pub transfer_ownership-owners_count :
    (to_uuid : String → Option ℕ) (wid uid : ℕ) (current target : String) (st : Store)
    (actor : WorkspaceMember)
    → str_eq current target ≡ false
    → to_uuid current ≡ some uid
    → to_uuid target ≡ some uid
    → member_row wid uid st ≡ some actor
    → str_eq actor.role "owner" ≡ true
    → Unique st.members
    → owners_count wid st ≡ 1
    → (later : Store) × (transfer_ownership to_uuid wid current target st ≡ ok later)
      × (owners_count wid later ≡ 0)
unfolding transfer_ownership transfer_to hand_over log_activity owners_count
transfer_ownership-owners_count to_uuid wid uid current target st actor spelled c t f owner unique
      one =
    (
      log_activity wid (some uid) "member.ownership_transferred" uid
          (set_role wid uid "admin" (set_role wid uid "owner" st)),
      rw (spelled, t, c, f, owner) refl,
      owners_in-handed_self wid uid st.members actor f owner unique one,
    )
