-- ===== src/Guard/Access.antt =====
-- What a request that passes a guard has shown.
use bolodb.Prelude.{
  ℕ, ◌≡◌, refl, ap, sym, Bool, true, false, not, if◌then◌else◌, ◌&&◌, ◌||◌, Option, none, some,
  arith, ltb, ◌==◌, ==_iff, String, str_eq, eq_iff, inl, inr, Bool-cases, ok, err, >>=-eq-ok,
  get_or, subst,
}
use bolodb.Prelude.Rows.{find, find-holds}
use bolodb.Permissions.{has_permission}
use bolodb.Guard.{
  insufficient, Claims, Decoded, expired_signature, invalid_signature, signed, WorkspaceMember,
  User, WorkspaceSettings, Backend, user_of, token_version_is_current, is_kind, check_token,
  get_current_user, is_member, or_not_member, member_of, get_current_workspace, rank_of,
  require_role, overrides_of, workspace_has_permission, require_permission, same_version,
  version_of,
}

-- The cookie is a signed access token of a user whose version has not moved on.
abbrev pub IsSession : Backend → Option String → Claims → Type 0
IsSession b access_token c =
    (token : String) × (uid : ℕ) × (u : User) × (access_token ≡ some token)
    × (b.decode token ≡ signed c)
    × (c.typ ≡ some "access")
    × (user_of b c ≡ some uid)
    × (find (λ (u : User). u.id == uid) b.users ≡ some u)
    × (u.token_version ≡ get_or c.ver 0)

-- The row makes the session's user a member of the workspace in the header.
abbrev pub IsMember : Backend → Option String → Option String → WorkspaceMember → Type 0
IsMember b x_workspace_id access_token m =
    (c : Claims) × (header : String) × (wid : ℕ) × (uid : ℕ) × IsSession b access_token c
    × (x_workspace_id ≡ some header)
    × (b.to_uuid header ≡ some wid)
    × (user_of b c ≡ some uid)
    × (m.workspace_id ≡ wid)
    × (m.user_id ≡ uid)
    × (find (is_member wid uid) b.members ≡ some m)

typ_lem :
    (typ : Option String) (kind : String)
    → elim typ [ none ↦ false | some t ↦ str_eq t kind ] ≡ true
    → typ ≡ some kind
typ_lem none kind e = absurd (cc e)
typ_lem (some t) kind e = ap some ((eq_iff t kind).0 e)

same_version_lem :
    (c : Claims) (found : Option User)
    → same_version c found ≡ true
    → (u : User) × (found ≡ some u) × (u.token_version ≡ get_or c.ver 0)
same_version_lem c none e = absurd (cc e)
same_version_lem c (some u) e = (u, refl, cc ((==_iff (get_or c.ver 0) u.token_version).0 e))

pub version_of_lem :
    (b : Backend) (c : Claims) (subject : Option ℕ)
    → version_of b c subject ≡ true
    → (uid : ℕ) × (u : User) × (subject ≡ some uid)
      × (find (λ (v : User). v.id == uid) b.users ≡ some u)
      × (u.token_version ≡ get_or c.ver 0)
version_of_lem b c none e = absurd (cc e)
version_of_lem b c (some uid) e =
    let (u, here, current) = same_version_lem c (find (λ (v : User). v.id == uid) b.users) e in
    (uid, u, refl, here, current)

check_token_lem :
    (b : Backend) (d : Decoded) (c : Claims)
    → check_token b d ≡ ok c
    → (d ≡ signed c) × (is_kind c "access" ≡ true) × (token_version_is_current b c ≡ true)
unfolding check_token
check_token_lem b expired_signature c e = absurd (cc e)
check_token_lem b invalid_signature c e = absurd (cc e)
check_token_lem b (signed claims) c e =
    elim (Bool-cases (is_kind claims "access" && token_version_is_current b claims)) [
      | inl good ↦
          let same : claims ≡ c = cc (rw good at e) in
          (
            ap signed same,
            subst (λ (k : Claims). is_kind k "access" ≡ true) same (ground arith),
            subst (λ (k : Claims). token_version_is_current b k ≡ true) same (ground arith),
          )
      | inr bad ↦ absurd (cc (rw bad at e))
    ]

get_current_user-IsSession :
    (b : Backend) (access_token : Option String) (c : Claims)
    → get_current_user b access_token ≡ ok c
    → IsSession b access_token c
unfolding get_current_user token_version_is_current
get_current_user-IsSession b none c e = absurd (cc e)
get_current_user-IsSession b (some token) c e =
    let (decoded, access, current) = check_token_lem b (b.decode token) c e in
    let (uid, u, subject, here, version) = version_of_lem b c (user_of b c) current in
    (token, uid, u, refl, decoded, typ_lem c.typ "access" access, subject, here, version)

or_not_member_lem :
    (o : Option WorkspaceMember) (m : WorkspaceMember) → or_not_member o ≡ ok m → o ≡ some m
or_not_member_lem none m e = absurd (cc e)
or_not_member_lem (some r) m e = let same : r ≡ m = cc e in ap some same

member_of_lem :
    (b : Backend) (w u : Option ℕ) (m : WorkspaceMember)
    → member_of b w u ≡ ok m
    → (wid : ℕ) × (uid : ℕ) × (w ≡ some wid)
      × (u ≡ some uid)
      × (m.workspace_id ≡ wid)
      × (m.user_id ≡ uid)
      × (find (is_member wid uid) b.members ≡ some m)
unfolding member_of
member_of_lem b none u m e = absurd (cc e)
member_of_lem b (some wid) none m e = absurd (cc e)
member_of_lem b (some wid) (some uid) m e =
    let here = or_not_member_lem (find (is_member wid uid) b.members) m e in
    let both = find-holds (is_member wid uid) b.members m here in
    (wid, uid, refl, refl, ground arith, ground arith, here)

get_current_workspace-IsMember :
    (b : Backend) (x_workspace_id access_token : Option String) (m : WorkspaceMember)
    → get_current_workspace b x_workspace_id access_token ≡ ok m
    → IsMember b x_workspace_id access_token m
unfolding get_current_workspace
get_current_workspace-IsMember b none access_token m e =
    let (c, session, failed) = >>=-eq-ok (get_current_user b access_token) _ e in absurd (cc failed)
get_current_workspace-IsMember b (some header) access_token m e =
    let (c, session, rest) = >>=-eq-ok (get_current_user b access_token) _ e in
    elim (Bool-cases (str_eq header "")) [
      | inl blank ↦ absurd (cc (rw blank at rest))
      | inr given ↦
          let (wid, uid, workspace, user, same_workspace, same_user, here) =
            member_of_lem b (b.to_uuid header) (user_of b c) m (rw given at rest) in
          (
            c,
            header,
            wid,
            uid,
            get_current_user-IsSession b access_token c session,
            refl,
            workspace,
            user,
            same_workspace,
            same_user,
            here,
          )
    ]

-- A request that passes `require_permission` carries a signed access token of a user whose token
-- version is the current one, and a readable header of a workspace in which the row returned makes
-- that user a member; and the member is an owner, or has the permission under the overrides of the
-- workspace.
pub require_permission-IsMember :
    (b : Backend) (permission_key : String) (x_workspace_id access_token : Option String)
    (m : WorkspaceMember)
    → require_permission b permission_key x_workspace_id access_token ≡ ok m
    → IsMember b x_workspace_id access_token m
      × ((str_eq m.role "owner"
            || has_permission m.role
                (overrides_of (
                  find
                    (λ (s : WorkspaceSettings). s.workspace_id == m.workspace_id)
                    b.workspace_settings))
                (some permission_key))
          ≡ true)
unfolding require_permission workspace_has_permission
require_permission-IsMember b permission_key x_workspace_id access_token m e =
    let (w, member, rest) = >>=-eq-ok (get_current_workspace b x_workspace_id access_token) _ e in
    elim (Bool-cases (workspace_has_permission b w permission_key)) [
      | inr refused ↦ absurd (cc (rw refused at rest))
      | inl granted ↦
          let same : w ≡ m = cc (rw granted at rest) in
          let granted' : workspace_has_permission b m permission_key ≡ true =
            subst (λ (v : WorkspaceMember). workspace_has_permission b v permission_key ≡ true) same
              granted in
          (
            get_current_workspace-IsMember b x_workspace_id access_token m (cc (member, same)),
            ground arith,
          )
    ]

-- Who may enter where a role is the minimum: the owner everywhere, an admin except where an owner is
-- required, a member where neither is, and nobody else.
abbrev pub may_enter : String → String → Bool
may_enter minimum_role role =
    str_eq role "owner"
    || (str_eq role "admin" && not (str_eq minimum_role "owner"))
    || (str_eq role "member" && not (str_eq minimum_role "owner" || str_eq minimum_role "admin"))

-- A text is one literal only.
is_other : (t a b : String) → str_eq a b ≡ false → str_eq t a ≡ true → str_eq t b ≡ false
is_other t a b h e = subst (λ (k : String). str_eq k b ≡ false) (sym ((eq_iff t a).0 e)) h

may_enter_lem :
    (minimum_role role : String)
    → ltb (rank_of 0 role) (rank_of 1 minimum_role) ≡ not (may_enter minimum_role role)
may_enter_lem minimum_role role = ground (
  arith,
  is_other role "owner" "admin" refl,
  is_other role "owner" "member" refl,
  is_other role "admin" "member" refl,
  is_other minimum_role "owner" "admin" refl,
  is_other minimum_role "owner" "member" refl,
  is_other minimum_role "admin" "member" refl,
)

-- A request that passes `require_role` carries a signed access token of a user whose token version is
-- the current one, and a readable header of a workspace in which the row returned makes that user a
-- member; and the same request with any minimum passes exactly when the member is an owner, or an
-- admin and no owner is required, or a plain member and neither is.
pub require_role-IsMember :
    (b : Backend) (minimum_role : String) (x_workspace_id access_token : Option String)
    (m : WorkspaceMember)
    → require_role b minimum_role x_workspace_id access_token ≡ ok m
    → IsMember b x_workspace_id access_token m
      × (may_enter minimum_role m.role ≡ true)
      × ((other_role : String)
          → require_role b other_role x_workspace_id access_token
            ≡ (if may_enter other_role m.role then ok m else err insufficient))
unfolding require_role
require_role-IsMember b minimum_role x_workspace_id access_token m e =
    let (w, member, rest) = >>=-eq-ok (get_current_workspace b x_workspace_id access_token) _ e in
    elim (Bool-cases (may_enter minimum_role w.role)) [
      | inr below ↦ absurd (cc (rw below at (rw (may_enter_lem minimum_role w.role) at rest)))
      | inl enough ↦
          let same : w ≡ m = cc (rw enough at (rw (may_enter_lem minimum_role w.role) at rest)) in
          let here : get_current_workspace b x_workspace_id access_token ≡ ok m =
            cc (member, same) in
          (
            get_current_workspace-IsMember b x_workspace_id access_token m here,
            subst (λ (v : WorkspaceMember). may_enter minimum_role v.role ≡ true) same enough,
            λ other_role. rw here (decided other_role),
          )
    ]
  where
    decided :
        (other_role : String)
        → (if ltb (rank_of 0 m.role) (rank_of 1 other_role) then err insufficient else ok m)
          ≡ (if may_enter other_role m.role then ok m else err insufficient)
    decided other_role =
        rw (may_enter_lem other_role m.role) (elim (Bool-cases (may_enter other_role m.role)) [
          | inl yes_enter ↦ rw yes_enter refl
          | inr refused ↦ rw refused refl
        ])
