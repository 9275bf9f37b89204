-- ===== src/Workspaces/Bulk.antt =====
-- `bulk_invite` of backend/app/controllers/workspaces.py. The reading of an address is the validating
-- package's and stands as a parameter; the workers run in the order of the addresses.
use bolodb.Prelude.{
  ℕ, Bool, false, not, ◌||◌, List, [], ◌∷◌, Option, none, some, String, is_empty, if◌then◌else◌,
  Result, ok, err,
}
use bolodb.Text.{Text, eq_text, strip, lower}
use bolodb.Datetime.{Datetime}
use bolodb.Workspaces.{Refusal, already_a_member, invalid_role, invitable, Store}
use bolodb.Workspaces.Invites.{invite_user}

pub data Status : Type 0 where
  invited duplicate invalid member_already failed : Status

pub record Outcome : Type 0 where
  pub email : Text
  pub status : Status

unfoldable pub mem_address : Text → List Text → Bool
mem_address email [] = false
mem_address email (t ∷ seen) = eq_text t email || mem_address email seen

-- The status of a refusal, by its detail.
abbrev pub status_of : Refusal → Status
status_of already_a_member = member_already
status_of _ = failed

abbrev pub worked : Text → Result Refusal Store → Store → Outcome × Store
worked email (ok later) st = (record { email = email; status = invited }, later)
worked email (err refused) st = (record { email = email; status = status_of refused }, st)

abbrev lowered : Option Text → Option Text
lowered none = none
lowered (some address) = some (lower address)

-- `_normalize_email`; `validate` is the validating package's reading of an address.
unfoldable pub normalize_email : (Text → Option Text) → Text → Option Text
normalize_email validate raw =
    if is_empty (lower (strip raw)) then none else lowered (validate (lower (strip raw)))

-- One address: read, looked up among those seen, and invited. `token` is the code generated for it.
module _ (validate : Text → Option Text) (now : Datetime) (wid : ℕ) (role : String) (uid : ℕ) where
  unfoldable pub one_address :
      Text → Text → Option Text → List Text → Store → Outcome × List Text × Store
  one_address token raw none seen st = (record { email = strip raw; status = invalid }, seen, st)
  one_address token raw (some email) seen st =
      if mem_address email seen
      then (record { email = email; status = duplicate }, seen, st)
      else let (outcome, later) =
          worked email (invite_user now token wid email (some role) uid st) st in
        (outcome, email ∷ seen, later)

  -- The addresses, each with the code that would be generated for it.
  unfoldable pub each_address : List (Text × Text) → List Text → Store → List Outcome × Store
  each_address [] seen st = ([], st)
  each_address ((raw, token) ∷ rest) seen st =
      let (outcome, now_seen, later) =
        one_address token raw (normalize_email validate raw) seen st in
      let (outcomes, last) = each_address rest now_seen later in (outcome ∷ outcomes, last)

  -- `bulk_invite`
  unfoldable pub bulk_invite : List (Text × Text) → Store → Result Refusal (List Outcome × Store)
  bulk_invite addresses st =
      if not (invitable role) then err invalid_role else ok (each_address addresses [] st)
