-- ===== src/Schedules/Processes.antt =====
-- What scheduler processes do to the tables of backend/app/pgdatabase/schedules.py.
use bolodb.Prelude.{
  ℕ, ◌+◌, ◌≡◌, Bool, true, false, ◌&&◌, List, [], ◌∷◌, Option, none, some, ◌==◌, All, if◌then◌else◌,
}
use bolodb.Datetime.{Datetime, before}
use bolodb.Schedules.{
  Status, Schedule, ScheduleRun, Tables, same_moment, has_id, claim_schedule, finish_schedule_run,
  record_run,
}

-- The slot has been left behind: there is none, or it is later.
abbrev pub past : Datetime → Option Datetime → Bool
past slot none = true
past slot (some next) = before slot next

-- No two rows have one identifier.
abbrev pub Distinct : List Schedule → Type 0
Distinct [] = Unit
Distinct (s ∷ rows) = All (λ r. has_id s.id r ≡ false) rows × Distinct rows

-- What any number of scheduler processes do to the tables, one transaction after the other.
pub data Op : Type 0 where
  claim : ℕ → Datetime → Option Datetime → Datetime → Op
  finish : ℕ → Status → ℕ → Option Bool → Op
  record_one : ScheduleRun → Op

unfoldable pub perform : Op → Tables → Tables × Bool
perform (claim id slot upcoming moment) t = claim_schedule id (some slot) upcoming moment t
perform (finish id status failures is_active) t = finish_schedule_run id status failures is_active t
perform (record_one r) t = (record_run r t, true)

-- A claim moves the slot on.
abbrev pub Advances : Op → Type 0
Advances (claim id slot upcoming moment) = past slot upcoming ≡ true
Advances _ = Unit

abbrev pub claims_slot : ℕ → Datetime → Op → Bool
claims_slot id slot (claim i s upcoming moment) = i == id && same_moment s slot
claims_slot id slot (finish i status failures is_active) = false
claims_slot id slot (record_one r) = false

-- How many of the operations win the slot.
unfoldable pub wins : ℕ → Datetime → List Op → Tables → ℕ
wins id slot [] t = 0
wins id slot (op ∷ ops) t =
    let (t', won) = perform op t in
    (if won && claims_slot id slot op then 1 else 0) + wins id slot ops t'
