-- ===== src/Scheduler/Settled.antt =====
-- What the steps of a tick (backend/app/services/scheduler.py) leave alone: slots that are past stay past.
use bolodb.Prelude.{
  ℕ, ◌≡◌, true, false, Option, none, some, arith, All, inl, inr, Bool-cases, get_or,
}
use bolodb.Datetime.{Datetime}
use bolodb.Schedules.{Schedule, ScheduleRun, Tables, success}
use bolodb.Schedules.Claims.{IsPast, perform_keeps, perform_wins, perform-Distinct}
use bolodb.Schedules.Processes.{past, Distinct, Op, claim, finish, record_one, perform, Advances}
use bolodb.Scheduler.Run.{Reach, World, try_record, try_finish}
use bolodb.Scheduler.Tick.{try_claim, retire}

-- The slot is past on the rows of a schedule.
abbrev pub SettledAt : Tables → ℕ → Option Datetime → Type 0
SettledAt t id none = Unit
SettledAt t id (some slot) = All (IsPast id slot) t.schedules

abbrev pub Settled : Tables → Schedule → Type 0
Settled t s = SettledAt t s.id s.next_run_at

-- The tables go on without losing what is settled.
abbrev pub Carries : Tables → Tables → Type 0
Carries t t' =
    ((s : Schedule) → Settled t s → Settled t' s) × (Distinct t.schedules → Distinct t'.schedules)

pub perform-SettledAt :
    (op : Op) (t : Tables) (id : ℕ) (next : Option Datetime)
    → Advances op
    → SettledAt t id next
    → SettledAt (perform op t).0 id next
perform-SettledAt op t id none adv h = tt
perform-SettledAt op t id (some slot) adv h = perform_keeps id slot op t adv h

pub perform-Settled :
    (op : Op) (t : Tables) (s : Schedule) → Advances op → Settled t s → Settled (perform op t).0 s
perform-Settled op t s adv = perform-SettledAt op t s.id s.next_run_at adv

pub perform-Carries : (op : Op) (t : Tables) → Advances op → Carries t (perform op t).0
perform-Carries op t adv = (λ s h. perform-Settled op t s adv h, perform-Distinct op t)

pub Carries-refl : (t : Tables) → Carries t t
Carries-refl t = (λ s h. h, λ d. d)

pub Carries-trans : (t t' t'' : Tables) → Carries t t' → Carries t' t'' → Carries t t''
Carries-trans t t' t'' a b = (λ s h. b.0 s (a.0 s h), λ d. b.1 (a.1 d))

pub try_claim-Carries :
    (reach : Reach) (id : ℕ) (slot : Datetime) (upcoming : Option Datetime) (moment : Datetime)
    (t : Tables)
    → past slot upcoming ≡ true
    → Carries t (try_claim reach id slot upcoming moment t).0
unfolding try_claim perform
try_claim-Carries reach id slot upcoming moment t adv = elim (Bool-cases (reach.claims id)) [
  | inl up ↦ rw up (perform-Carries (claim id slot upcoming moment) t adv)
  | inr down ↦ rw down (Carries-refl t)
]

pub retire-Carries :
    (reach : Reach) (s : Schedule) (upcoming : Option Datetime) (w : World)
    → Carries w.tables (retire reach s upcoming w).tables
unfolding retire try_finish perform
retire-Carries reach s (some upcoming) w = Carries-refl w.tables
retire-Carries reach s none w = elim (Bool-cases (reach.finishes s.id)) [
  | inl up ↦ rw up (
      perform-Carries
        (finish s.id (get_or s.last_status success) s.consecutive_failures (some false)) w.tables
        tt)
  | inr down ↦ rw down (Carries-refl w.tables)
]

pub try_record-Carries :
    (reach : Reach) (r : ScheduleRun) (w : World) → Carries w.tables (try_record reach r w).tables
unfolding try_record perform
try_record-Carries reach r w = elim (Bool-cases (reach.records r.schedule_id)) [
  | inl up ↦ rw up (perform-Carries (record_one r) w.tables tt)
  | inr down ↦ rw down (Carries-refl w.tables)
]

pub won-SettledAt :
    (reach : Reach) (id : ℕ) (slot : Datetime) (upcoming : Option Datetime) (moment : Datetime)
    (t : Tables)
    → past slot upcoming ≡ true
    → Distinct t.schedules
    → (try_claim reach id slot upcoming moment t).1 ≡ true
    → SettledAt (try_claim reach id slot upcoming moment t).0 id (some slot)
unfolding try_claim perform
won-SettledAt reach id slot upcoming moment t adv d won = elim (Bool-cases (reach.claims id)) [
  | inl up ↦
      let won' : (perform (claim id slot upcoming moment) t).1 ≡ true = rw up at won in
      rw up (perform_wins id slot (claim id slot upcoming moment) t adv d (ground arith))
  | inr down ↦ absurd (cc (rw down at won))
]
