-- ===== src/Scheduler/Passes.antt =====
-- "Never send twice": what a pass of the scheduler starts is never claimed again.
use bolodb.Prelude.{
  ◌≡◌, refl, true, List, [], ◌∷◌, ◌++◌, Option, none, some, arith, All, inl, inr, Bool-cases,
  Result, ok, err, ◌>>=◌,
}
use bolodb.Datetime.{Datetime, before, at_most, as_utc}
use bolodb.Cron.Error.{CronError}
use bolodb.Cron.Window.{cursor_of}
use bolodb.Cron.Window.First.{OnMinute, next_run_first}
use bolodb.Schedules.{Schedule, Tables, is_due}
use bolodb.Schedules.Claims.{wins_past}
use bolodb.Schedules.Processes.{past, Distinct, Op, Advances, wins}
use bolodb.Scheduler.Run.{Reach, World, try_record}
use bolodb.Scheduler.Tick.{
  Settings, aware, aware_of, try_claim, retire, too_late, missed_row, take_slot, take_upcoming,
  take_row, and_rest, upcoming_of, claim_due,
}
use bolodb.Scheduler.Settled.{
  Settled, Carries, Carries-refl, Carries-trans, try_claim-Carries, retire-Carries,
  try_record-Carries, won-SettledAt,
}

-- The next occurrence of a due row leaves its slot behind.
upcoming_past :
    (moment : Datetime) (s : Schedule) (slot : Datetime) (upcoming : Option Datetime)
    → OnMinute (aware_of s.starts_at)
    → at_most slot moment ≡ true
    → upcoming_of moment s ≡ ok upcoming
    → past slot upcoming ≡ true
unfolding at_most before cursor_of as_utc
upcoming_past moment s slot none whole due e = refl
upcoming_past moment s slot (some r) whole due e =
    let (schedule, parsed, aligned, later, since, until, fires, first) =
      next_run_first s.cron moment (some (aware moment)) (aware_of s.starts_at) (aware_of s.ends_at)
        r whole e in
    ground arith

-- A row that is started is settled.
take_slot-Settled :
    (reach : Reach) (settings : Settings) (moment : Datetime) (s : Schedule) (slot : Datetime)
    (upcoming : Option Datetime) (w : World)
    → s.next_run_at ≡ some slot
    → past slot upcoming ≡ true
    → Distinct w.tables.schedules
    → let (w', started) = take_slot reach settings moment s slot upcoming w in
      Carries w.tables w'.tables × All (Settled w'.tables) started
unfolding take_slot
take_slot-Settled reach settings moment s slot upcoming w here adv d =
    let claimed = try_claim reach s.id slot upcoming moment w.tables in
    let w' : World = record w { tables = claimed.0 } in
    let w'' = retire reach s upcoming w' in
    let first = try_claim-Carries reach s.id slot upcoming moment w.tables adv in
    let second =
      Carries-trans w.tables w'.tables w''.tables first (retire-Carries reach s upcoming w') in
    elim (Bool-cases claimed.1) [
      | inr lost ↦ rw lost (first, tt)
      | inl won ↦ elim (Bool-cases (too_late settings.grace_seconds slot moment)) [
        | inl late ↦
            rw (won, late)
              (
                Carries-trans w.tables w''.tables
                    (try_record reach (missed_row s slot moment) w'').tables second
                    (try_record-Carries reach (missed_row s slot moment) w''),
                tt,
              )
        | inr on_time ↦
            rw (won, on_time)
              (
                second,
                (
                  (retire-Carries reach s upcoming w').0 s
                      (rw here (won-SettledAt reach s.id slot upcoming moment w.tables adv d won)),
                  tt,
                ),
              )
      ]
    ]

-- What the pass is given: rows that are due, each with a start on a whole minute.
abbrev pub IsReady : Datetime → Schedule → Type 0
IsReady moment s = (is_due moment s ≡ true) × OnMinute (aware_of s.starts_at)

abbrev AllSettled : Tables → Result CronError (List Schedule) → Type 0
AllSettled t (err e) = Unit
AllSettled t (ok started) = All (Settled t) started

All-++ :
    (t t' : Tables) (a : List Schedule) (rest : Result CronError (List Schedule))
    → Carries t t'
    → All (Settled t) a
    → AllSettled t' rest
    → AllSettled t' (rest >>= λ others. ok (a ++ others))
All-++ t t' a (err e) c h k = tt
All-++ t t' [] (ok l) c h k = k
All-++ t t' (s ∷ a) (ok l) c h k = (c.0 s h.0, All-++ t t' a (ok l) c h.1 k)

due_at_most :
    (moment : Datetime) (s : Schedule) (slot : Datetime)
    → s.next_run_at ≡ some slot
    → is_due moment s ≡ true
    → at_most slot moment ≡ true
due_at_most moment s slot here due = let e = rw here at due in ground arith

abbrev Sound : World → World × Result CronError (List Schedule) → Type 0
Sound w (w', started) = Carries w.tables w'.tables × AllSettled w'.tables started

take_upcoming-Sound :
    (reach : Reach) (settings : Settings) (moment : Datetime) (s : Schedule) (slot : Datetime)
    (r : Result CronError (Option Datetime)) (w : World)
    → s.next_run_at ≡ some slot
    → IsReady moment s
    → upcoming_of moment s ≡ r
    → Distinct w.tables.schedules
    → Sound w (take_upcoming reach settings moment s slot r w)
unfolding take_upcoming
take_upcoming-Sound reach settings moment s slot (err e) w here ready eq d =
    (Carries-refl w.tables, tt)
take_upcoming-Sound reach settings moment s slot (ok upcoming) w here ready eq d =
    take_slot-Settled reach settings moment s slot upcoming w here
      (upcoming_past moment s slot upcoming ready.1 (due_at_most moment s slot here ready.0) eq) d

take_row-Sound :
    (reach : Reach) (settings : Settings) (moment : Datetime) (s : Schedule)
    (next : Option Datetime) (w : World)
    → s.next_run_at ≡ next
    → IsReady moment s
    → Distinct w.tables.schedules
    → Sound w (take_row reach settings moment s next w)
unfolding take_row
take_row-Sound reach settings moment s none w here ready d = (Carries-refl w.tables, tt)
take_row-Sound reach settings moment s (some slot) w here ready d =
    take_upcoming-Sound reach settings moment s slot (upcoming_of moment s) w here ready refl d

and_rest-Sound :
    (w : World) (taken rest : World × Result CronError (List Schedule))
    → Sound w taken
    → Sound taken.0 rest
    → Sound w (and_rest taken rest)
and_rest-Sound w (w', err e) rest h k = (h.0, tt)
and_rest-Sound w (w', ok started) (w'', rest) h k = (
  Carries-trans w.tables w'.tables w''.tables h.0 k.0,
  All-++ w'.tables w''.tables started rest k.0 h.1 k.1,
)

claim_due-Sound :
    (reach : Reach) (settings : Settings) (moment : Datetime) (due : List Schedule) (w : World)
    → All (IsReady moment) due
    → Distinct w.tables.schedules
    → Sound w (claim_due reach settings moment due w)
unfolding claim_due
claim_due-Sound reach settings moment [] w ready d = (Carries-refl w.tables, tt)
claim_due-Sound reach settings moment (s ∷ due) w ready d =
    let taken = take_row reach settings moment s s.next_run_at w in
    let h = take_row-Sound reach settings moment s s.next_run_at w refl ready.0 d in
    and_rest-Sound w taken (claim_due reach settings moment due taken.0) h
      (claim_due-Sound reach settings moment due taken.0 ready.1 (h.0.1 d))

-- The slot that the row had is not won by any of the operations.
abbrev pub NeverWon : List Op → Tables → Schedule → Type 0
NeverWon ops t s = (slot : Datetime) → s.next_run_at ≡ some slot → wins s.id slot ops t ≡ 0

Settled-NeverWon :
    (ops : List Op) (t : Tables) (s : Schedule) → All Advances ops → Settled t s → NeverWon ops t s
Settled-NeverWon ops t s adv h slot here = wins_past s.id slot ops t adv (rw here at h)

All-NeverWon :
    (ops : List Op) (t : Tables) (started : List Schedule)
    → All Advances ops
    → All (Settled t) started
    → All (NeverWon ops t) started
All-NeverWon ops t [] adv h = tt
All-NeverWon ops t (s ∷ started) adv h =
    (Settled-NeverWon ops t s adv h.0, All-NeverWon ops t started adv h.1)

-- What one pass of `tick` over the due rows starts is never claimed for the same slot again, whatever
-- further claims, write-backs and records any process makes afterwards, as long as each claim moves
-- its slot on; the rows are due, their starts are on whole minutes, and identifiers are distinct.
pub claim_due-NeverWon :
    (reach : Reach) (settings : Settings) (moment : Datetime) (due started : List Schedule)
    (w : World) (ops : List Op)
    → All (IsReady moment) due
    → Distinct w.tables.schedules
    → (claim_due reach settings moment due w).1 ≡ ok started
    → All Advances ops
    → All (NeverWon ops (claim_due reach settings moment due w).0.tables) started
claim_due-NeverWon reach settings moment due started w ops ready d e adv =
    let sound = claim_due-Sound reach settings moment due w ready d in
    All-NeverWon ops (claim_due reach settings moment due w).0.tables started adv (rw e at sound.1)
