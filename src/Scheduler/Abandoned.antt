-- ===== src/Scheduler/Abandoned.antt =====
-- A due row whose expression does not parse, in `tick` of backend/app/services/scheduler.py.
use bolodb.Prelude.{
  ℕ, ◌≡◌, refl, sym, subst, Bool, false, List, [], ◌∷◌, ◌++◌, Option, none, some, arith, inl, inr,
  Bool-cases, Result, ok, err,
}
use bolodb.Datetime.{Datetime}
use bolodb.Cron.Error.{CronError}
use bolodb.Schedules.{Schedule, ScheduleRun, Status, list_due_schedules}
use bolodb.Scheduler.Delivery.{App}
use bolodb.Scheduler.Run.{Alert, Ending, Reach, World, try_finish, try_record}
use bolodb.Scheduler.Tick.{
  Settings, due_batch_size, try_claim, retire, too_late, missed_row, take_slot, take_upcoming,
  take_row, upcoming_of, and_rest, claim_due, after_pass, tick,
}

-- What has been sent.
abbrev pub Unsent : World → World → Type 0
Unsent w w' = (w'.mails ≡ w.mails) × (w'.alerts ≡ w.alerts)

try_finish-Unsent :
    (reach : Reach) (id : ℕ) (status : Status) (failures : ℕ) (active : Option Bool) (w : World)
    → Unsent w (try_finish reach id status failures active w)
unfolding try_finish
try_finish-Unsent reach id status failures active w = (ground arith, ground arith)

try_record-Unsent : (reach : Reach) (r : ScheduleRun) (w : World) → Unsent w (try_record reach r w)
unfolding try_record
try_record-Unsent reach r w = (ground arith, ground arith)

retire-Unsent :
    (reach : Reach) (s : Schedule) (upcoming : Option Datetime) (w : World)
    → Unsent w (retire reach s upcoming w)
unfolding retire
retire-Unsent reach s none w = try_finish-Unsent reach s.id _ s.consecutive_failures (some false) w
retire-Unsent reach s (some upcoming) w = (refl, refl)

module _ (reach : Reach) (settings : Settings) (moment : Datetime) where
  take_slot-Unsent :
      (s : Schedule) (slot : Datetime) (upcoming : Option Datetime) (w : World)
      → Unsent w (take_slot reach settings moment s slot upcoming w).0
  unfolding take_slot
  take_slot-Unsent s slot upcoming w =
      let claimed = try_claim reach s.id slot upcoming moment w.tables in
      let w' : World = record w { tables = claimed.0 } in
      let w'' = retire reach s upcoming w' in
      let retired = retire-Unsent reach s upcoming w' in
      elim (Bool-cases claimed.1) [
        | inr lost ↦ rw lost (refl, refl)
        | inl won ↦ elim (Bool-cases (too_late settings.grace_seconds slot moment)) [
          | inl late ↦
              let recorded = try_record-Unsent reach (missed_row s slot moment) w'' in
              rw (won, late) (cc (recorded.0, retired.0), cc (recorded.1, retired.1))
          | inr on_time ↦ rw (won, on_time) retired
        ]
      ]

  take_row-Unsent :
      (s : Schedule) (next : Option Datetime) (w : World)
      → Unsent w (take_row reach settings moment s next w).0
  unfolding take_row take_upcoming
  take_row-Unsent s none w = (refl, refl)
  take_row-Unsent s (some slot) w = upcoming_known (upcoming_of moment s)
    where
      upcoming_known :
          (r : Result CronError (Option Datetime))
          → Unsent w (take_upcoming reach settings moment s slot r w).0
      upcoming_known (err e) = (refl, refl)
      upcoming_known (ok upcoming) = take_slot-Unsent s slot upcoming w

  and_rest-Unsent :
      (w : World) (taken rest : World × Result CronError (List Schedule))
      → Unsent w taken.0
      → Unsent taken.0 rest.0
      → Unsent w (and_rest taken rest).0
  and_rest-Unsent w (w', err e) rest h k = h
  and_rest-Unsent w (w', ok started) (w'', rest) h k = (cc (h.0, k.0), cc (h.1, k.1))

  claim_due-Unsent :
      (due : List Schedule) (w : World) → Unsent w (claim_due reach settings moment due w).0
  unfolding claim_due
  claim_due-Unsent [] w = (refl, refl)
  claim_due-Unsent (s ∷ due) w =
      let taken = take_row reach settings moment s s.next_run_at w in
      and_rest-Unsent w taken (claim_due reach settings moment due taken.0)
        (take_row-Unsent s s.next_run_at w) (claim_due-Unsent due taken.0)

  abbrev Raises : World × Result CronError (List Schedule) → Type 0
  Raises (w, r) = (e : CronError) × (r ≡ err e)

  and_rest-Raises :
      (taken rest : World × Result CronError (List Schedule))
      → Raises rest
      → Raises (and_rest taken rest)
  and_rest-Raises (w, err e) rest h = (e, refl)
  and_rest-Raises (w, ok started) (w', rest) (e, h) = (e, rw h refl)

  claim_due-Raises :
      (earlier later : List Schedule) (s : Schedule) (slot : Datetime) (error : CronError)
      (w : World)
      → s.next_run_at ≡ some slot
      → upcoming_of moment s ≡ err error
      → Raises (claim_due reach settings moment (earlier ++ s ∷ later) w)
  unfolding claim_due take_row take_upcoming
  claim_due-Raises [] later s slot error w here fails = rw here (rw fails (error, refl))
  claim_due-Raises (first ∷ earlier) later s slot error w here fails =
      let taken = take_row reach settings moment first first.next_run_at w in
      and_rest-Raises taken (claim_due reach settings moment (earlier ++ s ∷ later) taken.0)
        (claim_due-Raises earlier later s slot error taken.0 here fails)

abbrev pub Failed : World → World × Result CronError ℕ → Type 0
Failed w (w', result) = ((e : CronError) × (result ≡ err e)) × Unsent w w'

after_pass-Failed :
    (app : App) (reach : Reach) (send_alert : Alert → Bool) (settings : Settings)
    (endings : ℕ → Ending) (moment : Datetime) (w : World)
    (claimed : World × Result CronError (List Schedule))
    → (e : CronError) × (claimed.1 ≡ err e)
    → Unsent w claimed.0
    → Failed w (after_pass app reach send_alert settings endings moment claimed)
unfolding after_pass
after_pass-Failed app reach send_alert settings endings moment w (w', err e) raised unsent =
    ((e, refl), unsent)
after_pass-Failed app reach send_alert settings endings moment w (w', ok runs) (e, raised) unsent =
    absurd (cc raised)

-- One due row with an expression that does not parse ends the whole tick by an exception, and nothing
-- is sent, whatever rows have been claimed before it.
pub tick-Failed :
    (app : App) (reach : Reach) (send_alert : Alert → Bool) (settings : Settings)
    (endings : ℕ → Ending) (moment : Datetime) (w : World) (earlier later : List Schedule)
    (s : Schedule) (slot : Datetime) (error : CronError)
    → list_due_schedules moment due_batch_size w.tables ≡ earlier ++ s ∷ later
    → s.next_run_at ≡ some slot
    → upcoming_of moment s ≡ err error
    → Failed w (tick app reach send_alert settings endings moment w)
unfolding tick
tick-Failed app reach send_alert settings endings moment w earlier later s slot error due here
      fails =
    let broken = claim_due-Raises reach settings moment earlier later s slot error w here fails in
    let unsent = claim_due-Unsent reach settings moment (earlier ++ s ∷ later) w in
    subst
      (λ (rows : List Schedule). Failed w (
        after_pass app reach send_alert settings endings moment
          (claim_due reach settings moment rows w)))
      (sym due)
      (after_pass-Failed app reach send_alert settings endings moment w
        (claim_due reach settings moment (earlier ++ s ∷ later) w) broken unsent)
