-- ===== src/Scheduler/Tests.antt =====
-- The theorems about the scheduler at a concrete schedule, database and mail provider.
use bolodb.Prelude.{
  err, filter_by, ◌+◌, ◌*◌, ◌≡◌, refl, Bool, true, false, not, ◌&&◌, List, [], ◌∷◌, Option, none,
  some, arith, ok, All,
}
use bolodb.Prelude.Rows.{update_rows, any_row}
use bolodb.Text.{codes}
use bolodb.Datetime.{Datetime, before, at_most}
use bolodb.Cron.Error.{field_count}
use bolodb.Cron.Tests.{upcoming}
use bolodb.Schedules.{Schedule, Status, success, failed, Detail, list_due_schedules, claim_schedule}
use bolodb.Schedules.Processes.{Op, claim}
use bolodb.Schedules.Tests.{daily, one_schedule}
use bolodb.Scheduler.Delivery.{App, Row, rows_of, execute_and_deliver}
use bolodb.Scheduler.Conditions.{IsDelivery, SentIfSuccess, execute_and_deliver-faithful}
use bolodb.Scheduler.Run.{Alert, completes, Reach, World}
use bolodb.Scheduler.Failures.{row_of, write_all, failing, gave_up, write_all-failing}
use bolodb.Scheduler.Tick.{
  Settings, due_batch_size, try_claim, retire, too_late, take_slot, take_upcoming, take_row,
  upcoming_of, claim_due, tick,
}
use bolodb.Scheduler.Abandoned.{Failed, tick-Failed}
use bolodb.Scheduler.Passes.{NeverWon, claim_due-NeverWon}

abbrev rows : List Row
rows = (("total", some "3") ∷ []) ∷ []

-- One row for every query, and a provider that takes every mail.
abbrev app : App
app = record {
  ensure_connection = λ workspace_id database_id. ok database_id;
  execute = λ workspace_id sql db_id. rows_of ("total" ∷ []) rows (some 1) false;
  send_email = λ mail. true;
}

abbrev all_up : Reach
all_up = record { claims = λ id. true; finishes = λ id. true; records = λ id. true }

abbrev start : World
start = record { tables = one_schedule; mails = []; alerts = [] }

abbrev alerts_sent : Alert → Bool
alerts_sent alert = true

abbrev settings : Settings
settings = record { max_failures = 2; grace_seconds = 3600 }

-- Ten seconds after the slot of `daily`.
abbrev moment : Datetime
moment = record { minutes = 738945 * 1440 + 570; micros = 10_000_000 }

execute_and_deliver-faithful_example :
    IsDelivery app daily false
      (execute_and_deliver app daily false).0
      (execute_and_deliver app daily false).1
    × SentIfSuccess (execute_and_deliver app daily false).0 (execute_and_deliver app daily false).1
execute_and_deliver-faithful_example = execute_and_deliver-faithful app daily false

abbrev history : List (Status × Option Detail)
history = (failed, none) ∷ (failed, none) ∷ (success, none) ∷ []

row_of-daily : row_of 7 one_schedule.schedules ≡ some daily
unfolding row_of
row_of-daily = refl

-- Two failures in a row pause the schedule.
write_all-failing_example :
    (s' : Schedule) × (row_of 7 (write_all all_up alerts_sent 2 7 history start).tables.schedules
      ≡ some s')
    × (s'.consecutive_failures ≡ failing history)
    × (s'.is_active ≡ (daily.is_active && not (gave_up 2 history)))
write_all-failing_example =
    write_all-failing all_up alerts_sent 2 7 history start daily (omega arith) refl row_of-daily
      refl

claimed_once : (claim_due all_up settings moment (daily ∷ []) start).1 ≡ ok (daily ∷ [])
unfolding claim_due take_row take_upcoming take_slot try_claim claim_schedule update_rows any_row
    retire too_late upcoming
claimed_once = refl

-- The other process is a moment late.
abbrev other : List Op
other =
    claim 7 (record { minutes = 738945 * 1440 + 570; micros = 0 })
      (some (record { minutes = 738946 * 1440 + 570; micros = 0 })) moment
    ∷ []

claim_due-NeverWon_example :
    All (NeverWon other (claim_due all_up settings moment (daily ∷ []) start).0.tables) (daily ∷ [])
claim_due-NeverWon_example =
    claim_due-NeverWon all_up settings moment (daily ∷ []) (daily ∷ []) start other
      (unfold at_most before in ((refl, tt), tt)) (tt, tt) claimed_once
      (unfold before in (refl, tt))

-- Its cron expression has four fields.
abbrev broken : Schedule
broken = record daily { id = 9; cron = codes "0 9 * *" }

abbrev with_broken : World
with_broken = record start { tables = record one_schedule { schedules = daily ∷ broken ∷ [] } }

both_due : list_due_schedules moment due_batch_size with_broken.tables ≡ daily ∷ broken ∷ []
unfolding list_due_schedules at_most before filter_by
both_due = refl

broken_fails : upcoming_of moment broken ≡ err (field_count 4)
unfolding upcoming
broken_fails = refl

tick-Failed_example :
    Failed with_broken (tick app all_up alerts_sent settings (λ id. completes) moment with_broken)
tick-Failed_example =
    tick-Failed app all_up alerts_sent settings (λ id. completes) moment with_broken (daily ∷ []) []
      broken (record { minutes = 738945 * 1440 + 570; micros = 0 }) (field_count 4) both_due refl
      broken_fails
