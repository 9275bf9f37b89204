-- ===== src/Scheduler/Outcomes.antt =====
-- How a run of `run_schedule` of backend/app/services/scheduler.py ends, and what it leaves behind.
use bolodb.Prelude.{Bool, true, List, Option, none, some, if◌then◌else◌}
use bolodb.Datetime.{Datetime}
use bolodb.Schedules.{Schedule, ScheduleRun, Tables, restarted, timed_out, record_run}
use bolodb.Scheduler.Delivery.{App, Outcome, execute_and_deliver}
use bolodb.Scheduler.Run.{Ending, completes, times_out, cancelled, Reach, failure, outcome_of}

-- What the run is recorded with.
abbrev pub recorded_outcome : App → Schedule → Bool → Ending → Outcome
recorded_outcome app s manual completes = outcome_of (execute_and_deliver app s manual).0
recorded_outcome app s manual (times_out sent) = failure (some timed_out)
recorded_outcome app s manual (cancelled sent) = failure (some restarted)

-- The runs that a run of `s` leaves, where the insert reaches the table.
abbrev pub recorded_runs : Reach → ScheduleRun → Tables → List ScheduleRun
recorded_runs reach r t = if reach.records r.schedule_id then (record_run r t).runs else t.runs

-- What the caller gets: nothing where the run was cancelled, since the cancellation goes on.
abbrev pub returned : Ending → Outcome → Option Outcome
returned completes o = some o
returned (times_out sent) o = some o
returned (cancelled sent) o = none

-- The schedules' table is left alone by a test and by a run that is cancelled.
abbrev pub spares_schedules : Bool → Ending → Bool
spares_schedules manual completes = manual
spares_schedules manual (times_out sent) = manual
spares_schedules manual (cancelled sent) = true
