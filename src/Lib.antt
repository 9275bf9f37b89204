-- ===== src/Lib.antt =====
-- Scheduled reports, workspaces, sessions, permissions, schema linking, verification codes and the repair
-- loop of BoloDB.
--
-- BoloDB answers questions with SQL. A saved query can be scheduled: a cron expression says when it runs,
-- and a background loop runs it and mails the result. The parts modelled here are the cron expressions
-- (Cron), the tables of schedules and of their runs (Schedules), the loop that claims due schedules, runs
-- them and counts their failures (Scheduler), the requests that create and change schedules (Requests), the
-- permissions that decide who may do what (Permissions), the guards that ask them for a request (Guard), and
-- the workspaces with their members, invitations and settings, which those permissions are kept in
-- (Workspaces). The sessions that the guards check are handed out by the accounts (Auth). Another part
-- chooses the tables that the language model gets to see for a question (Linking). Beside them stand the
-- codes that verify an e-mail address (Otp), the check of an address at sign-up (Verification), and the loop
-- that repairs the SQL of a language model (Repair). The scheduler asks Cron for the next occurrence of a
-- row, claims the row's slot with a compare-and-swap on the table, and then runs it against a database and a
-- mail provider, which are parameters. A request fills the slot of a row from the same function of Cron that
-- the scheduler advances it with.
--
-- Files and code:
--
-- * Prelude, Text, Datetime: Python's lists, sets, dictionaries, `str` methods and UTC `datetime`, as far as
--   the code uses them. A text is a list of character codes; a moment is the minutes since the ordinal 0 and
--   the microseconds in the minute; a date is computed from the ordinal by the Gregorian cycles.
--   Prelude/Rows has the table statements that all the stores use.
-- * Cron (backend/app/services/cron.py): Cron/Field is `_parse_field` and `_parse_value`; Cron/Schedule is
--   `CronSchedule` with `parse`, `matches` and `next_after`; Cron/Window is `next_run`, `next_runs` and
--   `validate`. An exception is a value of Cron/Error. Proofs: Cron/Field/Bounds, Spans, Written and Star,
--   Cron/Schedule/Parsed, Matching, Clock, Search and Next, Cron/Window/First, Runs, Repeats and Occurs.
-- * Permissions (backend/app/permissions.py): the registry is Permissions/Registry,
--   `resolve_role_permissions` and `has_permission` are in Permissions.
-- * Schedules (backend/app/models/scheduled_query.py, backend/app/pgdatabase/schedules.py): a table is the
--   list of its rows and each statement one transaction; `create_schedule`, `delete_schedule`,
--   `list_due_schedules`, `claim_schedule`, `finish_schedule_run`, `record_run` and `list_runs` keep their
--   names.
-- * Scheduler (backend/app/services/scheduler.py): Scheduler/Delivery is `should_send` and
--   `_execute_and_deliver`, Scheduler/Run is `run_schedule` and `_write_back_state`, Scheduler/Tick is
--   `tick`. What the services answer is a record of functions (`App`), and which statements raise is another
--   (`Reach`).
-- * Requests (backend/app/controllers/schedules.py): `validate_payload` and `normalize_recipients` are in
--   Requests, `create_schedule`, `update_schedule`, `set_active` and `compute_next_run` in Requests/Changes.
--   `readonly_violation` is an argument.
-- * Guard (backend/app/dependencies.py, backend/app/tokens.py, backend/app/models/workspace.py,
--   backend/app/models/workspace_settings.py): `get_current_user`, `get_current_workspace`, `require_role`
--   and `require_permission`; decoding a signed token and reading an identifier are fields of `Backend`.
-- * Workspaces (backend/app/controllers/workspaces.py, backend/app/models/workspace.py,
--   backend/app/models/workspace_settings.py): the handlers keep their names; Workspaces/Members is the
--   workspaces, members and roles, Codes the invitation codes, Invites and Bulk the invitations, Settings
--   the settings, Lookup the reads. Workspaces/Owners has the calls as steps on the tables and the stores
--   that they reach. UUIDs are numbers, given out in turn; the constraints of the tables are tests before a
--   row is written. The other half of an activity, its metadata, is left out.
-- * Linking (backend/app/schema_link.py, `_tokens` of backend/app/utils.py): Linking/Stems is the words of a
--   question, Words the search for a whole word, Scores the signals and scores, Parents `_fk_parents`,
--   Choice `link_relevant_tables` and `expand_linked_tables`. A weight counts in halves of a point.
-- * Auth (backend/app/controllers/auth.py, backend/app/pgdatabase/users.py, backend/app/routes/auth.py,
--   backend/app/models/user.py, backend/app/models/orm_user.py): Auth/Accounts is the table of users,
--   Auth/Handlers the handlers of controllers/auth.py, Auth/Recovery those of the mailed reset link,
--   Auth/Profile `update_profile` and `refresh_jwt`. A token is the claims that are signed; Auth/Calls has
--   the calls in sequence with all the claims that they hand out.
-- * Otp (backend/app/pgdatabase/otp.py, backend/app/models/auth_token.py): `create_otp`, `verify_otp` and
--   `delete_otp_for_user` on a table of codes; the digest is an argument.
-- * Verification (backend/app/services/email_verification.py): `verify_email` on the reply of the service.
-- * Repair (backend/app/repair.py): `run_repair_loop`, on callables that read and change a state of their
--   own.
--
-- Bounds and fuel: the search for the next firing time takes one unit of fuel for each day,
-- `max_search_days` + 1 of them, as the source's loop runs while the day is not past its limit; each round
-- moves to the next day, so that the fuel is enough, which the theorems on runs that are not found rest on.
-- The repair loop counts its rounds down from `max_iterations`, as its source's `range` does. The search for
-- foreign-key parents takes one unit of fuel for each table and one more, since each call marks a table, and
-- Linking/Reached/Exact shows it enough. All other loops are by structural recursion. Numbers are unbounded,
-- as in Python.
--
-- Not modelled: the end of the calendar (the year 9999, where Python raises), digits and letters outside
-- ASCII in cron expressions, slugs, codes, names of tables and e-mail addresses (Python's `lower` reaches
-- further), the constraint that a recorded run has its schedule, offsets of time zones in fractions of a
-- minute, the rendering of mails, the meaning of SQL (a database is a function to rows), the polling loop
-- and the semaphore of the scheduler, and the overlap of the runs of one tick, which are taken in turn, and
-- the overlap of two handlers of workspaces, each of which is one transaction; the interleavings that
-- matter, of claims and write-backs by several processes, are sequences of transactions in
-- Schedules/Processes.
pub mod Prelude
pub mod Text
pub mod Datetime
pub mod Cron
pub mod Permissions
pub mod Schedules
pub mod Scheduler
pub mod Otp
pub mod Repair
pub mod Verification
pub mod Requests
pub mod Linking
pub mod Guard
pub mod Workspaces
pub mod Auth
