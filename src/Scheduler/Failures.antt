-- ===== src/Scheduler/Failures.antt =====
-- The failure counter of a schedule, and when it is paused (`_write_back_state` of
-- backend/app/services/scheduler.py), over a history of runs.
use bolodb.Prelude.{
  ℕ, suc, ◌+◌, ◌≡◌, ◌<◌, refl, ap, Bool, true, false, not, ◌&&◌, ◌||◌, List, [], ◌∷◌, Option, none,
  some, arith, leb, if◌then◌else◌, inl, inr, Bool-cases, subst,
}
use bolodb.Prelude.Rows.{update_rows}
use bolodb.Schedules.{
  Schedule, Tables, Status, success, failed, skipped, Detail, has_id, finished, finish_schedule_run,
}
use bolodb.Scheduler.Run.{
  Alert, Reach, World, failure_state, try_finish, alert_paused, write_back_state,
}

-- The row of a schedule.
unfoldable pub row_of : ℕ → List Schedule → Option Schedule
row_of id [] = none
row_of id (s ∷ rows) = let rest = row_of id rows in if has_id id s then some s else rest

abbrev changed : (Schedule → Schedule) → Option Schedule → Option Schedule
changed values none = none
changed values (some s) = some (values s)

row_of-update_rows :
    (id : ℕ) (values : Schedule → Schedule) (rows : List Schedule)
    → ((s : Schedule) → (values s).id ≡ s.id)
    → row_of id (update_rows (has_id id) values rows) ≡ changed values (row_of id rows)
unfolding row_of update_rows
row_of-update_rows id values [] same = refl
row_of-update_rows id values (s ∷ rows) same = elim (Bool-cases (has_id id s)) [
  | inl here ↦ let kept : has_id id (values s) ≡ true = cc (same s, here) in rw (here, kept) refl
  | inr elsewhere ↦ rw (elsewhere, elsewhere) (row_of-update_rows id values rows same)
]

row_of-id : (id : ℕ) (rows : List Schedule) (s : Schedule) → row_of id rows ≡ some s → s.id ≡ id
unfolding row_of
row_of-id id [] s e = absurd (cc e)
row_of-id id (r ∷ rows) s e = elim (Bool-cases (has_id id r)) [
  | inl here ↦ let same : some r ≡ some s = cc (e, here) in ground (arith, here)
  | inr elsewhere ↦ row_of-id id rows s (rw elsewhere at e)
]

unfoldable pub write_row :
    Reach → (Alert → Bool) → ℕ → Status → Option Detail → World → Option Schedule → World
write_row reach send_alert max_failures status detail w none = w
write_row reach send_alert max_failures status detail w (some s) =
    write_back_state reach send_alert max_failures s status detail w

-- The runs of a schedule write their state back one after the other, each from the row that it read.
-- The latest is first.
unfoldable pub write_all :
    Reach → (Alert → Bool) → ℕ → ℕ → List (Status × Option Detail) → World → World
write_all reach send_alert max_failures id [] w = w
write_all reach send_alert max_failures id ((status, detail) ∷ older) w =
    let w' = write_all reach send_alert max_failures id older w in
    write_row reach send_alert max_failures status detail w' (row_of id w'.tables.schedules)

-- How many of the latest runs failed in a row.
unfoldable pub failing : List (Status × Option Detail) → ℕ
failing [] = 0
failing ((failed, detail) ∷ older) = suc (failing older)
failing ((success, detail) ∷ older) = 0
failing ((skipped, detail) ∷ older) = 0

-- At some time, the latest `max_failures` runs had all failed.
unfoldable pub gave_up : ℕ → List (Status × Option Detail) → Bool
unfolding failing
gave_up max_failures [] = false
gave_up max_failures (run ∷ older) =
    leb max_failures (failing (run ∷ older)) || gave_up max_failures older

pub alert_paused-tables :
    (send_alert : Alert → Bool) (s : Schedule) (detail : Option Detail) (failures : ℕ) (w : World)
    → (alert_paused send_alert s detail failures w).tables ≡ w.tables
unfolding alert_paused
alert_paused-tables send_alert s detail failures w = ground arith

id-finished :
    (status : Status) (failures : ℕ) (active : Option Bool) (s : Schedule)
    → (finished status failures active s).id ≡ s.id
id-finished status failures none s = refl
id-finished status failures (some true) s = refl
id-finished status failures (some false) s = refl

-- The row after one run.
abbrev state_after : ℕ → Status → Schedule → Schedule
state_after max_failures status s =
    let state = failure_state max_failures s.consecutive_failures status in
    finished status state.0 (if state.1 then some false else none) s

module _ (reach : Reach) (send_alert : Alert → Bool) (max_failures : ℕ) where
  row_of-finish :
      (id : ℕ) (status : Status) (failures : ℕ) (active : Option Bool) (w : World)
      → reach.finishes id ≡ true
      → row_of id (try_finish reach id status failures active w).tables.schedules
        ≡ changed (finished status failures active) (row_of id w.tables.schedules)
  unfolding try_finish finish_schedule_run
  row_of-finish id status failures active w up = rw up (
      row_of-update_rows id (finished status failures active) w.tables.schedules
        (id-finished status failures active))

  own-write_back :
      (s : Schedule) (status : Status) (detail : Option Detail) (w : World)
      → reach.finishes s.id ≡ true
      → row_of s.id w.tables.schedules ≡ some s
      → row_of s.id
          (write_back_state reach send_alert max_failures s status detail w).tables.schedules
        ≡ some (state_after max_failures status s)
  unfolding write_back_state
  own-write_back s status detail w up here =
      let state = failure_state max_failures s.consecutive_failures status in
      elim (Bool-cases state.1) [
        | inl paused ↦ rw paused (
            cc (
              ap (λ (t : Tables). row_of s.id t.schedules)
                  (alert_paused-tables send_alert s detail state.0
                    (try_finish reach s.id status state.0 (some false) w)),
              row_of-finish s.id status state.0 (some false) w up,
              here,
            ))
        | inr going ↦ rw going (cc (row_of-finish s.id status state.0 none w up, here))
      ]

  row_of-write_back :
      (id : ℕ) (s : Schedule) (status : Status) (detail : Option Detail) (w : World)
      → reach.finishes id ≡ true
      → row_of id w.tables.schedules ≡ some s
      → row_of id
          (write_back_state reach send_alert max_failures s status detail w).tables.schedules
        ≡ some (state_after max_failures status s)
  row_of-write_back id s status detail w up here =
      subst
        (λ (i : ℕ).
          reach.finishes i ≡ true
          → row_of i w.tables.schedules ≡ some s
          → row_of i
              (write_back_state reach send_alert max_failures s status detail w).tables.schedules
            ≡ some (state_after max_failures status s))
        (row_of-id id w.tables.schedules s here) (own-write_back s status detail w) up here

  row_of-write_row :
      (id : ℕ) (s : Schedule) (status : Status) (detail : Option Detail) (w : World)
      → reach.finishes id ≡ true
      → row_of id w.tables.schedules ≡ some s
      → row_of id
          (write_row reach send_alert max_failures status detail w (some s)).tables.schedules
        ≡ some (state_after max_failures status s)
  unfolding write_row
  row_of-write_row = row_of-write_back

  step-failing :
      (status : Status) (detail : Option Detail) (older : List (Status × Option Detail))
      (s s' : Schedule)
      → 0 < max_failures
      → s'.consecutive_failures ≡ failing older
      → s'.is_active ≡ (s.is_active && not (gave_up max_failures older))
      → ((state_after max_failures status s').consecutive_failures
          ≡ failing ((status, detail) ∷ older))
        × ((state_after max_failures status s').is_active
            ≡ (s.is_active && not (gave_up max_failures ((status, detail) ∷ older))))
  unfolding failing gave_up failure_state
  step-failing success detail older s s' pos c a = (refl, ground arith)
  step-failing skipped detail older s s' pos c a = (refl, ground arith)
  step-failing failed detail older s s' pos c a =
      elim (Bool-cases (leb max_failures (s'.consecutive_failures + 1))) [
        | inl paused ↦ rw paused (omega arith, ground arith)
        | inr going ↦ rw going (omega arith, ground arith)
      ]

  -- Where the statements reach the tables and `max_failures` is positive, for a schedule without
  -- failures so far: after any history of runs its counter is the number of its latest runs that
  -- failed in a row, and it stays active exactly as long as `max_failures` of them never did.
  pub write_all-failing :
      (id : ℕ) (history : List (Status × Option Detail)) (w : World) (s : Schedule)
      → 0 < max_failures
      → reach.finishes id ≡ true
      → row_of id w.tables.schedules ≡ some s
      → s.consecutive_failures ≡ 0
      → (s' : Schedule) × (row_of id
            (write_all reach send_alert max_failures id history w).tables.schedules
          ≡ some s')
        × (s'.consecutive_failures ≡ failing history)
        × (s'.is_active ≡ (s.is_active && not (gave_up max_failures history)))
  unfolding write_all
  write_all-failing id [] w s pos up here zero_failures =
      unfold failing gave_up in (s, here, zero_failures, ground arith)
  write_all-failing id ((status, detail) ∷ older) w s pos up here zero_failures =
      let (s', here', c, a) = write_all-failing id older w s pos up here zero_failures in
      let w' = write_all reach send_alert max_failures id older w in
      let (c', a') = step-failing status detail older s s' pos c a in
      let written = row_of-write_row id s' status detail w' up here' in
      (state_after max_failures status s', cc (here', written), c', a')
