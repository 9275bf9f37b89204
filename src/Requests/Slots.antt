-- ===== src/Requests/Slots.antt =====
-- The slots that requests leave in the rows.
use bolodb.Prelude.{
  ◌≡◌, ◌⊎◌, ℕ, Bool, refl, subst, true, false, ◌&&◌, Option, none, some, arith, is_none,
  if◌then◌else◌, inl, inr, Bool-cases, Result, ok, err, ◌>>=◌, >>=-eq-ok,
}
use bolodb.Text.{Text}
use bolodb.Datetime.{Datetime}
use bolodb.Cron.Error.{CronError}
use bolodb.Cron.Window.{next_run}
use bolodb.Schedules.{Schedule}
use bolodb.Scheduler.Tick.{aware, aware_of}
use bolodb.Requests.{no_runs_left, Payload, validate_payload}
use bolodb.Requests.Changes.{
  apply, described, compute_next_run, new_row, or_unhandled, row_change, slot_of, some_recipients,
  switches_on, timed_change, touches, with_slot,
}

-- The next run of a row, from its own expression and window.
abbrev pub run_after : Datetime → Schedule → Result CronError (Option Datetime)
run_after now s = next_run s.cron now (some (aware now)) (aware_of s.starts_at) (aware_of s.ends_at)

-- An active schedule has its next run for its slot, and a schedule that is switched off has none.
abbrev pub IsSlotted : Datetime → Schedule → Type 0
IsSlotted now s =
    (s.is_active ≡ true
      → (slot : Datetime) × (s.next_run_at ≡ some slot) × (run_after now s ≡ ok (some slot)))
    × (s.is_active ≡ false → s.next_run_at ≡ none)

slot_of_lem :
    (now : Datetime) (s : Schedule) (next : Option Datetime)
    → slot_of now s ≡ ok next
    → IsSlotted now (record s { next_run_at = next })
unfolding slot_of compute_next_run
slot_of_lem now s next e = elim (Bool-cases s.is_active) [
  | inr off ↦ (λ on. absurd (cc (on, off)), λ same. cc (rw off at e))
  | inl on ↦ (λ same. active (run_after now s) refl (rw on at e), λ off. absurd (cc (on, off)))
]
  where
    active :
        (r : Result CronError (Option Datetime))
        → run_after now s ≡ r
        → (or_unhandled r >>= λ upcoming.
            if is_none upcoming && true then err no_runs_left else ok upcoming)
          ≡ ok next
        → (slot : Datetime) × (next ≡ some slot) × (run_after now s ≡ ok (some slot))
    active (err error) found e = absurd (cc e)
    active (ok none) found e = absurd (cc e)
    active (ok (some slot)) found e = (slot, cc e, found)

-- A schedule that is created has its next run for its slot when it is active, and no slot when it is
-- not.
pub new_row-IsSlotted :
    (readonly_violation : Text → Option Text) (now : Datetime) (defaults s : Schedule) (p : Payload)
    → new_row readonly_violation now defaults p ≡ ok s
    → IsSlotted now s
unfolding new_row
new_row-IsSlotted readonly_violation now defaults s p e =
    let (clean, checked, e1) = >>=-eq-ok (validate_payload readonly_violation now false p) _ e in
    let (given, some_given, e2) = >>=-eq-ok (some_recipients clean.recipients) _ e1 in
    let (next, slotted, e3) = >>=-eq-ok (slot_of now (described clean defaults)) _ e2 in
    let made : record (described clean defaults) { next_run_at = next } ≡ s = cc e3 in
    subst (IsSlotted now) made (slot_of_lem now (described clean defaults) next slotted)

-- The failures after a request: none if it switches on a schedule that is off, else as before.
abbrev pub failures_after : Option Bool → Schedule → ℕ
failures_after (some true) existing =
    if existing.is_active then existing.consecutive_failures else 0
failures_after (some false) existing = existing.consecutive_failures
failures_after none existing = existing.consecutive_failures

-- Neither the expression, nor the window, nor the activity, nor the slot is another one.
abbrev pub SameTimes : Schedule → Schedule → Type 0
SameTimes a b =
    (a.cron ≡ b.cron)
    × (a.starts_at ≡ b.starts_at)
    × (a.ends_at ≡ b.ends_at)
    × (a.is_active ≡ b.is_active)
    × (a.next_run_at ≡ b.next_run_at)

-- The request gives none of them.
abbrev pub GivesNoTimes : Payload → Type 0
GivesNoTimes clean =
    (clean.cron ≡ none)
    × (clean.starts_at ≡ none)
    × (clean.ends_at ≡ none)
    × (clean.is_active ≡ none)

-- What a change leaves: a request that gives no times leaves all of them and the slot, and any other one
-- the slot of the row that it leaves; switching on again resets the failures.
abbrev pub IsChanged : Datetime → Schedule → (Schedule → Schedule) → Payload → Type 0
IsChanged now existing values clean =
    (GivesNoTimes clean × SameTimes (values existing) existing
      ⊎ (¬ GivesNoTimes clean) × IsSlotted now (values existing))
    × ((values existing).consecutive_failures ≡ failures_after clean.is_active existing)

failures_after_lem :
    (clean : Payload) (existing : Schedule)
    → (if switches_on clean existing then 0 else existing.consecutive_failures)
      ≡ failures_after clean.is_active existing
failures_after_lem clean existing = elim (given clean.is_active) [
  | inl e ↦ rw e refl
  | inr (false, e) ↦ rw e refl
  | inr (true, e) ↦ rw e (ground arith)
]
  where
    given : (o : Option Bool) → (o ≡ none) ⊎ ((b : Bool) × (o ≡ some b))
    given none = inl refl
    given (some b) = inr (b, refl)

touches_lem : (clean : Payload) → touches clean ≡ true → ¬ GivesNoTimes clean
touches_lem clean touched (a, b, c, d) = absurd (cc (rw (a, b, c, d) at touched))

timed_change-IsChanged :
    (now : Datetime) (existing : Schedule) (clean : Payload) (values : Schedule → Schedule)
    → touches clean ≡ true
    → timed_change now existing clean ≡ ok values
    → IsChanged now existing values clean
unfolding timed_change
timed_change-IsChanged now existing clean values touched e =
    let (next, slotted, made) = >>=-eq-ok (slot_of now (apply clean existing)) _ e in
    let same : with_slot clean existing next ≡ values = cc made in
    subst (λ (v : Schedule → Schedule). IsChanged now existing v clean) same
      (
        inr (touches_lem clean touched, slot_of_lem now (apply clean existing) next slotted),
        failures_after_lem clean existing,
      )

none_of : {A : Type 0} (o : Option A) → is_none o ≡ true → o ≡ none
none_of none e = refl
none_of (some a) e = absurd (cc e)

untouched_lem : (clean : Payload) → touches clean ≡ false → GivesNoTimes clean
untouched_lem clean h = (
  none_of clean.cron (ground arith),
  none_of clean.starts_at (ground arith),
  none_of clean.ends_at (ground arith),
  none_of clean.is_active (ground arith),
)

plain-IsChanged :
    (now : Datetime) (existing : Schedule) (clean : Payload)
    → touches clean ≡ false
    → IsChanged now existing (apply clean) clean
unfolding apply
plain-IsChanged now existing clean untouched =
    let gives_none = untouched_lem clean untouched in
    let (cron, starts, ends, active) = gives_none in
    (
      inl (gives_none, (rw cron refl, rw starts refl, rw ends refl, rw active refl, refl)),
      rw active refl,
    )

-- A change that passes the checks: a request that gives neither an expression, nor a start, nor an
-- end, nor the activity leaves all of these and the slot; after any other one the row that it leaves
-- has its own next run for its slot when it is active, and none when it is not; and the failures are
-- set to 0 exactly when the request switches on a schedule that was off, and stay otherwise.
pub row_change-IsChanged :
    (readonly_violation : Text → Option Text) (now : Datetime) (existing : Schedule) (p : Payload)
    (values : Schedule → Schedule)
    → row_change readonly_violation now existing p ≡ ok values
    → (clean : Payload) × (validate_payload readonly_violation now true p ≡ ok clean)
      × IsChanged now existing values clean
unfolding row_change
row_change-IsChanged readonly_violation now existing p values e =
    let (clean, checked, e1) = >>=-eq-ok (validate_payload readonly_violation now true p) _ e in
    let (given, some_given, e2) = >>=-eq-ok (some_recipients clean.recipients) _ e1 in
    elim (Bool-cases (touches clean)) [
      | inl touched ↦ (
        clean,
        checked,
        timed_change-IsChanged now existing clean values touched (rw touched at e2),
      )
      | inr untouched ↦
          let same : apply clean ≡ values = cc (rw untouched at e2) in
          (
            clean,
            checked,
            subst (λ (v : Schedule → Schedule). IsChanged now existing v clean) same
                (plain-IsChanged now existing clean untouched),
          )
    ]
