-- ===== src/Cron/Window/Occurs.antt =====
-- `validate` accepts the expressions that have a next firing time.
use bolodb.Prelude.{
  ℕ, ◌+◌, ◌≤◌, ◌<◌, ◌≡◌, true, false, is_none, inl, inr, ◌⊎◌, ◌∙◌, Option-cases, ok, err,
  if◌then◌else◌,
}
use bolodb.Text.{Text}
use bolodb.Datetime.{Datetime, ordinal}
use bolodb.Cron.Error.{never_occurs}
use bolodb.Cron.Schedule.{CronSchedule, max_search_days, parse, matches, next_after}
use bolodb.Cron.Schedule.Parsed.{parse-IsValid}
use bolodb.Cron.Schedule.Next.{next_after-some, next_after-none}
use bolodb.Cron.Window.{validate}

-- `validate` as the code that follows a successful `parse`.
validate_parsed :
    (expression : Text) (now : Datetime) (s : CronSchedule)
    → parse expression ≡ ok s
    → validate expression now
      ≡ (if is_none (next_after s now) then err never_occurs else ok s.expression)
unfolding validate
validate_parsed expression now s parsed = rw parsed

-- For an expression that parses: it is accepted, with its normalised text, only if the schedule fires
-- at some minute after now; and it is refused only as one that never occurs, and then no minute after
-- now fires, up to the last day of the search.
pub validate_occurs :
    (expression : Text) (now : Datetime) (s : CronSchedule)
    → parse expression ≡ ok s
    → ((validate expression now ≡ ok s.expression)
        × ((t : ℕ) × (now.minutes < t) × (matches s t ≡ true)))
      ⊎ ((validate expression now ≡ err never_occurs)
          × ((t : ℕ)
              → now.minutes < t
              → ordinal t ≤ ordinal (now.minutes + 1) + max_search_days
              → matches s t ≡ false))
validate_occurs expression now s parsed =
    let valid = parse-IsValid expression s parsed in
    elim (Option-cases (next_after s now)) [
      | inl nothing ↦ inr (
        validate_parsed expression now s parsed ∙ rw nothing,
        λ t later near. next_after-none s now t valid nothing later near,
      )
      | inr (r, found) ↦
          let (whole, later, fires, first) = next_after-some s now r valid found in
          inl (validate_parsed expression now s parsed ∙ rw found, (r.minutes, later, fires))
    ]
