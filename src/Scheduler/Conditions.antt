-- ===== src/Scheduler/Conditions.antt =====
-- When a report goes out, and what it holds.
use bolodb.Prelude.{
  ℕ, ◌≡◌, ◌↔◌, refl, Bool, true, false, ◌||◌, List, [], ◌∷◌, Option, none, some, arith, leb, ltb,
  String, is_empty, inl, inr, Bool-cases, Result, ok, err, get_or,
}
use bolodb.Text.{Text, strip}
use bolodb.Schedules.{
  Schedule, success, Condition, always, non_empty, row_count_gte, row_count_lte, Detail,
  no_recipients,
}
use bolodb.Scheduler.Delivery.{
  App, Mail, Outcome, QueryResult, query_error, rows_of, should_send, addressed, report, skip,
  delivered, send, decision, deliver, with_result, with_connection, execute_and_deliver,
}

-- What each condition asks of the number of rows.
abbrev pub wants : Condition → Option ℕ → ℕ → Bool
wants always threshold n = true
wants non_empty threshold n = ltb 0 n
wants row_count_gte threshold n = leb (get_or threshold 0) n
wants row_count_lte threshold n = leb n (get_or threshold 0)

-- A report is sent exactly when its condition holds of the number of rows, and a reason is given
-- exactly when it is not sent.
pub should_send-wants :
    (condition : Condition) (threshold : Option ℕ) (row_count : ℕ)
    → ((should_send condition threshold row_count).0 ≡ wants condition threshold row_count)
      × (((should_send condition threshold row_count).1 ≡ none)
          ↔ (wants condition threshold row_count ≡ true))
unfolding should_send
should_send-wants always threshold n = ground arith
should_send-wants non_empty threshold n = ground arith
should_send-wants row_count_gte threshold n = ground arith
should_send-wants row_count_lte threshold n = ground arith

-- A mail went out: it is the only one, the provider took it, the run is a success delivered to its
-- addressees, and the condition held unless the run was a test.
abbrev pub IsDelivery : App → Schedule → Bool → Result Detail Outcome → List Mail → Type 0
IsDelivery app s manual result [] = Unit
IsDelivery app s manual result (m ∷ ms) =
    (ms ≡ [])
    × (result ≡ ok (delivered m))
    × (app.send_email m ≡ true)
    × (m.to ≡ addressed s)
    × (is_empty m.to ≡ false)
    × ((manual || wants s.send_condition s.condition_value m.total_rows) ≡ true)

-- A success has a mail.
abbrev pub SentIfSuccess : Result Detail Outcome → List Mail → Type 0
SentIfSuccess (err e) mails = mails ≡ []
SentIfSuccess (ok o) mails =
    o.status ≡ success → (m : Mail) × (mails ≡ m ∷ []) × (o.delivered_to ≡ some m.to)

module _ (app : App) (s : Schedule) (manual : Bool) where
  send-IsDelivery :
      (m : Mail)
      → m.to ≡ addressed s
      → is_empty m.to ≡ false
      → (manual || wants s.send_condition s.condition_value m.total_rows) ≡ true
      → IsDelivery app s manual (send app m).0 (send app m).1
  unfolding send
  send-IsDelivery m to some_to wanted = elim (Bool-cases (app.send_email m)) [
    | inl sent ↦ rw sent (refl, refl, sent, to, some_to, wanted)
    | inr failed ↦ rw failed tt
  ]

  send-SentIfSuccess : (m : Mail) → SentIfSuccess (send app m).0 (send app m).1
  unfolding send
  send-SentIfSuccess m = elim (Bool-cases (app.send_email m)) [
    | inl sent ↦ rw sent (λ _. (m, refl, refl))
    | inr failed ↦ rw failed
  ]

  abbrev IsFaithful : Result Detail Outcome × List Mail → Type 0
  IsFaithful (result, mails) = IsDelivery app s manual result mails × SentIfSuccess result mails

  skip-IsFaithful : (n : ℕ) (d : Option Detail) → IsFaithful (ok (skip n d), [])
  skip-IsFaithful n d = (tt, λ e. cc e)

  decision-wants :
      (n : ℕ) → (decision s manual n).0 ≡ (manual || wants s.send_condition s.condition_value n)
  unfolding decision
  decision-wants n = elim (Bool-cases manual) [
    | inl test ↦ rw test
    | inr scheduled ↦ rw scheduled (should_send-wants s.send_condition s.condition_value n).0
  ]

  deliver-IsFaithful : (m : Mail) → m.to ≡ addressed s → IsFaithful (deliver app s manual m)
  unfolding deliver
  deliver-IsFaithful m to = elim (Bool-cases (is_empty m.to)) [
    | inl nobody ↦ rw nobody (skip-IsFaithful m.total_rows (some no_recipients))
    | inr somebody ↦ elim (Bool-cases (decision s manual m.total_rows).0) [
      | inl yes_send ↦
          rw (somebody, yes_send)
            (
              send-IsDelivery m to somebody (cc (decision-wants m.total_rows, yes_send)),
              send-SentIfSuccess m,
            )
      | inr no_send ↦
          rw (somebody, no_send) (skip-IsFaithful m.total_rows (decision s manual m.total_rows).1)
    ]
  ]

  with_result-IsFaithful : (q : QueryResult) → IsFaithful (with_result app s manual q)
  unfolding with_result report
  with_result-IsFaithful (query_error e) = (tt, refl)
  with_result-IsFaithful (rows_of columns rows row_count truncated) =
      deliver-IsFaithful (report s manual columns rows row_count truncated) refl

  with_connection-IsFaithful :
      (sql : Text) (r : Result String (Option ℕ)) → IsFaithful (with_connection app s manual sql r)
  unfolding with_connection
  with_connection-IsFaithful sql (err e) = (tt, refl)
  with_connection-IsFaithful sql (ok none) = (tt, refl)
  with_connection-IsFaithful sql (ok (some db_id)) =
      with_result-IsFaithful (app.execute s.workspace_id sql db_id)

-- Whatever the database and the provider answer: a mail goes out at most once, only to the schedule's
-- non-blank recipients, only when the condition holds or the run is a test, and then the run is a
-- success delivered to them; and a run is a success only if its mail went out.
pub execute_and_deliver-faithful :
    (app : App) (s : Schedule) (manual : Bool)
    → IsDelivery app s manual
        (execute_and_deliver app s manual).0
        (execute_and_deliver app s manual).1
      × SentIfSuccess (execute_and_deliver app s manual).0 (execute_and_deliver app s manual).1
unfolding execute_and_deliver
execute_and_deliver-faithful app s manual = elim (Bool-cases (is_empty (strip s.sql))) [
  | inl blank ↦ rw blank (tt, refl)
  | inr given ↦ rw given (
      with_connection-IsFaithful app s manual (strip s.sql)
        (app.ensure_connection s.workspace_id s.database_id))
]
