-- ===== src/Requests/Checks.antt =====
-- What holds of a request that passes `validate_payload`.
use bolodb.Prelude.{
  ◌≡◌, refl, Bool, true, false, ◌&&◌, List, [], ◌∷◌, Option, none, some, arith, length-take, take,
  is_empty, leb, String, if◌then◌else◌, inl, inr, subst, Bool-cases, Result, ok, err, ◌>>=◌,
  >>=-eq-ok,
}
use bolodb.Prelude.Int.{ℤ, pos, negsuc}
use bolodb.Text.{Text, strip}
use bolodb.Datetime.{Datetime, before, at_most}
use bolodb.Cron.Error.{CronError}
use bolodb.Cron.Schedule.{CronSchedule, parse}
use bolodb.Cron.Window.{validate}
use bolodb.Cron.Window.Occurs.{validate_occurs}
use bolodb.Schedules.{Condition, always, non_empty, row_count_gte, row_count_lte}
use bolodb.Requests.{
  BadRequest, writes, as_bad_request, for_condition, Payload, max_inline_rows, normalize_recipients,
  clean_name, clean_sql, clean_cron, clean_recipients, clean_window, clean_max_rows, condition_of,
  threshold, clean_condition, validate_payload,
}
use bolodb.Requests.Recipients.{normalize_recipients-Extends}
use bolodb.Requests.Clean.{
  Field, IsName, IsReadOnly, Occurs, IsList, InOrder, InRange, NotNegative, has_threshold,
  needs_threshold, HasThreshold,
}

-- What holds of the value, where one is returned.
abbrev Holds : {A : Type 0} → (A → Type 0) → Result BadRequest A → Type 0
Holds P (ok a) = P a
Holds P (err e) = Unit

Holds-ok :
    {A : Type 0} (P : A → Type 0) (m : Result BadRequest A) (a : A) → Holds P m → m ≡ ok a → P a
Holds-ok P m a h e = subst (Holds P) e h

IsName-take : (t : Text) → is_empty t ≡ false → IsName (take 255 t)
IsName-take [] given = absurd (cc given)
IsName-take (c ∷ t) given = (refl, rw (length-take 255 (c ∷ t)) (omega arith))

clean_name_lem :
    (partial : Bool) (name : Option Text) → Holds (Field partial IsName) (clean_name partial name)
unfolding clean_name
clean_name_lem true none = refl
clean_name_lem false none = tt
clean_name_lem partial (some name) = elim (Bool-cases (is_empty (strip name))) [
  | inl blank ↦ rw blank tt
  | inr given ↦ rw given (IsName-take (strip name) given)
]

clean_sql_lem :
    (readonly_violation : Text → Option Text) (partial : Bool) (sql : Option Text)
    → Holds
        (Field partial (IsReadOnly readonly_violation))
        (clean_sql readonly_violation partial sql)
unfolding clean_sql
clean_sql_lem readonly_violation true none = refl
clean_sql_lem readonly_violation false none = tt
clean_sql_lem readonly_violation partial (some sql) = elim (Bool-cases (is_empty (strip sql))) [
  | inl blank ↦ rw blank tt
  | inr given ↦ rw given (judged given (readonly_violation (strip sql)) refl)
]
  where
    judged :
        is_empty (strip sql) ≡ false
        → (violation : Option Text) → readonly_violation (strip sql) ≡ violation
        → Holds (Field partial (IsReadOnly readonly_violation)) (elim violation [
          | none ↦ ok (some (strip sql))
          | some v ↦ if is_empty v then ok (some (strip sql)) else err (writes v)
        ])
    judged given none e = (given, inl e)
    judged given (some []) e = (given, inr e)
    judged given (some (c ∷ v)) e = tt

validate-parses :
    (raw : Text) (now : Datetime) (after : Text)
    → validate raw now ≡ ok after
    → (s : CronSchedule) × (parse raw ≡ ok s)
unfolding validate
validate-parses raw now after e = let (s, parsed, rest) = >>=-eq-ok (parse raw) _ e in (s, parsed)

validate-Occurs :
    (raw : Text) (now : Datetime) (after : Text) → validate raw now ≡ ok after → Occurs now after
validate-Occurs raw now after e =
    let (s, parsed) = validate-parses raw now after e in
    elim (validate_occurs raw now s parsed) [
      | inl (accepted, (t, later, fires)) ↦ (raw, s, t, parsed, cc (e, accepted), later, fires)
      | inr (rejected, never) ↦ absurd (cc (e, rejected))
    ]

clean_cron_lem :
    (now : Datetime) (partial : Bool) (cron : Option Text)
    → Holds (Field partial (Occurs now)) (clean_cron now partial cron)
unfolding clean_cron
clean_cron_lem now true none = refl
clean_cron_lem now false none = tt
clean_cron_lem now partial (some cron) = judged (validate cron now) refl
  where
    judged :
        (r : Result CronError Text)
        → validate cron now ≡ r
        → Holds (Field partial (Occurs now)) (as_bad_request r)
    judged (err error) e = tt
    judged (ok after) e = validate-Occurs cron now after e

clean_recipients_lem :
    (partial : Bool) (recipients : Option (List Text))
    → Holds (Field partial IsList) (clean_recipients partial recipients)
unfolding clean_recipients
clean_recipients_lem true none = refl
clean_recipients_lem false none = (tt, tt, omega arith)
clean_recipients_lem partial (some raw) = judged (normalize_recipients raw) refl
  where
    judged :
        (r : Result BadRequest (List Text))
        → normalize_recipients raw ≡ r
        → Holds (Field partial IsList) (r >>= λ out. ok (some out))
    judged (err error) e = tt
    judged (ok out) e =
        let (addresses, once, few, members) = normalize_recipients-Extends raw out e in
        (addresses, once, few)

clean_window_lem :
    (starts_at ends_at : Option (Option Datetime))
    → Holds (λ checked. InOrder starts_at ends_at) (clean_window starts_at ends_at)
unfolding clean_window at_most
clean_window_lem none ends_at = tt
clean_window_lem (some none) ends_at = tt
clean_window_lem (some (some a)) none = tt
clean_window_lem (some (some a)) (some none) = tt
clean_window_lem (some (some a)) (some (some b)) = elim (Bool-cases (before a b)) [
  | inl ordered ↦ rw ordered refl
  | inr reversed ↦ rw reversed tt
]

clean_max_rows_lem : (max_rows : Option (Option ℤ)) → Holds InRange (clean_max_rows max_rows)
unfolding clean_max_rows
clean_max_rows_lem none = tt
clean_max_rows_lem (some none) = tt
clean_max_rows_lem (some (some (negsuc n))) = tt
clean_max_rows_lem (some (some (pos n))) = elim (Bool-cases (leb 1 n && leb n max_inline_rows)) [
  | inl within ↦ rw within (ground arith, ground arith)
  | inr outside ↦ rw outside tt
]

abbrev IsThreshold : Option (Option String) → Option (Option ℤ) → Type 0
IsThreshold condition value = NotNegative value × HasThreshold condition value

threshold_lem :
    (value : Option (Option ℤ))
    → Holds (λ v. NotNegative v × (true ≡ true → has_threshold v ≡ true)) (threshold value)
unfolding threshold
threshold_lem none = tt
threshold_lem (some none) = tt
threshold_lem (some (some (pos n))) = (tt, λ e. refl)
threshold_lem (some (some (negsuc n))) = tt

for_condition_lem :
    (k : Option Condition) (value : Option (Option ℤ))
    → Holds
        (λ v. NotNegative v × (needs_threshold k ≡ true → has_threshold v ≡ true))
        (for_condition k value)
for_condition_lem none value = tt
for_condition_lem (some always) value = (tt, λ e. absurd (cc e))
for_condition_lem (some non_empty) value = (tt, λ e. absurd (cc e))
for_condition_lem (some row_count_gte) value = threshold_lem value
for_condition_lem (some row_count_lte) value = threshold_lem value

clean_condition_lem :
    (condition : Option (Option String)) (value : Option (Option ℤ))
    → Holds (IsThreshold condition) (clean_condition condition value)
unfolding clean_condition
clean_condition_lem (some (some c)) value = for_condition_lem (condition_of c) value
clean_condition_lem none none = (tt, tt)
clean_condition_lem none (some none) = (tt, tt)
clean_condition_lem none (some (some (pos n))) = (tt, tt)
clean_condition_lem none (some (some (negsuc n))) = tt
clean_condition_lem (some none) none = (tt, tt)
clean_condition_lem (some none) (some none) = (tt, tt)
clean_condition_lem (some none) (some (some (pos n))) = (tt, tt)
clean_condition_lem (some none) (some (some (negsuc n))) = tt

-- What holds of a payload that has been checked.
pub IsClean : (Text → Option Text) → Datetime → Bool → Payload → Type 0
IsClean readonly_violation now partial p =
    Field partial IsName p.name
    × Field partial (IsReadOnly readonly_violation) p.sql
    × Field partial (Occurs now) p.cron
    × Field partial IsList p.recipients
    × InOrder p.starts_at p.ends_at
    × InRange p.max_rows
    × NotNegative p.condition_value
    × HasThreshold p.send_condition p.condition_value

-- A request that passes the checks has a name of 1 to 255 characters, SQL that is not blank and not
-- refused as writing, the normalised text of a cron expression that fires after now, recipients that
-- are addresses, none of them twice and no more than the limit, an end after its start where it has
-- both, a number of rows in range, and a threshold that is not negative, and that is there when its
-- condition needs one; only a change may leave out the first four.
pub validate_payload-IsClean :
    (readonly_violation : Text → Option Text) (now : Datetime) (partial : Bool) (p clean : Payload)
    → validate_payload readonly_violation now partial p ≡ ok clean
    → IsClean readonly_violation now partial clean
unfolding validate_payload IsClean
validate_payload-IsClean readonly_violation now partial p clean e =
    let (name, named, e1) = >>=-eq-ok (clean_name partial p.name) _ e in
    let (sql, read_only, e2) = >>=-eq-ok (clean_sql readonly_violation partial p.sql) _ e1 in
    let (cron, occurs, e3) = >>=-eq-ok (clean_cron now partial p.cron) _ e2 in
    let (recipients, listed, e4) = >>=-eq-ok (clean_recipients partial p.recipients) _ e3 in
    let (checked, ordered, e5) = >>=-eq-ok (clean_window p.starts_at p.ends_at) _ e4 in
    let (max_rows, ranged, e6) = >>=-eq-ok (clean_max_rows p.max_rows) _ e5 in
    let (value, limited, e7) =
      >>=-eq-ok (clean_condition p.send_condition p.condition_value) _ e6 in
    let (not_negative, enough) =
      Holds-ok (IsThreshold p.send_condition) _ value
        (clean_condition_lem p.send_condition p.condition_value) limited in
    let made : record p {
      name = name;
      sql = sql;
      cron = cron;
      recipients = recipients;
      max_rows = max_rows;
      condition_value = value;
    }
        ≡ clean =
      cc e7 in
    subst (IsClean readonly_violation now partial) made (
      Holds-ok (Field partial IsName) _ name (clean_name_lem partial p.name) named,
      Holds-ok (Field partial (IsReadOnly readonly_violation)) _ sql
          (clean_sql_lem readonly_violation partial p.sql) read_only,
      Holds-ok (Field partial (Occurs now)) _ cron (clean_cron_lem now partial p.cron) occurs,
      Holds-ok (Field partial IsList) _ recipients (clean_recipients_lem partial p.recipients)
          listed,
      Holds-ok (λ c. InOrder p.starts_at p.ends_at) _ checked
          (clean_window_lem p.starts_at p.ends_at) ordered,
      Holds-ok InRange _ max_rows (clean_max_rows_lem p.max_rows) ranged,
      not_negative,
      enough,
    )
