-- ===== src/Requests.antt =====
-- The checks of backend/app/controllers/schedules.py on what a request says of a schedule. A field that
-- the request leaves out is `none`; the time stamps are already read, and `readonly_violation` of
-- backend/app/database.py is an argument.
pub mod Recipients
pub mod Clean
pub mod Checks
pub mod Changes
pub mod Slots
mod Tests
use bolodb.Prelude.{
  ℕ, zero, suc, Bool, true, false, not, ◌&&◌, ◌||◌, List, [], ◌∷◌, ◌++◌, Option, none, some, length,
  take, is_empty, leb, ltb, ◌==◌, String, str_eq, if◌then◌else◌, Result, ok, err, ◌>>=◌,
}
use bolodb.Prelude.Int.{ℤ, pos, negsuc}
use bolodb.Text.{Text, strip, lower, partition, split_on, has_char, eq_text, is_space}
use bolodb.Datetime.{Datetime, at_most}
use bolodb.Cron.Error.{CronError}
use bolodb.Cron.Window.{validate}
use bolodb.Schedules.{Condition, always, non_empty, row_count_gte, row_count_lte}

abbrev pub max_recipients : ℕ
max_recipients = 25

abbrev pub max_inline_rows : ℕ
max_inline_rows = 500

-- The answers with status 400, the 409 of the ceiling, and an exception that no handler takes.
pub data BadRequest : Type 0 where
  name_missing sql_missing cron_missing no_recipients bad_window : BadRequest
  writes : Text → BadRequest
  bad_cron unhandled : CronError → BadRequest
  bad_address : Text → BadRequest
  too_many_recipients : ℕ → BadRequest
  rows_out_of_range bad_condition threshold_missing threshold_negative no_runs_left
        too_many_schedules :
      BadRequest

-- The fields of a request that are checked.
pub record Payload : Type 0 where
  pub name : Option Text
  pub sql : Option Text
  pub cron : Option Text
  pub recipients : Option (List Text)
  pub starts_at : Option (Option Datetime)
  pub ends_at : Option (Option Datetime)
  pub is_active : Option Bool
  pub max_rows : Option (Option ℤ)
  pub send_condition : Option (Option String)
  pub condition_value : Option (Option ℤ)

has_space : Text → Bool
has_space [] = false
has_space (c ∷ t) = is_space c || has_space t

all_given : List Text → Bool
all_given [] = true
all_given (part ∷ parts) = not (is_empty part) && all_given parts

-- `_EMAIL_RE`: one "@", no blanks, and at least two parts after it.
unfoldable pub is_address : Text → Bool
unfolding has_space all_given
is_address t =
    let (before, after) = partition b'@' t in
    let parts = split_on b'.' after in
    has_char b'@' t
    && not (has_space t)
    && not (is_empty before)
    && not (has_char b'@' after)
    && leb 2 (length parts)
    && all_given parts

unfoldable pub mem_address : Text → List Text → Bool
mem_address a [] = false
mem_address a (b ∷ bs) = eq_text b a || mem_address a bs

-- The loop of `normalize_recipients`; what has been seen is what has been put out.
unfoldable pub add_recipients : List Text → List Text → Result BadRequest (List Text)
add_recipients [] out = ok out
add_recipients (candidate ∷ rest) out =
    let address = lower (strip candidate) in
    let kept = add_recipients rest out in
    let added = add_recipients rest (out ++ address ∷ []) in
    if is_empty address
    then kept
    else if not (is_address address)
    then err (bad_address (strip candidate))
    else if mem_address address out
    then kept
    else added

abbrev pub at_most_max : List Text → Result BadRequest (List Text)
at_most_max out =
    if ltb max_recipients (length out) then err (too_many_recipients (length out)) else ok out

-- `normalize_recipients`, on a list.
unfoldable pub normalize_recipients : List Text → Result BadRequest (List Text)
normalize_recipients raw = add_recipients raw [] >>= at_most_max

abbrev required : Bool → BadRequest → Result BadRequest (Option Text)
required partial e = if partial then ok none else err e

unfoldable pub clean_name : Bool → Option Text → Result BadRequest (Option Text)
clean_name partial none = required partial name_missing
clean_name partial (some name) =
    if is_empty (strip name) then err name_missing else ok (some (take 255 (strip name)))

unfoldable pub clean_sql :
    (Text → Option Text) → Bool → Option Text → Result BadRequest (Option Text)
clean_sql readonly_violation partial none = required partial sql_missing
clean_sql readonly_violation partial (some sql) =
    if is_empty (strip sql) then err sql_missing else elim (readonly_violation (strip sql)) [
      | none ↦ ok (some (strip sql))
      | some violation ↦
          if is_empty violation then ok (some (strip sql)) else err (writes violation)
    ]

abbrev pub as_bad_request : Result CronError Text → Result BadRequest (Option Text)
as_bad_request (err e) = err (bad_cron e)
as_bad_request (ok expression) = ok (some expression)

unfoldable pub clean_cron : Datetime → Bool → Option Text → Result BadRequest (Option Text)
clean_cron now partial none = required partial cron_missing
clean_cron now partial (some cron) = as_bad_request (validate cron now)

unfoldable pub clean_recipients : Bool → Option (List Text) → Result BadRequest (Option (List Text))
clean_recipients partial none = ok (if partial then none else some [])
clean_recipients partial (some raw) = normalize_recipients raw >>= λ out. ok (some out)

-- Only where both ends are in the request.
unfoldable pub clean_window :
    Option (Option Datetime) → Option (Option Datetime) → Result BadRequest (Unit {0})
clean_window (some (some starts_at)) (some (some ends_at)) =
    if at_most ends_at starts_at then err bad_window else ok tt
clean_window _ _ = ok tt

unfoldable pub clean_max_rows : Option (Option ℤ) → Result BadRequest (Option (Option ℤ))
clean_max_rows (some (some (pos n))) =
    if leb 1 n && leb n max_inline_rows then ok (some (some (pos n))) else err rows_out_of_range
clean_max_rows (some (some (negsuc n))) = err rows_out_of_range
clean_max_rows (some none) = ok (some none)
clean_max_rows none = ok none

-- `SEND_CONDITIONS`
unfoldable pub condition_of : String → Option Condition
condition_of c =
    if str_eq c "always"
    then some always
    else if str_eq c "non_empty"
    then some non_empty
    else if str_eq c "row_count_gte"
    then some row_count_gte
    else if str_eq c "row_count_lte"
    then some row_count_lte
    else none

-- The threshold of a condition on the number of rows is needed, and is not negative.
unfoldable pub threshold : Option (Option ℤ) → Result BadRequest (Option (Option ℤ))
threshold (some (some (pos n))) = ok (some (some (pos n)))
threshold (some (some (negsuc n))) = err threshold_negative
threshold (some none) = err threshold_missing
threshold none = err threshold_missing

abbrev pub for_condition :
    Option Condition → Option (Option ℤ) → Result BadRequest (Option (Option ℤ))
for_condition none value = err bad_condition
for_condition (some row_count_gte) value = threshold value
for_condition (some row_count_lte) value = threshold value
for_condition (some always) value = ok (some none)
for_condition (some non_empty) value = ok (some none)

-- Without a condition, a threshold that is given must not be negative either.
unfoldable pub clean_condition :
    Option (Option String) → Option (Option ℤ) → Result BadRequest (Option (Option ℤ))
clean_condition (some (some c)) value = for_condition (condition_of c) value
clean_condition _ (some (some (negsuc n))) = err threshold_negative
clean_condition _ value = ok value

-- `validate_payload`
unfoldable pub validate_payload :
    (Text → Option Text) → Datetime → Bool → Payload → Result BadRequest Payload
validate_payload readonly_violation now partial p = clean_name partial p.name >>= λ name.
    clean_sql readonly_violation partial p.sql >>= λ sql. clean_cron now partial p.cron >>= λ cron.
    clean_recipients partial p.recipients >>= λ recipients.
    clean_window p.starts_at p.ends_at >>= λ checked. clean_max_rows p.max_rows >>= λ max_rows.
    clean_condition p.send_condition p.condition_value >>= λ condition_value. ok (record p {
      name = name;
      sql = sql;
      cron = cron;
      recipients = recipients;
      max_rows = max_rows;
      condition_value = condition_value;
    })
