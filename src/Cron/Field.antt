-- ===== src/Cron/Field.antt =====
-- `_parse_value` and `_parse_field` of backend/app/services/cron.py. A parsed field is a set of
-- numbers, held as a list.
pub mod Bounds
pub mod Spans
pub mod Written
pub mod Star
use bolodb.Prelude.{
  ℕ, zero, suc, ◌+◌, Bool, true, false, not, ◌&&◌, List, [], ◌∷◌, ◌++◌, Option, none, some, leb,
  ltb, ◌==◌, if◌then◌else◌, is_empty, Result, ok, err, ◌>>=◌,
}
use bolodb.Prelude.Int.{ℤ, pos, negsuc}
use bolodb.Text.{Text, codes, strip, split, split_on, has_char, partition, upper, eq_text}
use bolodb.Text.Number.{to_int}
use bolodb.Cron.Error.{
  CronError, Label, empty_field, empty_entry, empty_value, step_not_whole, unrecognised,
  step_too_small, runs_backwards, matches_nothing, outside,
}
use bolodb.Cron.Range.{range}

-- The `names` argument: a `dict` from names to numbers, empty for `None`.
abbrev pub Names : Type 0
Names = List (Text × ℕ)

enumerate_from : ℕ → List Text → Names
enumerate_from n [] = []
enumerate_from n (w ∷ ws) = (w, n) ∷ enumerate_from (n + 1) ws

unfoldable pub month_names : Names
unfolding enumerate_from split
month_names = enumerate_from 1 (split (codes "JAN FEB MAR APR MAY JUN JUL AUG SEP OCT NOV DEC"))

unfoldable pub day_names : Names
unfolding enumerate_from split
day_names = enumerate_from 0 (split (codes "SUN MON TUE WED THU FRI SAT"))

-- `names.get(key)`
unfoldable pub named : Text → Names → Option ℕ
named key [] = none
named key ((w, n) ∷ names) = if eq_text w key then some n else named key names

-- The last test of `_parse_value`.
unfoldable pub in_bounds : ℤ → ℕ → ℕ → Label → Result CronError ℕ
in_bounds (pos v) low high label =
    if leb low v && leb v high then ok v else err (outside label (pos v) low high)
in_bounds (negsuc v) low high label = err (outside label (negsuc v) low high)

unfoldable pub whole_value : Option ℤ → ℕ → ℕ → Label → Result CronError ℕ
whole_value none low high label = err (unrecognised label)
whole_value (some v) low high label = in_bounds v low high label

-- A name is taken as it is; anything else has to be a whole number within the bounds.
unfoldable pub value_of : Option ℕ → Text → ℕ → ℕ → Label → Result CronError ℕ
value_of (some v) token low high label = ok v
value_of none token low high label = whole_value (to_int token) low high label

unfoldable pub parse_value : Text → ℕ → ℕ → Label → Names → Result CronError ℕ
parse_value raw low high label names =
    let token = strip raw in
    if is_empty token
    then err (empty_value label)
    else value_of (named (upper token) names) token low high label

unfoldable pub whole_step : Option ℤ → Label → Result CronError ℕ
whole_step none label = err (step_not_whole label)
whole_step (some (pos zero)) label = err (step_too_small label (pos zero))
whole_step (some (pos (suc n))) label = ok (suc n)
whole_step (some (negsuc n)) label = err (step_too_small label (negsuc n))

-- The entry without its step, and the step: 1 if there is none.
unfoldable pub parse_step : Text → Label → Result CronError (Text × ℕ)
parse_step part label =
    if has_char b'/' part
    then (let (before, step_raw) = partition b'/' part in
        whole_step (to_int step_raw) label >>= λ step. ok (strip before, step))
    else ok (part, 1)

abbrev pub star : Text
star = b'*' ∷ []

-- The first and the last number of an entry.
unfoldable pub parse_span : Text → ℕ → ℕ → ℕ → Label → Names → Result CronError (ℕ × ℕ)
parse_span part step low high label names =
    if eq_text part star
    then ok (low, high)
    else if has_char b'-' part
    then (let (start_raw, end_raw) = partition b'-' part in
        do
          start ← parse_value start_raw low high label names
          stop ← parse_value end_raw low high label names
          if ltb stop start then err (runs_backwards label) else ok (start, stop))
    else do
      start ← parse_value part low high label names
      ok (start, if ltb 1 step then high else start)

-- One entry of the comma-separated list.
unfoldable pub parse_part : Text → ℕ → ℕ → Label → Names → Result CronError (List ℕ)
parse_part raw low high label names =
    let part = strip raw in
    if is_empty part
    then err (empty_entry label)
    else parse_step part label >>= λ (entry, step).
        parse_span entry step low high label names >>= λ (start, stop).
        ok (range start (stop + 1) step)

unfoldable pub parse_parts : List Text → ℕ → ℕ → Label → Names → Result CronError (List ℕ)
parse_parts [] low high label names = ok []
parse_parts (part ∷ parts) low high label names = do
  values ← parse_part part low high label names
  rest ← parse_parts parts low high label names
  ok (values ++ rest)

unfoldable pub some_value : List ℕ → Label → Result CronError (List ℕ)
some_value values label = if is_empty values then err (matches_nothing label) else ok values

unfoldable pub parse_field : Text → ℕ → ℕ → Label → Names → Result CronError (List ℕ)
parse_field raw low high label names =
    let field = strip raw in
    if is_empty field
    then err (empty_field label)
    else parse_parts (split_on b',' field) low high label names >>= λ values.
        some_value values label
