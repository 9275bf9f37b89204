-- ===== src/Repair.antt =====
-- The repair loop of backend/app/repair.py. The callables that it is given read and change a state `S`
-- of their own; the texts of the model and of the errors are texts, and what an execution returns is a
-- parameter `R`.
pub mod Attempts
mod Tests
use bolodb.Prelude.{
  ℕ, zero, suc, ◌-◌, max, ltb, Bool, true, false, List, [], ◌∷◌, ◌++◌, Option, none, some, map,
  if◌then◌else◌,
}
use bolodb.Text.{Text, codes, strip}

pub data Stage : Type 0 where
  passed validating executing : Stage

pub record Attempt : Type 0 where
  pub sql : Text
  pub stage : Stage
  pub errors : List Text

-- What the generator returns, without its chart and its assumptions.
pub record Candidate : Type 0 where
  pub sql : Text
  pub restatement : Text

-- What `execute` returns: a result, or an error with its text.
pub data Execution (R : Type 0) : Type 0 where
  fails : Text → Execution R
  returns : R → Execution R

pub record Answer (R : Type 0) : Type 0 where
  pub succeeded : Bool
  pub sql : Text
  pub restatement : Text
  pub result : Option R
  pub attempts : List Attempt

-- The arguments of `run_repair_loop`. A callable that is not given is `none`.
pub record Callables (S R : Type 0) : Type 0 where
  pub generate : Text → S → Candidate × S
  pub validate : Text → S → (Bool × List Text) × S
  pub execute : Option (Text → S → Execution R × S)
  pub on_failure : Option (Text → List Text → S → S)
  pub clock : S → ℕ × S
  pub max_seconds : Option ℕ

newline : Text
newline = 10 ∷ []

join_lines : List Text → Text
unfolding newline
join_lines [] = []
join_lines (line ∷ []) = line
join_lines (line ∷ next ∷ lines) = line ++ newline ++ join_lines (next ∷ lines)

-- `_feedback`
unfoldable pub feedback_of : Text → List Text → Text
unfolding join_lines
feedback_of sql errors =
    let problems = map (λ e. codes "- " ++ e) errors in
    join_lines (
      (codes "The previous SQL attempt was:" ∷ strip sql ∷ [] ∷ codes "Problems found:" ∷ problems)
      ++ codes "Return a corrected SQL query that fixes these problems." ∷ [])

-- How the checks of a candidate end.
pub data Verdict (R : Type 0) : Type 0 where
  invalid : List Text → Verdict R
  not_executed : Text → Verdict R
  accepted : Option R → Verdict R

module _ {S R : Type 0} (given : Callables S R) where
  abbrev pub executed : Execution R × S → Verdict R × S
  executed (fails e, s) = (not_executed e, s)
  executed (returns r, s) = (accepted (some r), s)

  abbrev pub run_on : Option (Text → S → Execution R × S) → Text → S → Verdict R × S
  run_on none sql s = (accepted none, s)
  run_on (some execute) sql s = executed (execute sql s)

  -- `validate`, and `execute` where there is one.
  unfoldable pub check : Text → S → Verdict R × S
  check sql s =
      let ((valid, errors), s') = given.validate sql s in
      if valid then run_on given.execute sql s' else (invalid errors, s')

  abbrev pub notified : Option (Text → List Text → S → S) → Text → List Text → S → S
  notified none sql errors s = s
  notified (some on_failure) sql errors s = on_failure sql errors s

  -- Before each attempt but the first, the time since `start` is compared with the budget.
  abbrev pub over : Option ℕ → ℕ → S → Bool × S
  over none start s = (false, s)
  over (some budget) start s = let (now, s') = given.clock s in (ltb budget (now - start), s')

  abbrev pub gives_up : Candidate → List Attempt → Answer R
  gives_up last attempts = record {
    succeeded = false;
    sql = strip last.sql;
    restatement = last.restatement;
    result = none;
    attempts = attempts;
  }

  abbrev pub answers : Candidate → Option R → List Attempt → Answer R
  answers last result attempts = record {
    succeeded = true;
    sql = strip last.sql;
    restatement = last.restatement;
    result = result;
    attempts = attempts ++ record { sql = strip last.sql; stage = passed; errors = [] } ∷ [];
  }

  abbrev pub refused : Candidate → Stage → List Text → Attempt
  refused last stage errors = record { sql = strip last.sql; stage = stage; errors = errors }

  -- An attempt that fails is noted, and its errors are the next feedback.
  abbrev pub reject :
      (Text → Candidate → List Attempt → S → Answer R × S)
      → Candidate
      → List Attempt
      → Stage
      → List Text
      → S
      → Answer R × S
  reject go_on last attempts stage errors s =
      go_on (feedback_of (strip last.sql) errors) last (attempts ++ refused last stage errors ∷ [])
        (notified given.on_failure (strip last.sql) errors s)

  unfoldable pub settle :
      (Text → Candidate → List Attempt → S → Answer R × S)
      → Candidate
      → List Attempt
      → Verdict R
      → S
      → Answer R × S
  settle go_on last attempts (invalid errors) s = reject go_on last attempts validating errors s
  settle go_on last attempts (not_executed e) s = reject go_on last attempts executing (e ∷ []) s
  settle go_on last attempts (accepted result) s = (answers last result attempts, s)

  unfoldable pub attempt :
      (Text → Candidate → List Attempt → S → Answer R × S) → Text → List Attempt → S → Answer R × S
  attempt go_on feedback attempts s =
      let (last, s') = given.generate feedback s in
      let (verdict, s'') = check (strip last.sql) s' in settle go_on last attempts verdict s''

  -- The rounds after the first.
  unfoldable pub more_attempts : ℕ → ℕ → Text → Candidate → List Attempt → S → Answer R × S
  more_attempts zero start feedback last attempts s = (gives_up last attempts, s)
  more_attempts (suc rounds) start feedback last attempts s =
      let (late, s') = over given.max_seconds start s in
      let next = attempt (more_attempts rounds start) feedback attempts s' in
      if late then (gives_up last attempts, s') else next

  -- `run_repair_loop`: the first attempt always runs.
  unfoldable pub run_repair_loop : ℕ → S → Answer R × S
  run_repair_loop max_iterations s =
      let (start, s') = given.clock s in
      attempt (more_attempts (max 1 max_iterations - 1) start) [] [] s'
