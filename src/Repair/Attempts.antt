-- ===== src/Repair/Attempts.antt =====
-- The attempts of the repair loop, and what its answer rests on.
use bolodb.Prelude.{
  ℕ, zero, suc, ◌+◌, ◌-◌, ◌≤◌, ◌≡◌, max, refl, Bool, true, false, List, [], ◌∷◌, ◌++◌, arith,
  length, length-append, All, All-append, inl, inr, Bool-cases,
}
use bolodb.Text.{Text, strip}
use bolodb.Repair.{
  Stage, passed, validating, executing, Attempt, Candidate, Answer, Callables, Verdict, invalid,
  not_executed, accepted, check, gives_up, refused, reject, settle, attempt, more_attempts, over,
  run_repair_loop, notified, feedback_of,
}

abbrev pub is_passed : Stage → Bool
is_passed passed = true
is_passed validating = false
is_passed executing = false

abbrev pub Failed : Attempt → Type 0
Failed a = is_passed a.stage ≡ false

module _ {S R : Type 0} (given : Callables S R) where
  -- At most `n` attempts, at least one; all but the last failed; the last is the answer's, and it passed
  -- exactly when the answer is a success; and then the checks accepted the SQL with the answer's result.
  pub IsAnswer : ℕ → Answer R → Type 0
  IsAnswer n a =
      (earlier : List Attempt) × (final : Attempt) × (a.attempts ≡ earlier ++ final ∷ [])
      × All Failed earlier
      × (final.sql ≡ a.sql)
      × (is_passed final.stage ≡ a.succeeded)
      × (length a.attempts ≤ n)
      × (a.succeeded ≡ true → (s : S) × ((check given a.sql s).0 ≡ accepted a.result))

  -- So far every attempt has failed, the last with the candidate.
  abbrev IsFailing : Candidate → List Attempt → Type 0
  IsFailing last attempts =
      (earlier : List Attempt) × (final : Attempt) × (attempts ≡ earlier ++ final ∷ [])
      × All Failed earlier
      × Failed final
      × (final.sql ≡ strip last.sql)

  IsFailing-Failed :
      (last : Candidate) (attempts : List Attempt) → IsFailing last attempts → All Failed attempts
  IsFailing-Failed last attempts (earlier, final, split, all_failed, failed, same) =
      rw split (All-append Failed earlier (final ∷ []) all_failed (failed, tt))

  gives_up-IsAnswer :
      (n : ℕ) (last : Candidate) (attempts : List Attempt)
      → IsFailing last attempts
      → length attempts ≤ n
      → IsAnswer n (gives_up given last attempts)
  unfolding IsAnswer
  gives_up-IsAnswer n last attempts (earlier, final, split, all_failed, failed, same) few =
      (earlier, final, split, all_failed, same, failed, few, λ e. absurd (cc e))

  -- What the loop needs of the rounds that are left.
  abbrev GoesOn : ℕ → ℕ → (Text → Candidate → List Attempt → S → Answer R × S) → Type 0
  GoesOn n done go_on =
      (feedback : Text) (last : Candidate) (attempts : List Attempt) (s : S)
      → IsFailing last attempts
      → length attempts ≡ done
      → IsAnswer n (go_on feedback last attempts s).0

  reject-IsAnswer :
      (n : ℕ) (go_on : Text → Candidate → List Attempt → S → Answer R × S) (last : Candidate)
      (attempts : List Attempt) (stage : Stage) (errors : List Text) (s : S)
      → GoesOn n (length attempts + 1) go_on
      → All Failed attempts
      → is_passed stage ≡ false
      → IsAnswer n (reject given go_on last attempts stage errors s).0
  reject-IsAnswer n go_on last attempts stage errors s goes_on all_failed failed =
      goes_on (feedback_of (strip last.sql) errors) last
        (attempts ++ refused given last stage errors ∷ [])
        (notified given given.on_failure (strip last.sql) errors s)
        (attempts, refused given last stage errors, refl, all_failed, failed, refl)
        (length-append attempts (refused given last stage errors ∷ []))

  settle-IsAnswer :
      (n : ℕ) (go_on : Text → Candidate → List Attempt → S → Answer R × S) (last : Candidate)
      (attempts : List Attempt) (verdict : Verdict R) (before_check after_check : S)
      → (check given (strip last.sql) before_check).0 ≡ verdict
      → GoesOn n (length attempts + 1) go_on
      → All Failed attempts
      → length attempts + 1 ≤ n
      → IsAnswer n (settle given go_on last attempts verdict after_check).0
  unfolding settle IsAnswer
  settle-IsAnswer n go_on last attempts (invalid errors) s s' e goes_on all_failed few =
      reject-IsAnswer n go_on last attempts validating errors s' goes_on all_failed refl
  settle-IsAnswer n go_on last attempts (not_executed error) s s' e goes_on all_failed few =
      reject-IsAnswer n go_on last attempts executing (error ∷ []) s' goes_on all_failed refl
  settle-IsAnswer n go_on last attempts (accepted result) s s' e goes_on all_failed few =
      let final : Attempt = record { sql = strip last.sql; stage = passed; errors = [] } in
      (
        attempts,
        final,
        refl,
        all_failed,
        refl,
        refl,
        rw (length-append attempts (final ∷ [])) few,
        λ yes. (s, e),
      )

  attempt-IsAnswer :
      (n : ℕ) (go_on : Text → Candidate → List Attempt → S → Answer R × S) (feedback : Text)
      (attempts : List Attempt) (s : S)
      → GoesOn n (length attempts + 1) go_on
      → All Failed attempts
      → length attempts + 1 ≤ n
      → IsAnswer n (attempt given go_on feedback attempts s).0
  unfolding attempt
  attempt-IsAnswer n go_on feedback attempts s goes_on all_failed few =
      let (last, s') = given.generate feedback s in
      let checked = check given (strip last.sql) s' in
      settle-IsAnswer n go_on last attempts checked.0 s' checked.1 refl goes_on all_failed few

  more_attempts-IsAnswer :
      (n rounds start done : ℕ)
      → done + rounds ≤ n
      → GoesOn n done (more_attempts given rounds start)
  unfolding more_attempts
  more_attempts-IsAnswer n zero start done bound feedback last attempts s failing made =
      gives_up-IsAnswer n last attempts failing (omega arith)
  more_attempts-IsAnswer n (suc rounds) start done bound feedback last attempts s failing made =
      let (late, s') = over given given.max_seconds start s in
      elim (Bool-cases late) [
        | inl is_late ↦ rw is_late (gives_up-IsAnswer n last attempts failing (omega arith))
        | inr in_time ↦ rw in_time (
            attempt-IsAnswer n (more_attempts given rounds start) feedback attempts s'
              (more_attempts-IsAnswer n rounds start (length attempts + 1) (omega arith))
              (IsFailing-Failed last attempts failing) (omega arith))
      ]

  -- Whatever the model, the checks and the clock do: the loop ends with at least one attempt and at
  -- most `max_iterations` of them (one, where that is 0); all but the last failed; the answer's SQL is
  -- that of the last, which passed exactly when the answer is a success; and then the checks accepted
  -- the SQL, with the answer's result.
  pub run_repair_loop-IsAnswer :
      (max_iterations : ℕ) (s : S)
      → IsAnswer (max 1 max_iterations) (run_repair_loop given max_iterations s).0
  unfolding run_repair_loop
  run_repair_loop-IsAnswer max_iterations s =
      let (start, s') = given.clock s in
      let rounds = max 1 max_iterations - 1 in
      attempt-IsAnswer (max 1 max_iterations) (more_attempts given rounds start) [] [] s'
        (more_attempts-IsAnswer (max 1 max_iterations) rounds start 1 (omega arith)) tt
        (omega arith)
