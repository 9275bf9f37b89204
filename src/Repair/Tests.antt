-- ===== src/Repair/Tests.antt =====
-- The theorem about the repair loop with a generator that gets the second attempt right.
use bolodb.Prelude.{ℕ, zero, suc, ◌+◌, max, Bool, true, false, [], ◌∷◌, none, some}
use bolodb.Text.{codes}
use bolodb.Repair.{Callables, returns, run_repair_loop}
use bolodb.Repair.Attempts.{IsAnswer, run_repair_loop-IsAnswer}

-- The state counts the calls of the generator.
abbrev accepts : ℕ → Bool
accepts zero = false
accepts (suc zero) = false
accepts (suc (suc n)) = true

abbrev given : Callables ℕ ℕ
given = record {
  generate = λ feedback n. (record { sql = codes "SELECT 1"; restatement = [] }, n + 1);
  validate = λ sql n. ((accepts n, codes "no such column" ∷ []), n);
  execute = some (λ sql n. (returns 1, n));
  on_failure = none;
  clock = λ n. (n, n);
  max_seconds = some 60;
}

run_repair_loop-IsAnswer_example : IsAnswer given (max 1 3) (run_repair_loop given 3 0).0
run_repair_loop-IsAnswer_example = run_repair_loop-IsAnswer given 3 0
