-- ===== src/Prelude/Int.antt =====
-- Signed integers over the native numbers, as far as the results of `int()` need them.
use Prim.Native.Nat.{ℕ, zero, suc}

-- `negsuc n` is -(n + 1).
pub data ℤ : Type 0 where
  pos : ℕ → ℤ
  negsuc : ℕ → ℤ

abbrev pub neg_ℕ : ℕ → ℤ
neg_ℕ zero = pos zero
neg_ℕ (suc n) = negsuc n
