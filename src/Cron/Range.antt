-- ===== src/Cron/Range.antt =====
-- Python's `range(start, stop, step)`, and exactly which numbers it holds.
use native.Mathlib.Decide.{dec_lt}
use native.Mathlib.Nat.{mul-le-mul_right, div-add-mod', mod-lt, mod-eq-sub-mod, mod-eq_of_lt}
use native.Mathlib.Numerals.{add-one}
use bolodb.Prelude.{
  ℕ, zero, suc, ◌+◌, ◌-◌, ◌*◌, ◌/◌, ◌%◌, ◌≤◌, ◌<◌, ◌≡◌, Bool, ◌&&◌, List, [], ◌∷◌, arith, ltb, leb,
  ◌==◌, contains, ap, ◌∙◌,
}

range_count : ℕ → ℕ → ℕ → List ℕ
range_count zero start step = []
range_count (suc n) start step = start ∷ range_count n (start + step) step

unfoldable pub range : ℕ → ℕ → ℕ → List ℕ
unfolding range_count
range start stop step = range_count ((stop - start + (step - 1)) / step) start step

-- `v` is reached from `start` by whole steps, below `stop`.
abbrev pub in_range : ℕ → ℕ → ℕ → ℕ → Bool
in_range start stop step v = leb start v && ltb v stop && (v - start) % step == 0

step_back : (v start step : ℕ) → start + step ≤ v → (v - start) % step ≡ (v - (start + step)) % step
step_back v start step h =
    let fits : step ≤ v - start = omega arith in
    let same : v - start - step ≡ v - (start + step) = omega arith in
    mod-eq-sub-mod fits ∙ ap (λ t. t % step) same

-- Below the next member only the first one is on the grid.
off_grid : (v start step : ℕ) → start ≤ v → v < start + step → (v - start) % step ≡ 0 → v ≡ start
off_grid v start step h k e =
    let below : v - start < step = omega arith in
    let same : (v - start) % step ≡ v - start = mod-eq_of_lt below in omega arith

contains-range_count :
    (n start step v : ℕ)
    → 0 < step
    → contains v (range_count n start step) ≡ in_range start (start + n * step) step v
unfolding range_count contains
contains-range_count zero start step v h = ground arith
contains-range_count (suc n) start step v h = ground (
  arith,
  contains-range_count n (start + step) step v h,
  step_back v start step,
  off_grid v start step,
  ap (λ (t : ℕ). t * step) (add-one n),
)

-- Two multiples of `s` are a whole step apart.
multiples_apart : (q n s : ℕ) → q * s < n * s → q * s + s ≤ n * s
multiples_apart q n s h = elim (dec_lt q n) [
  | yes p ↦ omega (arith, mul-le-mul_right s p, ap (λ (t : ℕ). t * s) (add-one q))
  | no p ↦ absurd (omega (arith, mul-le-mul_right s (let ge : n ≤ q = omega arith in ge)))
]

-- The count of rounds reaches the stop, and not a whole step further.
rounds_bounds :
    (d s : ℕ) → 0 < s → (d ≤ (d + (s - 1)) / s * s) × ((d + (s - 1)) / s * s ≤ d + (s - 1))
rounds_bounds d s h = (
  omega (arith, div-add-mod' (d + (s - 1)) s, mod-lt (d + (s - 1)) h),
  omega (arith, div-add-mod' (d + (s - 1)) s),
)

-- On the grid, to be below the stop is to be below the last round.
below_iff :
    (start stop step v : ℕ)
    → 0 < step
    → start ≤ v
    → (v - start) % step ≡ 0
    → ltb v (start + (stop - start + (step - 1)) / step * step) ≡ ltb v stop
below_iff start stop step v h k e = ground (
  arith,
  rounds_bounds (stop - start) step h,
  div-add-mod' (v - start) step,
  multiples_apart ((v - start) / step) ((stop - start + (step - 1)) / step) step,
)

-- `range` holds exactly the numbers from `start`, below `stop`, at whole steps.
pub contains-range :
    (start stop step v : ℕ)
    → 0 < step
    → contains v (range start stop step) ≡ in_range start stop step v
unfolding range
contains-range start stop step v h =
    contains-range_count _ start step v h ∙ ground (arith, below_iff start stop step v h)
