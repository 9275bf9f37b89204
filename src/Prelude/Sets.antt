-- ===== src/Prelude/Sets.antt =====
-- Python's `set[int]` as a list: `in`, `|`, `range` and `sorted`.
use Prim.Native.Nat.{ℕ, ◌<◌}
use mathlib.Core.Path.{◌≡◌, refl}
use mathlib.Core.Logic.{inl, inr}
use mathlib.Core.Bool.{Bool, true, false, ◌||◌}
use mathlib.Core.List.{List, [], ◌∷◌, ◌++◌}
use native.Mathlib.Omega.{arith}
use bolodb.Prelude.Tests.{ltb, ◌==◌, ==_iff, if◌then◌else◌, Bool-cases}
use bolodb.Prelude.Lists.{All}

-- `n in xs`
unfoldable pub contains : ℕ → List ℕ → Bool
contains n [] = false
contains n (x ∷ xs) = n == x || contains n xs

-- `sorted(xs)`
unfoldable pub insert_sorted : ℕ → List ℕ → List ℕ
insert_sorted n [] = n ∷ []
insert_sorted n (x ∷ xs) =
    let rest = insert_sorted n xs in
    if ltb n x then n ∷ x ∷ xs else if n == x then x ∷ xs else x ∷ rest

-- A set is listed once per member, so `sorted` of it is strictly increasing.
unfoldable pub sorted : List ℕ → List ℕ
unfolding insert_sorted
sorted [] = []
sorted (x ∷ xs) = insert_sorted x (sorted xs)

-- `xs - {n}`
unfoldable pub remove : ℕ → List ℕ → List ℕ
remove n [] = []
remove n (x ∷ xs) = let rest = remove n xs in if n == x then rest else x ∷ rest

-- Every member is above `n`.
abbrev pub Above : ℕ → List ℕ → Type 0
Above n = All (λ x. n < x)

abbrev pub IsIncreasing : List ℕ → Type 0
IsIncreasing [] = Unit
IsIncreasing (x ∷ xs) = Above x xs × IsIncreasing xs

pub contains-append :
    (n : ℕ) (xs ys : List ℕ) → contains n (xs ++ ys) ≡ (contains n xs || contains n ys)
unfolding contains
contains-append n [] ys = refl
contains-append n (x ∷ xs) ys = ground (arith, contains-append n xs ys)

pub contains-remove :
    (n m : ℕ) (xs : List ℕ) → contains n (remove m xs) ≡ (if n == m then false else contains n xs)
unfolding contains remove
contains-remove n m [] = ground arith
contains-remove n m (x ∷ xs) = ground (arith, contains-remove n m xs)

pub contains-insert_sorted :
    (n m : ℕ) (xs : List ℕ) → contains n (insert_sorted m xs) ≡ (n == m || contains n xs)
unfolding contains insert_sorted
contains-insert_sorted n m [] = refl
contains-insert_sorted n m (x ∷ xs) = ground (arith, contains-insert_sorted n m xs)

-- Sorting keeps the members.
pub contains-sorted : (n : ℕ) (xs : List ℕ) → contains n (sorted xs) ≡ contains n xs
unfolding sorted contains
contains-sorted n [] = refl
contains-sorted n (x ∷ xs) =
    ground (arith, contains-sorted n xs, contains-insert_sorted n x (sorted xs))

Above-mono : (a b : ℕ) (xs : List ℕ) → a < b → Above b xs → Above a xs
Above-mono a b [] h k = tt
Above-mono a b (x ∷ xs) h k = (omega arith, Above-mono a b xs h k.1)

insert_sorted-Above : (a n : ℕ) (xs : List ℕ) → a < n → Above a xs → Above a (insert_sorted n xs)
unfolding insert_sorted
insert_sorted-Above a n [] h k = (h, tt)
insert_sorted-Above a n (x ∷ xs) h k = ground (arith, insert_sorted-Above a n xs h k.1)

insert_sorted-IsIncreasing :
    (n : ℕ) (xs : List ℕ) → IsIncreasing xs → IsIncreasing (insert_sorted n xs)
unfolding insert_sorted
insert_sorted-IsIncreasing n [] h = (tt, tt)
insert_sorted-IsIncreasing n (x ∷ xs) h =
    ground
      (arith, Above-mono n x xs, insert_sorted-Above x n xs, insert_sorted-IsIncreasing n xs h.1)

pub sorted-IsIncreasing : (xs : List ℕ) → IsIncreasing (sorted xs)
unfolding sorted
sorted-IsIncreasing [] = tt
sorted-IsIncreasing (x ∷ xs) = insert_sorted-IsIncreasing x (sorted xs) (sorted-IsIncreasing xs)

-- A member of an increasing list that is above `a` in all members is above `a`.
pub lt_of_Above : (a n : ℕ) (xs : List ℕ) → Above a xs → contains n xs ≡ true → a < n
unfolding contains
lt_of_Above a n [] h m = absurd (cc m)
lt_of_Above a n (x ∷ xs) h m = ground (arith, lt_of_Above a n xs h.1)

-- A bound on every member, in terms of `contains`.
module _ {ℓ} (P : ℕ → Type ℓ) where
  pub of_contains : (n : ℕ) (xs : List ℕ) → All P xs → contains n xs ≡ true → P n
  unfolding contains
  of_contains n [] h m = absurd (cc m)
  of_contains n (x ∷ xs) h m = elim (Bool-cases (n == x)) [
    | inl e ↦ rw ((==_iff n x).0 e) h.0
    | inr e ↦ of_contains n xs h.1 (rw e at m)
  ]
