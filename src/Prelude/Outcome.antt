-- ===== src/Prelude/Outcome.antt =====
-- A call that returns or raises: `ok a` is the value returned, `err e` the exception.
use mathlib.Core.Path.{◌≡◌, refl}
use mathlib.Core.Bool.{Bool, true, false}

pub data Result {ℓ} (Raised Returned : Type ℓ) : Type ℓ where
  err : Raised → Result Raised Returned
  ok : Returned → Result Raised Returned

module _ {ℓ} {X A B : Type ℓ} where
  -- The next call, unless this one raises.
  infixl 5 ◌>>=◌
  abbrev pub ◌>>=◌ : Result X A → (A → Result X B) → Result X B
  err raised >>= next = err raised
  ok value >>= next = next value

  pub >>=-eq-ok :
      (first : Result X A) (next : A → Result X B) {b : B}
      → (first >>= next) ≡ ok b
      → (a : A) × (first ≡ ok a) × (next a ≡ ok b)
  >>=-eq-ok (err raised) next h = cc
  >>=-eq-ok (ok value) next h = (value, refl, h)

module _ {ℓ} {X A : Type ℓ} where
  abbrev pub is_ok : Result X A → Bool
  is_ok (err raised) = false
  is_ok (ok value) = true

  -- `try: return call` with a fallback for the exception.
  abbrev pub ok_or : Result X A → A → A
  ok_or (err raised) fallback = fallback
  ok_or (ok value) fallback = value
