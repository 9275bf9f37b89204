-- ===== src/Prelude/Dict.antt =====
-- A Python `dict` with text keys, in insertion order.
use mathlib.Core.Path.{◌≡◌, refl}
use mathlib.Core.Bool.{Bool, false, not, ◌||◌}
use mathlib.Core.Option.{Option, none, some}
use mathlib.Core.List.{List, [], ◌∷◌}
use native.Mathlib.Omega.{arith}
use Prim.Native.String.{String}
use text.Mathlib.Text.{◌==◌ as str_eq}
use text.Mathlib.TextEquality.{eq_iff}
use bolodb.Prelude.Tests.{if◌then◌else◌, is_none}

abbrev pub Dict {ℓ} : Type ℓ → Type ℓ
Dict V = List (String × V)

-- `key in texts`
unfoldable pub mem_text : String → List String → Bool
mem_text key [] = false
mem_text key (t ∷ ts) = str_eq t key || mem_text key ts

module _ {ℓ} {V : Type ℓ} where
  -- `d.get(key)`
  unfoldable pub lookup : String → Dict V → Option V
  lookup key [] = none
  lookup key ((k, v) ∷ d) = if str_eq k key then some v else lookup key d

  -- `key in d`
  abbrev pub has_key : String → Dict V → Bool
  has_key key d = not (is_none (lookup key d))

  -- `d[key] = v`
  unfoldable pub assign : String → V → Dict V → Dict V
  assign key v [] = (key, v) ∷ []
  assign key v ((k, w) ∷ d) = if str_eq k key then (k, v) ∷ d else (k, w) ∷ assign key v d

  -- `d.keys()`
  unfoldable pub keys : Dict V → List String
  keys [] = []
  keys ((k, v) ∷ d) = k ∷ keys d

  pub lookup-assign :
      (key j : String) (v : V) (d : Dict V)
      → lookup j (assign key v d) ≡ (if str_eq key j then some v else lookup j d)
  unfolding lookup assign
  lookup-assign key j v [] = refl
  lookup-assign key j v ((k, w) ∷ d) =
      ground (arith, eq_iff key j, eq_iff k key, eq_iff k j, lookup-assign key j v d)
