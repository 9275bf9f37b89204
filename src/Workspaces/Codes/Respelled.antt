-- ===== src/Workspaces/Codes/Respelled.antt =====
-- Other spellings of a text: separators put in or left out, and capitals written small.
use mathlib.Core.List.{reverse, reverse-cons, reverse-reverse}
use bolodb.Prelude.{
  ℕ, ◌+◌, ◌≤◌, ◌||◌, inl, inr, Bool-cases, ◌≡◌, refl, ap, sym, ◌∙◌, Bool, true, false, [], ◌∷◌,
  ◌++◌, arith, ◌==◌,
}
use bolodb.Text.{Text, strip, lstrip, is_space, upper, upper_code}
use bolodb.Workspaces.Codes.{squeezed, compact_of}

pub append_nil : (t : Text) → t ++ [] ≡ t
append_nil [] = refl
append_nil (c ∷ t) = ap (λ k. c ∷ k) (append_nil t)

pub lstrip-first : (c : ℕ) (t : Text) → is_space c ≡ false → lstrip (c ∷ t) ≡ c ∷ t
unfolding lstrip
lstrip-first c t h = rw h refl

-- A separator: a hyphen or white space.
abbrev pub separates : ℕ → Bool
separates c = is_space c || c == b'-'

-- The small letter of a capital one.
abbrev pub SmallOf : ℕ → ℕ → Type 0
SmallOf c x = (b'A' ≤ x) × (x ≤ b'Z') × (c ≡ x + 32)

-- A text that differs from another one in separators, and in capitals that are written small.
pub data Respelled : Text → Text → Type 0 where
  ends : Respelled [] []
  extra : (c : ℕ) (s t : Text) → separates c ≡ true → Respelled s t → Respelled (c ∷ s) t
  left_out : (x : ℕ) (s t : Text) → separates x ≡ true → Respelled s t → Respelled s (x ∷ t)
  letter : (c : ℕ) (s t : Text) → Respelled s t → Respelled (c ∷ s) (c ∷ t)
  small_letter : (c x : ℕ) (s t : Text) → SmallOf c x → Respelled s t → Respelled (c ∷ s) (x ∷ t)

-- A letter separates nothing, in either case.
letter_lem :
    (c x : ℕ)
    → SmallOf c x
    → (separates c ≡ false) × (separates x ≡ false) × (upper_code c ≡ upper_code x)
unfolding is_space
letter_lem c x h = (ground (arith, h), ground (arith, h), ground (arith, h))

squeezed-Respelled : (s t : Text) → Respelled s t → upper (squeezed s) ≡ upper (squeezed t)
unfolding squeezed upper
squeezed-Respelled s t ends = refl
squeezed-Respelled s t (extra c s' t' h r) = rw h (squeezed-Respelled s' t r)
squeezed-Respelled s t (left_out x s' t' h r) = rw h (squeezed-Respelled s t' r)
squeezed-Respelled s t (letter c s' t' r) = elim (Bool-cases (separates c)) [
  | inl gone ↦ rw gone (squeezed-Respelled s' t' r)
  | inr kept ↦ rw kept (ap (λ k. upper_code c ∷ k) (squeezed-Respelled s' t' r))
]
squeezed-Respelled s t (small_letter c x s' t' h r) =
    let (plain_c, plain_x, alike) = letter_lem c x h in
    rw (plain_c, plain_x, alike) (ap (λ k. upper_code x ∷ k) (squeezed-Respelled s' t' r))

squeezed-append : (s t : Text) → squeezed (s ++ t) ≡ squeezed s ++ squeezed t
unfolding squeezed
squeezed-append [] t = refl
squeezed-append (c ∷ s) t = elim (Bool-cases (separates c)) [
  | inl gone ↦ rw gone (squeezed-append s t)
  | inr kept ↦ rw kept (ap (λ k. c ∷ k) (squeezed-append s t))
]

squeezed-reverse : (s : Text) → squeezed (reverse s) ≡ reverse (squeezed s)
unfolding squeezed
squeezed-reverse [] = refl
squeezed-reverse (c ∷ s) =
    ap squeezed (reverse-cons c s)
    ∙ squeezed-append (reverse s) (c ∷ [])
    ∙ elim (Bool-cases (separates c)) [
      | inl gone ↦ rw gone (append_nil (squeezed (reverse s)) ∙ squeezed-reverse s)
      | inr kept ↦
          rw kept (ap (λ k. k ++ c ∷ []) (squeezed-reverse s) ∙ sym (reverse-cons c (squeezed s)))
    ]

squeezed-lstrip : (s : Text) → squeezed (lstrip s) ≡ squeezed s
unfolding squeezed lstrip
squeezed-lstrip [] = refl
squeezed-lstrip (c ∷ s) = elim (Bool-cases (is_space c)) [
  | inl space ↦ rw space (squeezed-lstrip s)
  | inr kept ↦ ap squeezed (lstrip-first c s kept)
]

-- Stripping takes only what squeezing takes.
squeezed-strip : (s : Text) → squeezed (strip s) ≡ squeezed s
unfolding strip
squeezed-strip s =
    squeezed-reverse (lstrip (reverse (lstrip s)))
    ∙ ap reverse (squeezed-lstrip (reverse (lstrip s)) ∙ squeezed-reverse (lstrip s))
    ∙ reverse-reverse (squeezed (lstrip s))
    ∙ squeezed-lstrip s

pub compact_of-Respelled : (s t : Text) → Respelled s t → compact_of s ≡ compact_of t
unfolding compact_of
compact_of-Respelled s t r =
    ap upper (squeezed-strip s) ∙ squeezed-Respelled s t r ∙ sym (ap upper (squeezed-strip t))
