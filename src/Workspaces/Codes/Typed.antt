-- ===== src/Workspaces/Codes/Typed.antt =====
-- A generated code comes back from whatever spelling of it is typed.
use mathlib.Core.List.{reverse}
use bolodb.Prelude.{
  ℕ, zero, suc, ◌<◌, ◌≡◌, refl, ap, subst, sym, ◌∙◌, Bool, true, false, not, ◌&&◌, List, [], ◌∷◌,
  ◌++◌, arith, map, length, take, ◌==◌, ==_iff, All,
}
use bolodb.Text.{Text, codes, strip, lstrip, is_space, upper, upper_code, eq_text}
use bolodb.Workspaces.Codes.{
  drop, code_of, code_alphabet, at_or_zero, generate_invite_code, squeezed, compact_of, canonical,
  normalize_invite_code,
}
use bolodb.Workspaces.Codes.Respelled.{append_nil, lstrip-first, Respelled, compact_of-Respelled}

-- A character that squeezing and upper case leave alone.
abbrev plain : ℕ → Bool
plain c = not (is_space c) && not (c == b'-') && upper_code c == c

abbrev all_plain : Text → Bool
all_plain [] = true
all_plain (c ∷ t) = plain c && all_plain t

plain-at_or_zero :
    (n : ℕ) (t : Text) → all_plain t ≡ true → n < length t → plain (at_or_zero n t) ≡ true
plain-at_or_zero n [] h b = absurd (omega (arith, b))
plain-at_or_zero zero (c ∷ t) h b = ground arith
plain-at_or_zero (suc n) (c ∷ t) h b = plain-at_or_zero n t (ground arith) (omega (arith, b))

all_plain-alphabet : all_plain code_alphabet ≡ true
unfolding code_alphabet is_space
all_plain-alphabet = refl

all_plain-choices :
    (choices : List ℕ)
    → All (λ n. n < 32) choices
    → all_plain (map (λ n. at_or_zero n code_alphabet) choices) ≡ true
unfolding code_alphabet
all_plain-choices [] h = refl
all_plain-choices (n ∷ choices) h =
    rw (plain-at_or_zero n code_alphabet all_plain-alphabet h.0) (all_plain-choices choices h.1)

-- Plain characters survive the squeezing and the upper case.
upper-squeezed-append :
    (t rest : Text) → all_plain t ≡ true → upper (squeezed (t ++ rest)) ≡ t ++ upper (squeezed rest)
unfolding upper squeezed
upper-squeezed-append [] rest h = refl
upper-squeezed-append (c ∷ t) rest h =
    let space : is_space c ≡ false = ground arith in
    let dash : (c == b'-') ≡ false = ground arith in
    let same : upper_code c ≡ c = (==_iff (upper_code c) c).0 (ground arith) in
    let later = upper-squeezed-append t rest (ground arith) in rw (space, dash) (cc (same, later))

all_plain-take : (n : ℕ) (t : Text) → all_plain t ≡ true → all_plain (take n t) ≡ true
all_plain-take zero t h = refl
all_plain-take (suc n) [] h = refl
all_plain-take (suc n) (c ∷ t) h = ground (arith, all_plain-take n t)

all_plain-drop : (n : ℕ) (t : Text) → all_plain t ≡ true → all_plain (drop n t) ≡ true
all_plain-drop zero t h = h
all_plain-drop (suc n) [] h = refl
all_plain-drop (suc n) (c ∷ t) h = all_plain-drop n t (ground arith)

take-drop : (n : ℕ) (t : Text) → take n t ++ drop n t ≡ t
take-drop zero t = refl
take-drop (suc n) [] = refl
take-drop (suc n) (c ∷ t) = ap (λ k. c ∷ k) (take-drop n t)

upper-squeezed-halves :
    (body : Text)
    → all_plain body ≡ true
    → upper (squeezed (take 4 body ++ b'-' ∷ drop 4 body)) ≡ body
unfolding upper squeezed is_space
upper-squeezed-halves body h =
    upper-squeezed-append (take 4 body) (b'-' ∷ drop 4 body) (all_plain-take 4 body h)
    ∙ ap (λ k. take 4 body ++ upper (squeezed k)) (sym (append_nil (drop 4 body)))
    ∙ ap (λ k. take 4 body ++ k) (upper-squeezed-append (drop 4 body) [] (all_plain-drop 4 body h))
    ∙ ap (λ k. take 4 body ++ k) (append_nil (drop 4 body))
    ∙ take-drop 4 body

squeezed-code_of :
    (body : Text) → all_plain body ≡ true → upper (squeezed (code_of body)) ≡ codes "BOLO" ++ body
unfolding upper squeezed code_of is_space
squeezed-code_of body h = ap (λ k. codes "BOLO" ++ k) (upper-squeezed-halves body h)

-- Eight characters, one by one.
octet : (t : Text) → length t ≡ 8 → (a b c d e f g h : ℕ) × (t ≡ a ∷ b ∷ c ∷ d ∷ e ∷ f ∷ g ∷ h ∷ [])
octet (a ∷ b ∷ c ∷ d ∷ e ∷ f ∷ g ∷ h ∷ []) n = (a, b, c, d, e, f, g, h, refl)
octet _ n = absurd (omega (arith, n))

is_space_B : is_space b'B' ≡ false
unfolding is_space
is_space_B = refl

length-map : (f : ℕ → ℕ) (t : List ℕ) → length (map f t) ≡ length t
length-map f [] = refl
length-map f (n ∷ t) = omega (arith, length-map f t)

strip-octet :
    (a b c d e f g h : ℕ)
    → is_space h ≡ false
    → strip (code_of (a ∷ b ∷ c ∷ d ∷ e ∷ f ∷ g ∷ h ∷ []))
      ≡ code_of (a ∷ b ∷ c ∷ d ∷ e ∷ f ∷ g ∷ h ∷ [])
unfolding strip code_of
strip-octet a b c d e f g h space =
    let dash : ℕ = b'-' in
    let rest : Text = b'O' ∷ b'L' ∷ b'O' ∷ dash ∷ a ∷ b ∷ c ∷ d ∷ dash ∷ e ∷ f ∷ g ∷ h ∷ [] in
    let back : Text = g ∷ f ∷ e ∷ dash ∷ d ∷ c ∷ b ∷ a ∷ dash ∷ b'O' ∷ b'L' ∷ b'O' ∷ b'B' ∷ [] in
    ap (λ k. reverse (lstrip (reverse k))) (lstrip-first b'B' rest is_space_B)
    ∙ ap reverse (lstrip-first h back space)

is_space-plain : (c : ℕ) → all_plain (c ∷ []) ≡ true → is_space c ≡ false
is_space-plain c h = ground arith

strip-code_of :
    (body : Text) → all_plain body ≡ true → length body ≡ 8 → strip (code_of body) ≡ code_of body
strip-code_of body allowed eight =
    let (a, b, c, d, e, f, g, h, same) = octet body eight in
    let last : all_plain (h ∷ []) ≡ true =
      cc (ap (λ t. all_plain (drop 7 t)) same, all_plain-drop 7 body allowed) in
    subst (λ (t : Text). strip (code_of t) ≡ code_of t) (sym same)
      (strip-octet a b c d e f g h (is_space-plain h last))

compact_of-code_of :
    (body : Text)
    → all_plain body ≡ true
    → length body ≡ 8
    → compact_of (code_of body) ≡ codes "BOLO" ++ body
unfolding compact_of
compact_of-code_of body allowed eight =
    rw (strip-code_of body allowed eight) (squeezed-code_of body allowed)

-- What is canonical of a code's compact form.
canonical-compact :
    (body stripped : Text)
    → length body ≡ 8
    → canonical (codes "BOLO" ++ body) stripped ≡ code_of body
unfolding canonical eq_text
canonical-compact body stripped eight = rw eight refl

-- Whatever is typed that differs from a generated code only in white space and hyphens, put in or left
-- out, and in capitals that are written small, is normalised to that code; the choices are eight
-- places of the alphabet.
pub normalize-generate_invite_code :
    (choices : List ℕ) (typed : Text)
    → All (λ n. n < 32) choices
    → length choices ≡ 8
    → Respelled typed (generate_invite_code choices)
    → normalize_invite_code typed ≡ generate_invite_code choices
unfolding normalize_invite_code generate_invite_code
normalize-generate_invite_code choices typed below eight respelled =
    let body = map (λ n. at_or_zero n code_alphabet) choices in
    let long : length body ≡ 8 = cc (length-map (λ n. at_or_zero n code_alphabet) choices, eight) in
    let compact : compact_of typed ≡ codes "BOLO" ++ body =
      compact_of-Respelled typed (code_of body) respelled
      ∙ compact_of-code_of body (all_plain-choices choices below) long in
    rw compact (canonical-compact body (strip typed) long)
