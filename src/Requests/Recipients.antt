-- ===== src/Requests/Recipients.antt =====
-- The list of recipients that a request is left with.
use bolodb.Prelude.{
  ◌≤◌, ◌≡◌, refl, subst, true, false, ◌||◌, List, [], ◌∷◌, ◌++◌, arith, length, ltb, is_empty,
  if◌then◌else◌, All, All-append, inl, inr, Bool-cases, ok, >>=-eq-ok,
}
use bolodb.Text.{Text, strip, lower, eq_text}
use bolodb.Text.Equality.{eq_of_eq_text}
use bolodb.Requests.{
  is_address, mem_address, add_recipients, at_most_max, max_recipients, normalize_recipients,
}

-- The addresses of a list of candidates, trimmed and in lower case, without the blank ones.
abbrev pub normalised : List Text → List Text
normalised [] = []
normalised (candidate ∷ rest) =
    let others = normalised rest in
    if is_empty (lower (strip candidate)) then others else lower (strip candidate) ∷ others

-- No address is in the list twice: each is new after those before it.
abbrev pub NoRepeats : List Text → Type 0
NoRepeats [] = Unit
NoRepeats (a ∷ rest) = (mem_address a rest ≡ false) × NoRepeats rest

abbrev pub IsAddress : Text → Type 0
IsAddress a = is_address a ≡ true

mem_address-append :
    (a : Text) (xs ys : List Text)
    → mem_address a (xs ++ ys) ≡ (mem_address a xs || mem_address a ys)
unfolding mem_address
mem_address-append a [] ys = refl
mem_address-append a (x ∷ xs) ys = ground (arith, mem_address-append a xs ys)

mem_address-eq :
    (a b : Text) (xs : List Text)
    → eq_text b a ≡ true
    → mem_address b xs ≡ true
    → mem_address a xs ≡ true
mem_address-eq a b xs e h = subst (λ (t : Text). mem_address t xs ≡ true) (eq_of_eq_text b a e) h

eq_text_sym : (s t : Text) → eq_text s t ≡ eq_text t s
unfolding eq_text
eq_text_sym [] [] = refl
eq_text_sym [] (d ∷ t) = refl
eq_text_sym (c ∷ s) [] = refl
eq_text_sym (c ∷ s) (d ∷ t) = ground (arith, eq_text_sym s t)

NoRepeats-append :
    (xs : List Text) (a : Text) → NoRepeats xs → mem_address a xs ≡ false → NoRepeats (xs ++ a ∷ [])
unfolding mem_address
NoRepeats-append [] a h fresh = (refl, tt)
NoRepeats-append (x ∷ xs) a h fresh = (
  ground (arith, mem_address-append x xs (a ∷ []), eq_text_sym a x, h.0),
  NoRepeats-append xs a h.1 (ground arith),
)

-- What the loop makes of the candidates, on top of what it has put out.
abbrev Extends : List Text → List Text → List Text → Type 0
Extends candidates before after =
    All IsAddress after
    × NoRepeats after
    × ((a : Text)
        → mem_address a after ≡ (mem_address a before || mem_address a (normalised candidates)))

add_recipients-Extends :
    (candidates before after : List Text)
    → All IsAddress before
    → NoRepeats before
    → add_recipients candidates before ≡ ok after
    → Extends candidates before after
unfolding add_recipients mem_address
add_recipients-Extends [] before after valid distinct e =
    let same : before ≡ after = cc e in
    subst (λ (out : List Text). Extends [] before out) same (valid, distinct, λ a. ground arith)
add_recipients-Extends (candidate ∷ rest) before after valid distinct e =
    let address = lower (strip candidate) in
    elim (Bool-cases (is_empty address)) [
      | inl blank ↦
          rw blank (add_recipients-Extends rest before after valid distinct (rw blank at e))
      | inr given ↦ elim (Bool-cases (is_address address)) [
        | inr no_address ↦ absurd (cc (rw (given, no_address) at e))
        | inl yes_address ↦ elim (Bool-cases (mem_address address before)) [
          | inl seen ↦
              let (addresses, once, members) =
                add_recipients-Extends rest before after valid distinct
                  (rw (given, yes_address, seen) at e) in
              rw given (
                addresses,
                once,
                λ a. ground (arith, members a, mem_address-eq a address before, seen),
              )
          | inr unseen ↦
              let (addresses, once, members) =
                add_recipients-Extends rest (before ++ address ∷ []) after
                  (All-append IsAddress before (address ∷ []) valid (yes_address, tt))
                  (NoRepeats-append before address distinct unseen)
                  (rw (given, yes_address, unseen) at e) in
              rw given (
                addresses,
                once,
                λ a. ground (arith, members a, mem_address-append a before (address ∷ [])),
              )
        ]
      ]
    ]

within_max :
    (out after : List Text)
    → at_most_max out ≡ ok after
    → (out ≡ after) × (length after ≤ max_recipients)
within_max out after e = elim (Bool-cases (ltb max_recipients (length out))) [
  | inl over ↦ absurd (cc (rw over at e))
  | inr within ↦
      let same : out ≡ after = cc (rw within at e) in
      (same, subst (λ (o : List Text). length o ≤ max_recipients) same (ground arith))
]

-- A list that is accepted has addresses only, none of them twice, and at most `max_recipients`; and
-- they are exactly the candidates that are not blank, trimmed and in lower case.
pub normalize_recipients-Extends :
    (raw out : List Text)
    → normalize_recipients raw ≡ ok out
    → All IsAddress out
      × NoRepeats out
      × (length out ≤ max_recipients)
      × ((a : Text) → mem_address a out ≡ mem_address a (normalised raw))
unfolding normalize_recipients mem_address
normalize_recipients-Extends raw out e =
    let (after, added, checked) = >>=-eq-ok (add_recipients raw []) at_most_max e in
    let (same, few) = within_max after out checked in
    let (addresses, once, members) = add_recipients-Extends raw [] out tt tt (cc (added, same)) in
    (addresses, once, few, members)
