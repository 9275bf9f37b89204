-- ===== src/Text/Sets.antt =====
-- Python's `set[str]` as a list of texts, and dictionaries whose keys are texts.
use bolodb.Prelude.{
  ◌≡◌, refl, ap, Bool, true, false, ◌&&◌, ◌||◌, List, [], ◌∷◌, ◌++◌, Option, none, some, arith,
  filter_by, ltb, ◌==◌, if◌then◌else◌, inl, inr, Bool-cases,
}
use bolodb.Text.{Text, eq_text}
use bolodb.Text.Equality.{eq_of_eq_text}

-- `t in ts`
unfoldable pub has_text : Text → List Text → Bool
has_text t [] = false
has_text t (u ∷ ts) = eq_text u t || has_text t ts

-- `set(ts)`, listed once per member.
unfoldable pub set_of : List Text → List Text
set_of [] = []
set_of (t ∷ ts) = let rest = set_of ts in if has_text t rest then rest else t ∷ rest

-- `xs | ys`
abbrev pub union : List Text → List Text → List Text
union xs ys = set_of (xs ++ ys)

-- `xs & ys`
abbrev pub common : List Text → List Text → List Text
common xs ys = filter_by (λ t. has_text t xs) ys

-- `s < t`, by code points.
unfoldable pub text_before : Text → Text → Bool
text_before [] [] = false
text_before [] (d ∷ t) = true
text_before (c ∷ s) [] = false
text_before (c ∷ s) (d ∷ t) = ltb c d || (c == d && text_before s t)

module _ {ℓ} {V : Type ℓ} where
  -- `d.get(key)`
  unfoldable pub entry_at : Text → List (Text × V) → Option V
  entry_at key [] = none
  entry_at key ((k, v) ∷ d) = let later = entry_at key d in if eq_text k key then some v else later

  -- `d[key] = v`
  unfoldable pub put_entry : Text → V → List (Text × V) → List (Text × V)
  put_entry key v [] = (key, v) ∷ []
  put_entry key v ((k, w) ∷ d) =
      let later = put_entry key v d in if eq_text k key then (k, v) ∷ d else (k, w) ∷ later

  -- `list(d.keys())`
  unfoldable pub names : List (Text × V) → List Text
  names [] = []
  names ((k, v) ∷ d) = k ∷ names d

pub eq_text_self : (t : Text) → eq_text t t ≡ true
unfolding eq_text
eq_text_self [] = refl
eq_text_self (c ∷ t) = ground (arith, eq_text_self t)

pub eq_text_sym : (s t : Text) → eq_text s t ≡ eq_text t s
unfolding eq_text
eq_text_sym [] [] = refl
eq_text_sym [] (d ∷ t) = refl
eq_text_sym (c ∷ s) [] = refl
eq_text_sym (c ∷ s) (d ∷ t) = ground (arith, eq_text_sym s t)

-- Equal texts are the same members.
pub has_text-eq : (s t : Text) (ts : List Text) → eq_text s t ≡ true → has_text s ts ≡ has_text t ts
has_text-eq s t ts e = ap (λ k. has_text k ts) (eq_of_eq_text s t e)

pub has_text-append :
    (t : Text) (xs ys : List Text) → has_text t (xs ++ ys) ≡ (has_text t xs || has_text t ys)
unfolding has_text
has_text-append t [] ys = refl
has_text-append t (x ∷ xs) ys = ground (arith, has_text-append t xs ys)

pub has_text-filter_by :
    (p : Text → Bool) (t : Text) (ts : List Text)
    → has_text t (filter_by p ts) ≡ true
    → (has_text t ts ≡ true) × (p t ≡ true)
unfolding has_text filter_by
has_text-filter_by p t [] h = absurd (cc h)
has_text-filter_by p t (u ∷ ts) h = elim (Bool-cases (eq_text u t)) [
  | inl e ↦
      let same = eq_of_eq_text u t e in
      elim (Bool-cases (p u)) [
        | inl kept ↦ (rw e refl, cc (ap p same, kept))
        | inr dropped ↦
            let later = has_text-filter_by p t ts (rw dropped at h) in (rw e refl, later.1)
      ]
  | inr e ↦ elim (Bool-cases (p u)) [
    | inl kept ↦
        let later = has_text-filter_by p t ts (rw (kept, e) at h) in (rw e later.0, later.1)
    | inr dropped ↦
        let later = has_text-filter_by p t ts (rw dropped at h) in (rw e later.0, later.1)
  ]
]
