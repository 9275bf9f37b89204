-- ===== src/Verification/Decision.antt =====
-- Which addresses may sign up.
use bolodb.Prelude.{
  ◌≡◌, ◌↔◌, ◌∙◌, ℕ, ◌+◌, String, leb, ◌==◌, arith, refl, Bool, true, false, not, ◌&&◌, ◌||◌, [],
  ◌∷◌, Option, none, some, is_empty, if◌then◌else◌, inl, inr, Bool-cases,
}
use bolodb.Text.{Text, codes, strip, lower, eq_text}
use bolodb.Verification.{
  Value, boolean, text, truthy, Reply, to_bool, or_text, judge, status_of, with_reply, has_key,
  verify_email,
}

-- The character, in either case where it is a small letter.
abbrev pub either_case : ℕ → ℕ → Bool
either_case w c = c == w || (leb b'A' c && leb c b'Z' && c + 32 == w)

-- The text is the word, in whatever case.
abbrev pub same_word : Text → Text → Bool
same_word [] [] = true
same_word [] (c ∷ t) = false
same_word (w ∷ word) [] = false
same_word (w ∷ word) (c ∷ t) = either_case w c && same_word word t

-- The text says the word, in whatever case and between white space.
abbrev pub says : String → Text → Bool
says word t = same_word (codes word) (strip t)

-- A flag of the reply that is set: the Boolean, one of the words "true", "1" and "yes", or any other value
-- that Python takes for true.
abbrev pub is_set : Value → Bool
is_set (boolean b) = b
is_set (text t) = says "true" t || says "1" t || says "yes" t
is_set (truthy b) = b

-- What the service says of an address that may sign up.
abbrev pub deliverable : Reply → Bool
deliverable r =
    not (is_set r.disposable_domain)
    && not (says "invalid" r.status)
    && not (says "unknown" r.status)
    && (says "valid" r.status || says "catch_all" r.status || is_set r.catch_all)

abbrev no_capitals : Text → Bool
no_capitals [] = true
no_capitals (w ∷ word) = not (leb b'A' w && leb w b'Z') && no_capitals word

eq_text-lower :
    (word t : Text) → no_capitals word ≡ true → eq_text (lower t) word ≡ same_word word t
unfolding eq_text lower
eq_text-lower [] [] h = refl
eq_text-lower [] (c ∷ t) h = refl
eq_text-lower (w ∷ word) [] h = refl
eq_text-lower (w ∷ word) (c ∷ t) h = ground (arith, eq_text-lower word t)

to_bool-is_set : (v : Value) → to_bool v ≡ is_set v
unfolding to_bool
to_bool-is_set (boolean b) = refl
to_bool-is_set (truthy b) = refl
to_bool-is_set (text t) =
    rw
      (
        eq_text-lower (codes "true") (strip t) refl,
        eq_text-lower (codes "1") (strip t) refl,
        eq_text-lower (codes "yes") (strip t) refl,
      )
      refl

-- The service is asked and answers, or it is not.
abbrev pub consulted : Option Text → Option Reply → Option Reply
consulted key none = none
consulted key (some r) = if has_key key then some r else none

abbrev pub allowed_by : Option Reply → Bool
allowed_by none = true
allowed_by (some r) = deliverable r

or_text-is_empty :
    (t fallback : Text) → is_empty fallback ≡ false → is_empty (or_text t fallback) ≡ false
or_text-is_empty [] fallback h = h
or_text-is_empty (c ∷ t) fallback h = refl

-- An allowed or blocked address, with a reason exactly when it is blocked.
judge_lem :
    (status diagnosis : Text) (disposable catch_all : Bool)
    → let o = judge status disposable catch_all diagnosis in
      (o.allowed ≡ (
        not disposable
        && not (eq_text status (codes "invalid") || eq_text status (codes "unknown"))
        && (eq_text status (codes "valid") || eq_text status (codes "catch_all") || catch_all)))
      × (o.skipped ≡ false)
      × (is_empty o.reason ≡ o.allowed)
unfolding judge
judge_lem status diagnosis disposable catch_all = elim (Bool-cases disposable) [
  | inl thrown_away ↦ rw thrown_away (refl, refl, refl)
  | inr kept ↦ elim (Bool-cases (eq_text status (codes "invalid"))) [
    | inl bad ↦
        rw (kept, bad)
          (
            refl,
            refl,
            or_text-is_empty diagnosis (codes "This email address doesn't appear to exist.") refl,
          )
    | inr not_bad ↦ elim (Bool-cases (eq_text status (codes "unknown"))) [
      | inl unsure ↦ rw (kept, not_bad, unsure) (refl, refl, refl)
      | inr sure ↦
          elim (Bool-cases
            (eq_text status (codes "valid") || eq_text status (codes "catch_all") || catch_all)) [
              | inl good ↦ rw (kept, not_bad, sure, good) (refl, refl, refl)
              | inr strange ↦ rw (kept, not_bad, sure, strange) (refl, refl, refl)
            ]
    ]
  ]
]

-- The words and flags of the reply, as they are read.
read_lem :
    (r : Reply)
    → (not (to_bool r.disposable_domain)
        && not (eq_text (status_of r) (codes "invalid") || eq_text (status_of r) (codes "unknown"))
        && (eq_text (status_of r) (codes "valid")
            || eq_text (status_of r) (codes "catch_all")
            || to_bool r.catch_all))
      ≡ deliverable r
read_lem r = ground (
  arith,
  to_bool-is_set r.disposable_domain,
  to_bool-is_set r.catch_all,
  eq_text-lower (codes "invalid") (strip r.status) refl,
  eq_text-lower (codes "unknown") (strip r.status) refl,
  eq_text-lower (codes "valid") (strip r.status) refl,
  eq_text-lower (codes "catch_all") (strip r.status) refl,
)

with_reply_lem :
    (reply : Option Reply)
    → let o = with_reply reply in
      (o.allowed ≡ allowed_by reply)
      × ((o.skipped ≡ true) ↔ (reply ≡ none))
      × (o.allowed ≡ false → is_empty o.reason ≡ false)
unfolding with_reply
with_reply_lem none = (refl, (λ e. refl, λ e. refl), λ e. absurd (cc e))
with_reply_lem (some r) =
    let (judged, asked, reasons) =
      judge_lem (status_of r) r.diagnosis (to_bool r.disposable_domain) (to_bool r.catch_all) in
    (judged ∙ read_lem r, (λ e. absurd (cc (e, asked)), λ e. absurd (cc e)), λ e. cc (reasons, e))

-- An address may sign up when the service is not asked or does not answer, which is marked as skipped,
-- and otherwise exactly when its domain is not flagged as disposable, its status is neither "invalid"
-- nor "unknown", and its status or the service's flag says that it is valid or a catch-all; the status
-- is read in whatever case and between white space, and so are the words "true", "1" and "yes" of a
-- flag. Whoever is blocked is given a reason.
pub verify_email-allowed :
    (api_key : Option Text) (reply : Option Reply)
    → let o = verify_email api_key reply in
      (o.allowed ≡ allowed_by (consulted api_key reply))
      × ((o.skipped ≡ true) ↔ (consulted api_key reply ≡ none))
      × (o.allowed ≡ false → is_empty o.reason ≡ false)
unfolding verify_email
verify_email-allowed api_key none = elim (Bool-cases (has_key api_key)) [
  | inl asked ↦ rw asked (with_reply_lem none)
  | inr no_key ↦ rw no_key (refl, (λ e. refl, λ e. refl), λ e. absurd (cc e))
]
verify_email-allowed api_key (some r) = elim (Bool-cases (has_key api_key)) [
  | inl asked ↦ rw asked (with_reply_lem (some r))
  | inr no_key ↦ rw no_key (refl, (λ e. refl, λ e. refl), λ e. absurd (cc e))
]
