-- ===== src/Otp/Guesses.antt =====
-- What a code answers to a sequence of guesses.
use bolodb.Prelude.{
  ℕ, ◌+◌, ◌≡◌, refl, ap, Bool, true, false, not, ◌&&◌, List, [], ◌∷◌, ◌++◌, arith, filter_by,
  length, leb, ltb, min, String, str_eq, eq_iff, if◌then◌else◌, All, inl, inr, Bool-cases,
}
use bolodb.Prelude.Rows.{update_rows}
use bolodb.Datetime.{Datetime, before}
use bolodb.Otp.{
  OtpCode, OtpTable, is_for, is_open, after_ttl, delete_otp_for_user, issued, create_otp,
  with_attempt, spent, has_otp_id, max_otp_attempts, verify_row, verify_otp,
}

str_eq_refl : (s : String) → str_eq s s ≡ true
str_eq_refl s = (eq_iff s s).1 refl

update_one :
    (r : OtpCode) → update_rows (has_otp_id r.id) with_attempt (r ∷ []) ≡ with_attempt r ∷ []
unfolding update_rows
update_one r = ground arith

none_left : (r : OtpCode) → filter_by (λ q. not (has_otp_id r.id q)) (r ∷ []) ≡ []
unfolding filter_by
none_left r = ground arith

module _ (user_id purpose : String) where
  opens : List OtpCode → List OtpCode
  opens rows = filter_by (is_open user_id purpose) rows

  -- A wrong guess keeps the open rows open.
  opens-with_attempt :
      (id : ℕ) (rows : List OtpCode)
      → opens (update_rows (has_otp_id id) with_attempt rows)
        ≡ update_rows (has_otp_id id) with_attempt (opens rows)
  unfolding opens filter_by update_rows
  opens-with_attempt id [] = refl
  opens-with_attempt id (r ∷ rows) = ground (arith, opens-with_attempt id rows)

  abbrev unlike : ℕ → OtpCode → Bool
  unlike id r = not (has_otp_id id r)

  -- A right guess closes the rows that it marks.
  opens-spent :
      (id : ℕ) (rows : List OtpCode)
      → opens (update_rows (λ q. has_otp_id id q && not q.used) spent rows)
        ≡ filter_by (unlike id) (opens rows)
  unfolding opens filter_by update_rows
  opens-spent id [] = refl
  opens-spent id (r ∷ rows) = ground (arith, opens-spent id rows)

  opens-append : (rows others : List OtpCode) → opens (rows ++ others) ≡ opens rows ++ opens others
  unfolding opens filter_by
  opens-append [] others = refl
  opens-append (r ∷ rows) others = ground (arith, opens-append rows others)

  opens-deleted :
      (rows : List OtpCode) → opens (filter_by (λ r. not (is_for user_id purpose r)) rows) ≡ []
  unfolding opens filter_by
  opens-deleted [] = refl
  opens-deleted (r ∷ rows) = ground (arith, opens-deleted rows)

  module _ (hash_code : String → String) where
    opens-create_otp :
        (now : Datetime) (code : String) (t : OtpTable)
        → opens (create_otp hash_code now user_id purpose code t).rows
          ≡ issued hash_code now user_id purpose code t.next_id ∷ []
    unfolding create_otp delete_otp_for_user opens filter_by
    opens-create_otp now code t =
        let fresh = issued hash_code now user_id purpose code t.next_id in
        let alone : opens (fresh ∷ []) ≡ fresh ∷ [] =
          rw (str_eq_refl user_id, str_eq_refl purpose) refl in
        let gone : opens (filter_by (λ r. not (is_for user_id purpose r)) t.rows) ≡ [] =
          opens-deleted t.rows in
        rw
          (
            opens-append (filter_by (λ r. not (is_for user_id purpose r)) t.rows) (fresh ∷ []),
            gone,
            alone,
          )
          refl

    abbrev verify : Datetime → String → OtpTable → OtpTable × Bool
    verify now code t = verify_otp hash_code now user_id purpose code t

    -- Only the attempts change, up to the limit.
    abbrev after_wrong : OtpCode → OtpCode
    after_wrong r = if leb max_otp_attempts r.attempts then r else with_attempt r

    verify_wrong :
        (now : Datetime) (code : String) (t : OtpTable) (r : OtpCode)
        → opens t.rows ≡ r ∷ []
        → before r.expires_at now ≡ false
        → str_eq r.code_hash (hash_code code) ≡ false
        → (opens (verify now code t).0.rows ≡ after_wrong r ∷ []) × ((verify now code t).1 ≡ false)
    unfolding verify_otp verify_row opens
    verify_wrong now code t r one in_time wrong =
        elim (Bool-cases (leb max_otp_attempts r.attempts)) [
          | inl tired ↦ rw (one, in_time, tired) (one, refl)
          | inr fresh ↦
              rw (one, in_time, fresh, wrong)
                (
                  (cc (
                    opens-with_attempt r.id t.rows,
                    ap (update_rows (has_otp_id r.id) with_attempt) one,
                    update_one r,
                  )),
                  refl,
                )
        ]

    -- The open row after wrong guesses in time: only the attempts have grown.
    abbrev IsWorn : String → Datetime → ℕ → OtpTable → Type 0
    IsWorn code_hash expires_at attempts t =
        (r : OtpCode) × (opens t.rows ≡ r ∷ [])
        × (r.code_hash ≡ code_hash)
        × (r.expires_at ≡ expires_at)
        × (r.attempts ≡ min max_otp_attempts attempts)

    wrong-IsWorn :
        (now : Datetime) (code : String) (t : OtpTable) (code_hash : String) (expires_at : Datetime)
        (attempts : ℕ)
        → IsWorn code_hash expires_at attempts t
        → before expires_at now ≡ false
        → str_eq code_hash (hash_code code) ≡ false
        → IsWorn code_hash expires_at (attempts + 1) (verify now code t).0
    wrong-IsWorn now code t code_hash expires_at attempts (r, one, same_hash, same_time, worn)
          in_time wrong =
        let (one', refused) =
          verify_wrong now code t r one (rw same_time in_time) (rw same_hash wrong) in
        (after_wrong r, one', ground arith, ground arith, ground arith)

    -- The guesses are made one after the other.
    unfoldable pub guess_all : List (Datetime × String) → OtpTable → OtpTable
    guess_all [] t = t
    guess_all ((now, code) ∷ guesses) t =
        guess_all guesses (verify_otp hash_code now user_id purpose code t).0

    -- None of the guesses is answered with yes.
    unfoldable pub AllRefused : List (Datetime × String) → OtpTable → Type 0
    AllRefused [] t = Unit
    AllRefused ((now, code) ∷ guesses) t =
        let (t', answer) = verify_otp hash_code now user_id purpose code t in
        (answer ≡ false) × AllRefused guesses t'

    -- The guess is made in time, and its digest is not that of the code.
    abbrev pub IsWrong : Datetime → String → Datetime × String → Type 0
    IsWrong expires_at code_hash (now, code) =
        (before expires_at now ≡ false) × (str_eq code_hash (hash_code code) ≡ false)

    guess_all-IsWorn :
        (wrong : List (Datetime × String)) (t : OtpTable) (code_hash : String)
        (expires_at : Datetime) (attempts : ℕ)
        → IsWorn code_hash expires_at attempts t
        → All (IsWrong expires_at code_hash) wrong
        → IsWorn code_hash expires_at (attempts + length wrong) (guess_all wrong t)
    unfolding guess_all
    guess_all-IsWorn [] t code_hash expires_at attempts (r, one, same_hash, same_time, worn)
          all_wrong =
        (r, one, same_hash, same_time, omega arith)
    guess_all-IsWorn ((now, code) ∷ wrong) t code_hash expires_at attempts h all_wrong =
        let next =
          wrong-IsWorn now code t code_hash expires_at attempts h all_wrong.0.0 all_wrong.0.1 in
        let (r, one, same_hash, same_time, worn) =
          guess_all-IsWorn wrong (verify now code t).0 code_hash expires_at (attempts + 1) next
            all_wrong.1 in
        (r, one, same_hash, same_time, omega arith)

    closed-AllRefused :
        (guesses : List (Datetime × String)) (t : OtpTable)
        → opens t.rows ≡ []
        → AllRefused guesses t
    unfolding AllRefused verify_otp verify_row opens
    closed-AllRefused [] t none_open = tt
    closed-AllRefused ((now, code) ∷ guesses) t none_open =
        rw none_open (refl, closed-AllRefused guesses t none_open)

    -- A right guess on the only open row.
    verify_right :
        (now : Datetime) (code : String) (t : OtpTable) (r : OtpCode)
        → opens t.rows ≡ r ∷ []
        → str_eq r.code_hash (hash_code code) ≡ true
        → ((verify now code t).1
            ≡ (not (before r.expires_at now) && ltb r.attempts max_otp_attempts))
          × ((verify now code t).1 ≡ true → opens (verify now code t).0.rows ≡ [])
    unfolding verify_otp verify_row opens
    verify_right now code t r one right = elim (Bool-cases (before r.expires_at now)) [
      | inl late ↦ rw (one, late) (refl, λ e. absurd (cc e))
      | inr in_time ↦ elim (Bool-cases (leb max_otp_attempts r.attempts)) [
        | inl tired ↦ rw (one, in_time, tired) (ground arith, λ e. absurd (cc e))
        | inr fresh ↦
            rw (one, in_time, fresh, right)
              (
                ground arith,
                λ e. cc (opens-spent r.id t.rows, ap (filter_by (unlike r.id)) one, none_left r),
              )
      ]
    ]

  -- A code that has been issued, after any number of wrong guesses in time: the right guess is
  -- accepted exactly when it is in time and there were fewer than `max_otp_attempts` of them; and once
  -- it has been accepted, every further guess is refused, the same code included.
  pub verify_otp-create_otp :
      (hash_code : String → String) (now moment : Datetime) (code : String) (t : OtpTable)
      (wrong later : List (Datetime × String))
      → All (IsWrong hash_code (after_ttl now) (hash_code code)) wrong
      → let t' = guess_all hash_code wrong (create_otp hash_code now user_id purpose code t) in
        let (t'', answer) = verify_otp hash_code moment user_id purpose code t' in
        (answer ≡ (not (before (after_ttl now) moment) && ltb (length wrong) max_otp_attempts))
        × (answer ≡ true → AllRefused hash_code later t'')
  verify_otp-create_otp hash_code now moment code t wrong later all_wrong =
      let t' = guess_all hash_code wrong (create_otp hash_code now user_id purpose code t) in
      let start : IsWorn hash_code (hash_code code) (after_ttl now) 0
          (create_otp hash_code now user_id purpose code t) =
        (
          issued hash_code now user_id purpose code t.next_id,
          opens-create_otp hash_code now code t,
          refl,
          refl,
          refl,
        ) in
      let (r, one, same_hash, same_time, worn) =
        guess_all-IsWorn hash_code wrong (create_otp hash_code now user_id purpose code t)
          (hash_code code) (after_ttl now) 0 start all_wrong in
      let (answered, shut) =
        verify_right hash_code moment code t' r one (rw same_hash (str_eq_refl (hash_code code))) in
      (
        rw (answered, same_time, worn) (ground arith),
        λ yes.
            closed-AllRefused hash_code later
              (verify_otp hash_code moment user_id purpose code t').0 (shut yes),
      )
