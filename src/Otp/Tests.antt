-- ===== src/Otp/Tests.antt =====
-- The theorem about codes, with the code itself for its digest.
use bolodb.Prelude.{ℕ, ◌≡◌, refl, true, not, ◌&&◌, List, [], ◌∷◌, length, ltb, String}
use bolodb.Datetime.{Datetime, before}
use bolodb.Otp.{OtpTable, after_ttl, create_otp, max_otp_attempts, verify_otp}
use bolodb.Otp.Guesses.{AllRefused, guess_all, verify_otp-create_otp}

abbrev at_minute : ℕ → Datetime
at_minute n = record { minutes = n; micros = 0 }

abbrev no_codes : OtpTable
no_codes = record { rows = []; next_id = 0 }

abbrev plain : String → String
plain code = code

abbrev wrong_guesses : List (Datetime × String)
wrong_guesses = (at_minute 101, "111111") ∷ (at_minute 102, "222222") ∷ []

abbrev after_guesses : OtpTable
after_guesses =
    guess_all "ana" "signup" plain wrong_guesses
      (create_otp plain (at_minute 100) "ana" "signup" "048291" no_codes)

verify_otp-create_otp_example :
    let (t'', answer) = verify_otp plain (at_minute 103) "ana" "signup" "048291" after_guesses in
    (answer ≡ (
      not (before (after_ttl (at_minute 100)) (at_minute 103))
      && ltb (length wrong_guesses) max_otp_attempts))
    × (answer ≡ true → AllRefused "ana" "signup" plain ((at_minute 104, "048291") ∷ []) t'')
verify_otp-create_otp_example =
    verify_otp-create_otp "ana" "signup" plain (at_minute 100) (at_minute 103) "048291" no_codes
      wrong_guesses ((at_minute 104, "048291") ∷ [])
      (unfold before in ((refl, refl), ((refl, refl), tt)))
