-- ===== src/Verification.antt =====
-- `verify_email` of backend/app/services/email_verification.py. The key comes from the environment and
-- the reply from an external service: both are arguments, `none` where there is no key, and where the
-- call fails.
pub mod Decision
mod Tests
use bolodb.Prelude.{
  ℕ, Bool, true, false, not, ◌&&◌, ◌||◌, List, [], ◌∷◌, Option, none, some, is_empty, if◌then◌else◌,
}
use bolodb.Text.{Text, codes, strip, lower, eq_text}

-- A JSON value, as far as `_to_bool` looks at it.
pub data Value : Type 0 where
  boolean : Bool → Value
  text : Text → Value
  truthy : Bool → Value

-- The fields of the reply; a status that is missing is the empty text.
pub record Reply : Type 0 where
  pub status : Text
  pub disposable_domain : Value
  pub catch_all : Value
  pub diagnosis : Text

pub record EmailVerificationOutcome : Type 0 where
  pub allowed : Bool
  pub status : Text
  pub reason : Text
  pub disposable : Bool
  pub catch_all : Bool
  pub skipped : Bool

-- `_to_bool`
unfoldable pub to_bool : Value → Bool
to_bool (boolean b) = b
to_bool (text t) =
    let word = lower (strip t) in
    eq_text word (codes "true") || eq_text word (codes "1") || eq_text word (codes "yes")
to_bool (truthy b) = b

abbrev pub or_text : Text → Text → Text
or_text [] fallback = fallback
or_text (c ∷ t) fallback = c ∷ t

abbrev skipped_as : Text → Text → EmailVerificationOutcome
skipped_as status reason = record {
  allowed = true;
  status = status;
  reason = reason;
  disposable = false;
  catch_all = false;
  skipped = true;
}

abbrev blocked : Text → Text → Bool → Bool → EmailVerificationOutcome
blocked status reason disposable catch_all = record {
  allowed = false;
  status = status;
  reason = reason;
  disposable = disposable;
  catch_all = catch_all;
  skipped = false;
}

abbrev passed_as : Text → Bool → EmailVerificationOutcome
passed_as status catch_all = record {
  allowed = true;
  status = status;
  reason = [];
  disposable = false;
  catch_all = catch_all;
  skipped = false;
}

abbrev could_not_verify : Text
could_not_verify = codes "We couldn't verify this email address. Please try a different one."

-- What is decided of the status, lower-cased, and of the two flags.
unfoldable pub judge : Text → Bool → Bool → Text → EmailVerificationOutcome
judge status disposable catch_all diagnosis =
    if disposable
    then blocked (or_text status (codes "disposable"))
        (codes "Please use a permanent email address (disposable domains are not allowed).") true
        catch_all
    else if eq_text status (codes "invalid")
    then blocked status (or_text diagnosis (codes "This email address doesn't appear to exist."))
        false catch_all
    else if eq_text status (codes "unknown")
    then blocked status could_not_verify false catch_all
    else if eq_text status (codes "valid") || eq_text status (codes "catch_all") || catch_all
    then passed_as (or_text status (if catch_all then codes "catch_all" else codes "valid"))
        catch_all
    else blocked (or_text status (codes "unrecognized")) could_not_verify false catch_all

abbrev pub status_of : Reply → Text
status_of r = lower (strip r.status)

unfoldable pub with_reply : Option Reply → EmailVerificationOutcome
with_reply none = skipped_as (codes "error") (codes "Verification service unavailable")
with_reply (some r) =
    judge (status_of r) (to_bool r.disposable_domain) (to_bool r.catch_all) r.diagnosis

abbrev pub has_key : Option Text → Bool
has_key none = false
has_key (some key) = not (is_empty key)

-- `verify_email`, on the key and on what the service would reply.
unfoldable pub verify_email : Option Text → Option Reply → EmailVerificationOutcome
verify_email api_key reply =
    if has_key api_key
    then with_reply reply
    else skipped_as (codes "skipped") (codes "Verification service not configured")
