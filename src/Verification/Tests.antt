-- ===== src/Verification/Tests.antt =====
-- The theorem about sign-ups at a concrete reply.
use bolodb.Prelude.{◌≡◌, ◌↔◌, true, false, some, none, [], is_empty}
use bolodb.Text.{codes}
use bolodb.Verification.{Reply, boolean, text, verify_email}
use bolodb.Verification.Decision.{allowed_by, consulted, verify_email-allowed}

abbrev reply : Reply
reply = record {
  status = codes " Catch_All ";
  disposable_domain = text (codes "False");
  catch_all = boolean true;
  diagnosis = [];
}

verify_email-allowed_example :
    let o = verify_email (some (codes "key")) (some reply) in
    (o.allowed ≡ allowed_by (consulted (some (codes "key")) (some reply)))
    × ((o.skipped ≡ true) ↔ (consulted (some (codes "key")) (some reply) ≡ none))
    × (o.allowed ≡ false → is_empty o.reason ≡ false)
verify_email-allowed_example = verify_email-allowed (some (codes "key")) (some reply)
