-- ===== src/Requests/Tests.antt =====
-- The theorems about requests at concrete payloads.
use bolodb.Prelude.{
  ◌+◌, ◌*◌, ◌≤◌, ◌≡◌, refl, true, false, List, [], ◌∷◌, Option, none, some, length, All, ok,
}
use bolodb.Prelude.Int.{pos}
use bolodb.Text.{Text, codes, strip, split_on, has_char, partition, lower, eq_text, is_space}
use bolodb.Cron.Window.{validate}
use bolodb.Cron.Tests.{parsed, upcoming, early}
use bolodb.Schedules.{Schedule}
use bolodb.Schedules.Tests.{daily}
use bolodb.Requests.{
  Payload, is_address, mem_address, add_recipients, normalize_recipients, max_recipients,
  clean_name, clean_sql, clean_cron, clean_recipients, clean_window, clean_max_rows, condition_of,
  threshold, clean_condition, validate_payload,
}
use bolodb.Requests.Recipients.{IsAddress, NoRepeats, normalised, normalize_recipients-Extends}
use bolodb.Requests.Checks.{IsClean, validate_payload-IsClean}
use bolodb.Requests.Changes.{
  compute_next_run, slot_of, apply, new_row, timed_change, row_change, with_slot,
}
use bolodb.Requests.Slots.{IsSlotted, IsChanged, new_row-IsSlotted, row_change-IsChanged}

abbrev reads : Text → Option Text
reads sql = none

abbrev two_addresses : List Text
two_addresses = codes " Ana@Example.com" ∷ codes "bob@example.org" ∷ codes "ana@example.com" ∷ []

abbrev kept : List Text
kept = codes "ana@example.com" ∷ codes "bob@example.org" ∷ []

normalised-two : normalize_recipients two_addresses ≡ ok kept
unfolding normalize_recipients add_recipients is_address mem_address strip lower eq_text partition
    split_on has_char is_space
normalised-two = refl

normalize_recipients-Extends_example :
    All IsAddress kept
    × NoRepeats kept
    × (length kept ≤ max_recipients)
    × ((a : Text) → mem_address a kept ≡ mem_address a (normalised two_addresses))
normalize_recipients-Extends_example =
    normalize_recipients-Extends two_addresses kept normalised-two

abbrev request : Payload
request = record {
  name = some (codes " Orders ");
  sql = some (codes "SELECT 1");
  cron = some (codes "30 9 * * MON-FRI");
  recipients = some two_addresses;
  starts_at = none;
  ends_at = none;
  is_active = none;
  max_rows = some (some (pos 20));
  send_condition = some (some "row_count_gte");
  condition_value = some (some (pos 3));
}

abbrev clean_request : Payload
clean_request = record request { name = some (codes "Orders"); recipients = some kept }

request_clean : validate_payload reads early false request ≡ ok clean_request
unfolding validate_payload clean_name clean_sql clean_cron clean_recipients clean_window
    clean_max_rows condition_of threshold clean_condition normalize_recipients add_recipients
    is_address mem_address strip lower eq_text partition split_on has_char is_space validate parsed
    upcoming
request_clean = refl

validate_payload-IsClean_example : IsClean reads early false clean_request
validate_payload-IsClean_example =
    validate_payload-IsClean reads early false request clean_request request_clean

abbrev created : Schedule
created = record (apply clean_request daily) {
  next_run_at = some (record { minutes = 738945 * 1440 + 570; micros = 0 });
}

created_row : new_row reads early daily request ≡ ok created
unfolding new_row slot_of compute_next_run apply condition_of validate_payload clean_name clean_sql
    clean_cron clean_recipients clean_window clean_max_rows threshold clean_condition
    normalize_recipients add_recipients is_address mem_address strip lower eq_text partition
    split_on has_char is_space validate parsed upcoming
created_row = refl

new_row-IsSlotted_example : IsSlotted early created
new_row-IsSlotted_example = new_row-IsSlotted reads early daily created request created_row

-- The schedule has been paused, and is switched on again.
abbrev paused : Schedule
paused = record daily { is_active = false; next_run_at = none; consecutive_failures = 5 }

abbrev switch_on : Payload
switch_on = record {
  name = none;
  sql = none;
  cron = none;
  recipients = none;
  starts_at = none;
  ends_at = none;
  is_active = some true;
  max_rows = none;
  send_condition = none;
  condition_value = none;
}

switched_on :
    row_change reads early paused switch_on
    ≡ ok (with_slot switch_on paused (some (record { minutes = 738945 * 1440 + 570; micros = 0 })))
unfolding row_change timed_change slot_of compute_next_run apply validate_payload clean_name
    clean_sql clean_cron clean_recipients clean_window clean_max_rows clean_condition upcoming
switched_on = refl

row_change-IsChanged_example :
    (clean : Payload) × (validate_payload reads early true switch_on ≡ ok clean)
    × IsChanged early paused
        (with_slot switch_on paused (some (record { minutes = 738945 * 1440 + 570; micros = 0 })))
        clean
row_change-IsChanged_example =
    row_change-IsChanged reads early paused switch_on
      (with_slot switch_on paused (some (record { minutes = 738945 * 1440 + 570; micros = 0 })))
      switched_on
