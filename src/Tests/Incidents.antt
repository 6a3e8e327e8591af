-- ===== src/Tests/Incidents.antt =====
-- The theorems on incidents and their notifications, at a few rows.
use loboguara.Common.{ok, ◌≤◌, ◌≡◌, refl, arith, none, some, [], ◌∷◌, keep, length}
use loboguara.Models.{Incident, null, opened, email, voice, sent, py_int}
use loboguara.Common.Text.{is_ascii, parse_int, parse_nat, strip, lstrip}
use loboguara.Lifecycle.Signed.{RowsAre, voice_callback, refused_callback_keeps}
use loboguara.Ops.Signatures.{
  verify_voice_webhook_signature, check_voice, is_expired, compare_digest, answer_of,
}
use loboguara.World.{World}
use loboguara.Database.{incident_by_id, addressed_to}
use loboguara.Lifecycle.{acknowledge_incident, resolve_incident}
use loboguara.Lifecycle.Ranks.{rank}
use loboguara.Dispatch.{dispatch_incident}
use loboguara.Dispatch.Uniqueness.{dispatch_at_most_one}
use loboguara.Escalation.Progress.{Steps, stay, after, acknowledging, resolving, never_goes_back}
use loboguara.Ingest.{Event, ingest_event, is_from}
use loboguara.Ingest.Once.{ingest_at_most_one}
use loboguara.Tests.Worlds.{test_env, row_of, sending, world_with}

abbrev open_world : World
open_world = world_with (row_of 7 opened ∷ []) []

abbrev acknowledged_world : World
acknowledged_world = (acknowledge_incident (some 7) (some "ana") open_world).1

abbrev resolved_world : World
resolved_world = (resolve_incident (some 7) none none acknowledged_world).1

ack_then_resolve : Steps open_world resolved_world
ack_then_resolve =
    after open_world acknowledged_world resolved_world
      (after open_world open_world acknowledged_world (stay open_world)
        (acknowledging (some 7) (some "ana") open_world))
      (resolving (some 7) none none acknowledged_world)

never_goes_back_example :
    (s : Incident) × (incident_by_id 7 resolved_world ≡ some s) × (rank opened ≤ rank s.status)
never_goes_back_example =
    never_goes_back open_world resolved_world 7 (row_of 7 opened) refl ack_then_resolve

dispatch_at_most_one_example :
    length
      (keep (addressed_to 7 5 email) (dispatch_incident test_env 7 99 open_world).1.notifications)
    ≤ 1
dispatch_at_most_one_example = dispatch_at_most_one test_env 7 99 open_world 7 5 email (omega arith)

abbrev test_event : Event
test_event = record {
  source = "radar";
  external_event_id = "e2";
  severity = "CRITICAL";
  service = none;
  title = "down";
  message = none;
  payload_json = null;
  schedule_at = none;
  dedupe_key = some "radar-down";
}

ingest_at_most_one_example :
    length (keep (is_from "radar" "e2") (ingest_event test_env test_event open_world).1.incidents)
    ≤ 1
ingest_at_most_one_example =
    ingest_at_most_one test_env test_event open_world "radar" "e2" (omega arith)

abbrev called : World
called = world_with (row_of 7 opened ∷ []) (sending 9 sent voice ∷ [])

forged :
    verify_voice_webhook_signature test_env called.now "Digits=1" (some "200") (some "sha256=?")
    ≡ ok (some "invalid_signature")
unfolding verify_voice_webhook_signature check_voice compare_digest answer_of is_ascii is_expired
    py_int parse_int parse_nat strip lstrip loboguara.Classifier.Words.behind
    loboguara.Common.Text.drop_text
forged = refl

refused_callback_keeps_example :
    RowsAre called.incidents called.notifications
      (voice_callback test_env (some 9) "1" "Digits=1" (some "200") (some "sha256=?") called).1.db
refused_callback_keeps_example =
    refused_callback_keeps test_env (some 9) "1" "Digits=1" (some "200") (some "sha256=?")
      "invalid_signature" called forged
