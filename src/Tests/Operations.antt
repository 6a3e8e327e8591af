-- ===== src/Tests/Operations.antt =====
-- The theorems on the operations endpoints and on the pulls, at concrete states.
use loboguara.Common.{
  ◌+◌, ◌≤◌, ◌≡◌, ◌≢◌, sym, true≢false, str_eq_iff, refl, arith, String, true, false, not, none,
  some, List, [], ◌∷◌, ◌⊎◌, ◌↔◌, any, ok, keep, length, str_eq, ◌==◌, if◌then◌else◌, runtime_error,
}
use loboguara.Common.Int.{ℤ}
use loboguara.Models.{
  text, object, array, field, end, cons, nil, py_int, opened, escalated, escalation, is_open, entry,
}
use loboguara.World.{World, Env, HttpRequest, reply, failed}
use loboguara.Action.{combinators}
use loboguara.Database.{add_audit, uuid4, update_incident}
use loboguara.Database.Tables.{update_key}
use loboguara.Lifecycle.{
  acknowledge_incident, is_log_of, get_or_create_trace_id, acknowledge_open, log_acknowledged,
}
use loboguara.Escalation.Progress.{stay, after, acknowledging}
use loboguara.Ingest.{is_from, is_duplicate}
use loboguara.Providers.{http_call}
use loboguara.Directory.Paging.{validate_ops_limit}
use loboguara.Ops.Guards.{require_admin_token}
use loboguara.Common.Text.{is_ascii, parse_int, parse_nat, strip, lstrip}
use loboguara.Ops.Sla.{calculate_sla_metrics}
use loboguara.Ops.Counts.{sum_counts, sla_counts}
use loboguara.Ops.Alerts.{
  OperationalAlert, amount, overall_severity, is_above, overall_severity_max,
}
use loboguara.Ops.Integration.{has_action, escalated_logs, evaluate_ops_integration_status}
use loboguara.Ops.Escalated.{escalated_blocks_guard}
use loboguara.Ops.Readiness.{
  Check, red, green, is_blocking, readiness_checks, evaluate_ops_readiness, readiness_status,
}
use loboguara.Ops.Signatures.{
  verify_voice_webhook_signature, IsWithin, IsSigned, voice_signature_exact,
}
use loboguara.Pull.Radar.{
  attempts, after_attempt, radar_request, radar_start, entries_of_answer, fetch_oasis_radar_entries,
}
use loboguara.Pull.Entries.{ingest_entries, later_stamp}
use loboguara.Pull.Attempts.{is_ok, attempts_answered}
use loboguara.Pull.RadarPull.{
  PullResult, pull_entries, note_success, edit_metrics, add_amount, set_radar_cursor,
  pull_oasis_radar,
}
use loboguara.Pull.Totals.{pull_oasis_radar_balance}
use loboguara.Pull.Once.{from_radar, pull_at_most_one}
use loboguara.Pull.Sentry.{pull_sentry}
use loboguara.Pull.Cursors.{Advanced, sentry_cursor_forward}
use loboguara.Pull.Digest.{send_telegram_digest}
use loboguara.Pull.Digests.{Settled, digest_all_or_kept}
use loboguara.Tests.Worlds.{test_env, row_of, world_with}
use loboguara.Common.Int.{pos}

abbrev quiet : World
quiet = world_with (row_of 7 opened ∷ []) []

abbrev two_alerts : List OperationalAlert
two_alerts =
    record { alert_type = "a"; severity = "warn"; actual = amount (pos 1) }
    ∷ record { alert_type = "b"; severity = "critical"; actual = amount (pos 9) }
    ∷ []

overall_severity_max_example :
    ((two_alerts ≡ []) × (overall_severity two_alerts ≡ "ok"))
    ⊎ ((any (λ a. str_eq (overall_severity two_alerts) a.severity) two_alerts ≡ true)
        × (any (is_above (overall_severity two_alerts)) two_alerts ≡ false))
overall_severity_max_example = overall_severity_max two_alerts

sla_counts_example :
    ((calculate_sla_metrics 24 quiet).acknowledged_incidents
      ≤ (calculate_sla_metrics 24 quiet).total_incidents)
    × (sum_counts (calculate_sla_metrics 24 quiet).incidents_by_status
        ≡ (calculate_sla_metrics 24 quiet).total_incidents)
sla_counts_example = sla_counts 24 quiet

readiness_status_example :
    ((evaluate_ops_readiness test_env quiet).status ≡ red
      ↔ any is_blocking (readiness_checks test_env quiet) ≡ true)
    × ((evaluate_ops_readiness test_env quiet).status ≡ green
        ↔ (evaluate_ops_readiness test_env quiet).score ≡ 100)
    × ((evaluate_ops_readiness test_env quiet).status ≡ green
        ↔ any (λ (c : Check). not c.passed) (readiness_checks test_env quiet) ≡ false)
readiness_status_example = readiness_status test_env quiet

abbrev escalated_world : World
escalated_world = record (world_with (row_of 7 escalated ∷ []) []) {
  db = record (world_with (row_of 7 escalated ∷ []) []).db {
    audits =
        record {
          id = 1;
          trace_id = 2;
          incident_id = some 7;
          action = escalation;
          details_json = [];
          created_at = 150;
        }
        ∷ [];
  };
}

abbrev answered_world : World
answered_world = (acknowledge_incident (some 7) none escalated_world).1

log_is_there : any (is_log_of 7) (escalated_logs answered_world) ≡ true
unfolding acknowledge_incident has_action get_or_create_trace_id add_audit uuid4 update_incident
    acknowledge_open log_acknowledged update_key is_open combinators
log_is_there = refl

escalated_blocks_guard_example :
    (evaluate_ops_integration_status test_env answered_world).escalation_guard_signal ≡ false
unfolding is_open
escalated_blocks_guard_example =
    escalated_blocks_guard test_env escalated_world answered_world 7 (row_of 7 escalated) refl refl
      (after escalated_world escalated_world answered_world (stay escalated_world)
        (acknowledging (some 7) none escalated_world))
      log_is_there

abbrev stamp : String
stamp = "200"

abbrev signature : String
signature = "sha256=200.body"

digest_is_ascii : is_ascii (test_env.hmac_sha256 "key" "200.body") ≡ true
unfolding is_ascii
digest_is_ascii = refl

key_is_set : test_env.config.voice_webhook_secret ≢ ""
key_is_set h = true≢false (sym ((str_eq_iff "key" "").1 h))

voice_signature_exact_example :
    (verify_voice_webhook_signature test_env 200 "body" (some stamp) (some signature) ≡ ok none) ↔ (
      (stamp ≢ "")
      × (signature ≢ "")
      × ((t : ℤ) × (py_int (text stamp) ≡ ok t)
          × IsWithin 200 t test_env.config.voice_webhook_max_skew_seconds
          × IsSigned "200.body" signature))
voice_signature_exact_example =
    voice_signature_exact test_env 200 "body" (some stamp) (some signature) key_is_set
      digest_is_ascii

-- the first request fails, the others are answered
abbrev flaky_env : Env
flaky_env = record test_env {
  http = λ n request. if n == 0 then failed (runtime_error "down") else reply 200 "{}" none;
  json_loads = λ s. some (
      object (
        field "data"
          (object (
            field "result"
              (array (
                cons
                  (object (
                    field "stream" (object end) (
                      field "values"
                        (array (cons (array (cons (text "9") (cons (text "x") nil))) nil)) end)))
                  nil))
              end))
          end));
}

abbrev loki : HttpRequest
loki = record { url = "http://loki"; authorization = ""; body = [] }

attempts_answered_example :
    (is_ok (attempts flaky_env loki 2 quiet).0 ≡ true)
    × (length (attempts flaky_env loki 2 quiet).1.requests ≤ 0 + 1 + 1)
attempts_answered_example = attempts_answered flaky_env loki 2 1 quiet (omega arith) refl

abbrev one_entry : PullResult
one_entry = record { fetched = 1; accepted = 0; duplicates = 1 }

-- a state in which every entry was seen before
abbrev seen : World
seen = record quiet {
  redis = record quiet.redis { event_dedupe = λ s. some (record { value = 1; expires = none }) };
}

one_pulled : (pull_oasis_radar flaky_env 60 10 (some "secret") seen).0 ≡ ok one_entry
unfolding pull_oasis_radar require_admin_token validate_ops_limit fetch_oasis_radar_entries
    radar_request radar_start attempts after_attempt http_call entries_of_answer pull_entries
    ingest_entries is_duplicate later_stamp note_success edit_metrics add_amount set_radar_cursor
    py_int entry parse_int parse_nat strip lstrip combinators
one_pulled = refl

pull_oasis_radar_balance_example : one_entry.accepted + one_entry.duplicates ≡ one_entry.fetched
pull_oasis_radar_balance_example =
    pull_oasis_radar_balance flaky_env 60 10 (some "secret") seen one_entry one_pulled

abbrev pulled_world : World
pulled_world = (pull_oasis_radar flaky_env 60 10 (some "secret") quiet).1

pull_at_most_one_example :
    length (keep (is_from "oasis-radar" "oasis-radar-9-oasis-radar") pulled_world.incidents) ≤ 1
pull_at_most_one_example =
    pull_at_most_one quiet pulled_world "oasis-radar" "oasis-radar-9-oasis-radar"
      (from_radar flaky_env 60 10 (some "secret") quiet) (omega arith)

sentry_cursor_forward_example : Advanced quiet.sentry_cursor (pull_sentry flaky_env quiet)
sentry_cursor_forward_example = sentry_cursor_forward flaky_env quiet

abbrev held_back : World
held_back = record quiet {
  redis = record quiet.redis {
    digest = some (record {
      value =
          (
            "api",
            record {
              incident_id = some 7;
              title = "down";
              severity = "ERROR";
              source = "radar";
              occurrences = 6;
              message_preview = "down";
              suppressed_at = 150;
            },
          )
          ∷ [];
      expires = some 900;
    });
  };
}

digest_all_or_kept_example : Settled test_env held_back (send_telegram_digest test_env held_back)
digest_all_or_kept_example = digest_all_or_kept test_env held_back
