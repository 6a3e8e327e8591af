-- ===== src/Pull/Entries.antt =====
-- main.py: how `pull_oasis_radar` turns the entries that it has fetched into events.
use loboguara.Common.{none, ℕ, ◌+◌, max, String, some, List, [], ◌∷◌, ok, err, if◌then◌else◌}
use loboguara.Common.Int.{pos_part}
use loboguara.Common.Text.{◌⧺◌, strip, prefix}
use loboguara.Models.{Value, Fields, text, object, field, end, py_int}
use loboguara.World.{Env}
use loboguara.Action.{Action, pure, ◌>>=◌, ◌>>◌}
use loboguara.Ingest.{Event, ingest_event, is_duplicate}
use loboguara.Classifier.Lines.{classify_log_line}
use loboguara.Pull.Radar.{RadarEntry, oasis_radar_service}

abbrev pub labels_of : Value → Fields
labels_of (object fs) = fs
labels_of _ = end

abbrev pub line_of : Env → RadarEntry → String
line_of env e = strip (env.value_text e.line)

abbrev pub stamp_of : Env → RadarEntry → String
stamp_of env e = env.value_text e.timestamp_ns

abbrev pub service_of_entry : Env → RadarEntry → String
service_of_entry env e = oasis_radar_service env (labels_of e.labels)

-- `dedupe_key`
unfoldable pub entry_key : Env → RadarEntry → String
entry_key env e =
    env.sha256_hex (stamp_of env e ⧺ ":" ⧺ service_of_entry env e ⧺ ":" ⧺ line_of env e)

-- the event of an entry
unfoldable pub entry_event : Env → RadarEntry → Event
entry_event env e =
    let service = service_of_entry env e in
    let classified = classify_log_line env service (line_of env e) (labels_of e.labels) in
    record {
      source = "oasis-radar";
      external_event_id = "oasis-radar-" ⧺ stamp_of env e ⧺ "-" ⧺ service;
      severity = classified.0;
      service = some service;
      title = classified.1;
      message = some (prefix 5000 (line_of env e));
      payload_json =
          object (field "labels" e.labels (field "timestamp_ns" (text (stamp_of env e)) end));
      schedule_at = none;
      dedupe_key = some (entry_key env e);
    }

-- what the loop counts: accepted, duplicates and the latest time
pub record Counts : Type 0 where
  pub accepted : ℕ
  pub duplicates : ℕ
  pub max_timestamp_ns : ℕ

-- `max(max_timestamp_ns, int(timestamp_ns))`, where that is a number
unfoldable pub later_stamp : Env → RadarEntry → ℕ → ℕ
later_stamp env e latest = elim (py_int (text (stamp_of env e))) [
  | ok z ↦ max latest (pos_part z)
  | err x ↦ latest
]

-- the loop over the entries
unfoldable pub ingest_entries : Env → List RadarEntry → Counts → Action Counts
ingest_entries env [] counts = pure counts
ingest_entries env (e ∷ entries) counts = do
  let latest = later_stamp env e counts.max_timestamp_ns
  seen ← is_duplicate ("oasis-radar:" ⧺ entry_key env e) 300
  if seen
      then ingest_entries env entries (record {
        accepted = counts.accepted;
        duplicates = counts.duplicates + 1;
        max_timestamp_ns = latest;
      })
      else do
        ingest_event env (entry_event env e)
        ingest_entries env entries (record {
          accepted = counts.accepted + 1;
          duplicates = counts.duplicates;
          max_timestamp_ns = latest;
        })
