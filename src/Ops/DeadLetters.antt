-- ===== src/Ops/DeadLetters.antt =====
-- main.py: the preview of the dead-letter queue, the request of a replay and the report of the last one.
use loboguara.Common.{
  ℕ, String, Bool, true, false, Option, none, some, List, [], ◌∷◌, ◌++◌, take, map, length, lookup,
  any, str_eq, get_or, ok, err, if◌then◌else◌,
}
use loboguara.Common.Int.{ℤ, pos}
use loboguara.Common.Text.{lower, strip}
use loboguara.Models.{Uuid, Value, Mapping, null, boolean, integer, text, py_int}
use loboguara.Redis.{read}
use loboguara.World.{World, Env, RawEntry, encoded, garbage, dlq_replay}
use loboguara.Action.{Action, pure, gets, modify, ◌>>◌}
use loboguara.Providers.{truthy}
use loboguara.Directory.Paging.{validate_ops_limit}
use loboguara.Ops.Guards.{require_admin_token}

-- schemas.py: `DLQPreviewItem`
pub record DlqPreviewItem : Type 0 where
  pub task_name : String
  pub trace_id : Value
  pub notification_id : Value
  pub incident_id : Value
  pub error : String
  pub args : List Uuid
  pub kwargs : Mapping
  pub failed_at : Option Uuid

-- `_parse_dlq_entry`, and the item that `_dlq_items` makes of it
unfoldable pub preview_item : RawEntry → DlqPreviewItem
preview_item (encoded e) = record {
  task_name = e.task_name;
  trace_id = e.trace_id;
  notification_id = e.notification_id;
  incident_id = e.incident_id;
  error = e.error;
  args = e.args;
  kwargs = e.kwargs;
  failed_at = some e.failed_at;
}
preview_item (garbage s) = record {
  task_name = "unknown";
  trace_id = null;
  notification_id = null;
  incident_id = null;
  error = "invalid_json";
  args = [];
  kwargs = [];
  failed_at = none;
}

-- `_dlq_items`
unfoldable pub dlq_items : ℕ → World → ℕ × List DlqPreviewItem
dlq_items limit w = (length w.dlq, map preview_item (take limit w.dlq))

-- `preview_dlq`
unfoldable pub preview_dlq : Env → ℕ → Option String → Action (ℕ × List DlqPreviewItem)
preview_dlq env limit header = do
  require_admin_token env header
  validate_ops_limit env limit
  gets (dlq_items limit)

-- `replay_dlq_operations`, where tasks do not run at once: the status
unfoldable pub replay_dlq_operations : Env → ℕ → Option String → Action String
replay_dlq_operations env limit header = do
  require_admin_token env header
  validate_ops_limit env limit
  modify λ w. record w { tasks = w.tasks ++ dlq_replay limit ∷ [] }
  pure "submitted"

-- `_coerce_optional_int`
unfoldable pub coerce_optional_int : Value → Option ℤ
coerce_optional_int v = elim (py_int v) [ ok z ↦ some z | err e ↦ none ]

-- `bool(int(value))`, or `bool(value)`
truth_of_int : Value → Bool
truth_of_int v = elim (py_int v) [ ok z ↦ truthy (integer z) | err e ↦ truthy v ]

-- `_coerce_optional_bool`
unfoldable pub coerce_optional_bool : Value → Bool
unfolding truth_of_int
coerce_optional_bool (boolean b) = b
coerce_optional_bool null = false
coerce_optional_bool (text s) =
    if str_eq s ""
    then false
    else if any (str_eq (lower (strip s))) ("true" ∷ "1" ∷ "yes" ∷ "y" ∷ "on" ∷ [])
    then true
    else if any (str_eq (lower (strip s))) ("false" ∷ "0" ∷ "no" ∷ "n" ∷ "off" ∷ [])
    then false
    else truth_of_int (text s)
coerce_optional_bool v = truth_of_int v

-- `get_dlq_replay_report`
unfoldable pub get_dlq_replay_report : World → Mapping
get_dlq_replay_report w = get_or (read w.now w.replay_report) []

-- `raw_report.get(key) or None`
abbrev pub report_entry : String → Mapping → Option Value
report_entry key report = elim (lookup key report) [
  | none ↦ none
  | some v ↦ if truthy v then some v else none
]

abbrev pub report_int : String → Mapping → Option ℤ
report_int key report = coerce_optional_int (get_or (lookup key report) null)

abbrev pub report_count : String → Mapping → ℤ
report_count key report = get_or (report_int key report) (pos 0)

-- schemas.py: `DLQReplayReportResponse`, without further fields
pub record ReplayReport : Type 0 where
  pub status : String
  pub started_at : Option Value
  pub finished_at : Option Value
  pub requested_limit : Option ℤ
  pub effective_limit : Option ℤ
  pub replayed : ℤ
  pub remaining : ℤ
  pub dry_run : Bool
  pub locked : Bool

-- `get_last_dlq_replay_report`
unfoldable pub get_last_dlq_replay_report : Env → World → ReplayReport
get_last_dlq_replay_report env w =
    let report = get_dlq_replay_report w in
    record {
      status = elim (report_entry "status" report) [ none ↦ "empty" | some v ↦ env.value_text v ];
      started_at = report_entry "started_at" report;
      finished_at = report_entry "finished_at" report;
      requested_limit = report_int "requested_limit" report;
      effective_limit = report_int "effective_limit" report;
      replayed = report_count "replayed" report;
      remaining = report_count "remaining" report;
      dry_run = coerce_optional_bool (get_or (lookup "dry_run" report) null);
      locked = coerce_optional_bool (get_or (lookup "locked" report) null);
    }
