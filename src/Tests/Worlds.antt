-- ===== src/Tests/Worlds.antt =====
-- One set of settings and one set of rows.
use loboguara.Common.{String, true, false, none, some, List, [], ◌∷◌, ok, str_eq}
use loboguara.Common.Int.{pos}
use loboguara.Models.{
  Uuid, Value, text, null, Contact, Rule, Incident, IncidentStatus, Notification,
  NotificationStatus, NotificationChannel,
}
use loboguara.World.{Config, Env, World, Store, reply, RawEntry, encoded, garbage}

abbrev pub test_config : Config
test_config = record {
  app_base_url = "https://ops.example";
  voice_prerecorded_audio_url = "";
  voice_twiml_mode = "dynamic";
  voice_provider = "twilio";
  twilio_account_sid = "AC1";
  twilio_auth_token = "token";
  twilio_from_number = "+550";
  signalwire_space_url = "";
  signalwire_project_id = "";
  signalwire_api_token = "";
  signalwire_from_number = "";
  telegram_bot_token = "bot";
  telegram_logs_chat_id = "logs";
  resend_api_key = "key";
  resend_from_email = "a@example";
  resend_to_email = "";
  celery_task_max_retries = pos 3;
  celery_task_retry_backoff = pos 5;
  celery_task_retry_backoff_max = pos 60;
  celery_task_retry_jitter = false;
  dlq_replay_batch_size = pos 10;
  dlq_max_items = pos 2;
  metrics_ttl_seconds = 60;
  ops_endpoint_max_limit = pos 50;
  dlq_replay_dry_run = true;
  dlq_replay_lock_ttl_seconds = 30;
  cb_failure_threshold = 2;
  cb_open_seconds = 30;
  channel_rate_limit_per_minute = 1;
  channel_rate_limit_window_seconds = 60;
  incident_stale_minutes = 30;
  telegram_notification_dedupe_window_seconds = pos 300;
  oasis_radar_enabled = true;
  oasis_radar_loki_url = "http://loki/";
  oasis_radar_logql_query = "{}";
  oasis_radar_lookback_seconds = 300;
  oasis_radar_pull_limit = pos 10;
  oasis_radar_pull_enabled = true;
  oasis_radar_pull_interval_seconds = 60;
  sentry_pull_enabled = true;
  sentry_api_token = "token";
  sentry_org_slug = "org";
  langfuse_pull_enabled = true;
  langfuse_public_key = "pk";
  langfuse_secret_key = "sk";
  langfuse_host = "http://langfuse/";
  langfuse_pull_interval_seconds = 120;
  admin_token = some "secret";
  alert_dlq_warn = pos 2;
  alert_dlq_crit = pos 4;
  alert_queue_warn = pos 1;
  alert_ack_rate_warn = (9, 10);
  voice_webhook_secret = "key";
  voice_webhook_max_skew_seconds = pos 300;
}

abbrev pub text_of : Value → String
text_of (text s) = s
text_of _ = ""

abbrev pub test_env : Env
test_env = record {
  config = test_config;
  http = λ n request. reply 500 "down" none;
  str_format = λ template values. some template;
  value_text = text_of;
  uuid_text = λ u. "u";
  py_eq = λ a b. str_eq (text_of a) (text_of b);
  json_dumps = λ v. "{}";
  sha256_hex = λ s. s;
  fullmatch = λ pattern s. ok (str_eq (text_of pattern) s);
  text_before = λ a b. false;
  json_loads = λ s. none;
  float_over = λ v n. none;
  hmac_sha256 = λ key body. body;
  urlencode = λ fields. "q";
  time_text = λ t. "t";
}

abbrev pub row_of : Uuid → IncidentStatus → Incident
row_of i s = record {
  id = i;
  external_event_id = "e1";
  source = "radar";
  severity = "CRITICAL";
  service = some "api";
  title = "down";
  message = none;
  payload_json = null;
  status = s;
  matched_rule_id = some 3;
  dedupe_key = none;
  occurrences = 1;
  created_at = 100;
  updated_at = none;
  acknowledged_at = none;
  acknowledged_by = none;
}

abbrev pub sending : Uuid → NotificationStatus → NotificationChannel → Notification
sending i s c = record {
  id = i;
  incident_id = 7;
  contact_id = 5;
  channel = c;
  status = s;
  external_provider_id = none;
  error_message = none;
  created_at = 100;
  updated_at = none;
}

abbrev pub test_rule : Rule
test_rule = record {
  id = 3;
  rule_name = "api";
  condition_json = ("source", text "radar") ∷ [];
  recipient_group_id = 4;
  channels = "EMAIL" ∷ "email" ∷ [];
  active = true;
  priority = pos 1;
  requires_ack = true;
  ack_deadline = none;
  fallback_policy_json = none;
  dedupe_window_seconds = none;
  dedupe_fields_json = [];
  notification_templates_json = [];
  runbook_url = none;
  channel_retry_policy_json = none;
}

abbrev pub test_contact : Contact
test_contact = record {
  id = 5;
  name = "Ana";
  email = some "ana@example";
  phone = none;
  whatsapp = none;
  telegram_id = none;
}

abbrev pub dead : Uuid → RawEntry
dead i = encoded (record {
  task_name = "email_worker";
  args = 9 ∷ 8 ∷ [];
  kwargs = [];
  trace_id = null;
  notification_id = null;
  incident_id = null;
  error = "timeout";
  failed_at = i;
})

abbrev pub empty_store : Store
empty_store = record {
  circuit_open = λ c. none;
  circuit_failures = λ c. none;
  rate_counts = λ c b. none;
  service_counts = λ s. none;
  telegram_dedupe = λ s. none;
  event_dedupe = λ s. none;
  digest = none;
  dlq = dead 1 ∷ dead 2 ∷ garbage "x" ∷ [];
  replay_lock = none;
  replay_report = none;
  metrics = none;
  radar_cursor = none;
  radar_failures = none;
  sentry_cursor = none;
  langfuse_cursor = none;
}

abbrev pub world_with : List Incident → List Notification → World
world_with incidents notifications = record {
  db = record {
    contacts = test_contact ∷ [];
    groups = [];
    members = record { group_id = 4; contact_id = 5 } ∷ [];
    rules = test_rule ∷ [];
    incidents = incidents;
    notifications = notifications;
    audits = [];
  };
  redis = empty_store;
  tasks = [];
  requests = [];
  now = 200;
  next_uuid = 1000;
}
