-- ===== src/World.antt =====
-- The state that the API and the workers share: the tables, the Redis keys, the Celery queues and
-- the requests made to outside services, with the clock and the supply of UUIDs; and the settings.
-- Each family of Redis keys is a field of its own, since the families' names never meet.
use loboguara.Common.{ℕ, String, Bool, Option, List}
use loboguara.Models.{
  Uuid, Time, Contact, Group, GroupMember, Rule, Incident, Notification, AuditLog, Mapping, Value,
  NotificationChannel,
}
use loboguara.Common.{Exception, Result}
use loboguara.Common.Int.{ℤ}
use loboguara.Redis.{Slot}

-- The settings of config.py that the modelled code reads, and the admin token, which main.py reads
-- from the environment. The least rate of acknowledgments is a fraction.
pub record Config : Type 0 where
  pub app_base_url : String
  pub voice_prerecorded_audio_url : String
  pub voice_twiml_mode : String
  pub voice_provider : String
  pub twilio_account_sid : String
  pub twilio_auth_token : String
  pub twilio_from_number : String
  pub signalwire_space_url : String
  pub signalwire_project_id : String
  pub signalwire_api_token : String
  pub signalwire_from_number : String
  pub telegram_bot_token : String
  pub telegram_logs_chat_id : String
  pub resend_api_key : String
  pub resend_from_email : String
  pub resend_to_email : String
  pub celery_task_max_retries : ℤ
  pub celery_task_retry_backoff : ℤ
  pub celery_task_retry_backoff_max : ℤ
  pub celery_task_retry_jitter : Bool
  pub dlq_replay_batch_size : ℤ
  pub dlq_max_items : ℤ
  pub metrics_ttl_seconds : ℕ
  pub ops_endpoint_max_limit : ℤ
  pub dlq_replay_dry_run : Bool
  pub dlq_replay_lock_ttl_seconds : ℕ
  pub cb_failure_threshold : ℕ
  pub cb_open_seconds : ℕ
  pub channel_rate_limit_per_minute : ℕ
  pub channel_rate_limit_window_seconds : ℕ
  pub incident_stale_minutes : ℕ
  pub telegram_notification_dedupe_window_seconds : ℤ
  pub oasis_radar_enabled : Bool
  pub oasis_radar_loki_url : String
  pub oasis_radar_logql_query : String
  pub oasis_radar_lookback_seconds : ℕ
  pub oasis_radar_pull_limit : ℤ
  pub oasis_radar_pull_enabled : Bool
  pub oasis_radar_pull_interval_seconds : ℕ
  pub sentry_pull_enabled : Bool
  pub sentry_api_token : String
  pub sentry_org_slug : String
  pub langfuse_pull_enabled : Bool
  pub langfuse_public_key : String
  pub langfuse_secret_key : String
  pub langfuse_host : String
  pub langfuse_pull_interval_seconds : ℕ
  pub admin_token : Option String
  pub alert_dlq_warn : ℤ
  pub alert_dlq_crit : ℤ
  pub alert_queue_warn : ℤ
  pub alert_ack_rate_warn : ℕ × ℕ
  pub voice_webhook_secret : String
  pub voice_webhook_max_skew_seconds : ℤ

-- A request to an outside service: its URL, its authorization and its body.
pub record HttpRequest : Type 0 where
  pub url : String
  pub authorization : String
  pub body : Mapping

-- What comes back: a status, the text of the body and the JSON in it, if it is any; or the exception
-- that the client library raises.
pub data HttpReply : Type 0 where
  reply : ℕ → String → Option Value → HttpReply
  failed : Exception → HttpReply

-- What is outside the repository: the services' answers (by the number of earlier requests), the
-- formatting of templates by `str.format`, Python's `str` of a value and of a UUID, `==` on values,
-- `json.dumps` and SHA-256 in hexadecimal, `re.fullmatch(pattern, text, re.IGNORECASE)`, which may
-- raise, the order of texts in the database, `json.loads` (`none` where it raises) and
-- `float(value) > n` (`none` where it is a TypeError or a ValueError), and the HMAC with SHA-256 of a
-- body under a key, in hexadecimal, `urlencode` and the ISO text of a time.
pub record Env : Type 0 where
  pub config : Config
  pub http : ℕ → HttpRequest → HttpReply
  pub str_format : String → List (String × String) → Option String
  pub value_text : Value → String
  pub uuid_text : Uuid → String
  pub py_eq : Value → Value → Bool
  pub json_dumps : Value → String
  pub sha256_hex : String → String
  pub fullmatch : Value → String → Result Bool
  pub text_before : String → String → Bool
  pub json_loads : String → Option Value
  pub float_over : Value → ℕ → Option Bool
  pub hmac_sha256 : String → String → String
  pub urlencode : List (String × String) → String
  pub time_text : Time → String

-- A Celery task on its queue.
pub data Task : Type 0 where
  dispatch : Uuid → Uuid → Task
  channel_send : NotificationChannel → Uuid → Uuid → Task
  dlq_replay : ℕ → Task

-- An entry of the dead-letter queue: `_dlq_payload`.
pub record DlqEntry : Type 0 where
  pub task_name : String
  pub args : List Uuid
  pub kwargs : Mapping
  pub trace_id : Value
  pub notification_id : Value
  pub incident_id : Value
  pub error : String
  pub failed_at : Uuid

-- What the list in Redis holds: the JSON text of an entry, or a text that is no JSON.
pub data RawEntry : Type 0 where
  encoded : DlqEntry → RawEntry
  garbage : String → RawEntry

-- An item of the Telegram digest.
pub record DigestItem : Type 0 where
  pub incident_id : Option Uuid
  pub title : String
  pub severity : String
  pub source : String
  pub occurrences : ℕ
  pub message_preview : String
  pub suppressed_at : Time

pub record Db : Type 0 where
  pub contacts : List Contact
  pub groups : List Group
  pub members : List GroupMember
  pub rules : List Rule
  pub incidents : List Incident
  pub notifications : List Notification
  pub audits : List AuditLog

pub record Store : Type 0 where
  pub circuit_open : NotificationChannel → Slot ℕ
  pub circuit_failures : NotificationChannel → Slot ℕ
  pub rate_counts : NotificationChannel → ℕ → Slot ℕ
  pub service_counts : String → Slot ℕ
  pub telegram_dedupe : String → Slot Uuid
  pub event_dedupe : String → Slot ℕ
  pub digest : Slot (List (String × DigestItem))
  pub dlq : List RawEntry
  pub replay_lock : Slot Uuid
  pub replay_report : Slot Mapping
  pub metrics : Slot Mapping
  pub radar_cursor : Option ℕ
  pub radar_failures : Slot ℕ
  pub sentry_cursor : Option ℕ
  pub langfuse_cursor : Option Time

pub record World : Type 0 where
  pub db : Db
  pub open db use *
  pub redis : Store
  pub open redis use *
  pub tasks : List Task
  pub requests : List HttpRequest
  pub now : Time
  pub next_uuid : Uuid
