-- ===== src/Delivery/Telegram.antt =====
-- worker.py: what keeps Telegram from repeating itself: the dedupe key of a message, the rate limit of
-- a service and the digest of what it holds back.
use loboguara.Common.{
  ℕ, ◌*◌, max, String, Bool, true, false, Option, none, some, [], ok, insert, get_or, ltb, str_eq,
  ◌==◌, if◌then◌else◌,
}
use loboguara.Common.Int.{ℤ, pos_part}
use loboguara.Common.Text.{◌⧺◌, strip, prefix}
use loboguara.Models.{Uuid, Rule, Incident, Contact}
use loboguara.Redis.{read, incr, expire, exists, set_ex}
use loboguara.World.{Env, DigestItem}
use loboguara.Action.{Action}
use loboguara.Metrics.{set_redis}
use loboguara.Template.{nonempty}

-- `_telegram_target_chat_id`
unfoldable pub telegram_target_chat_id : Env → Option Contact → String
telegram_target_chat_id env none = env.config.telegram_logs_chat_id
telegram_target_chat_id env (some contact) =
    get_or (nonempty contact.telegram_id) env.config.telegram_logs_chat_id

abbrev window_of : Option Rule → Option ℤ
window_of none = none
window_of (some rule) = rule.dedupe_window_seconds

-- `_telegram_notification_dedupe_window`
unfoldable pub telegram_notification_dedupe_window : Env → Option Rule → ℕ
telegram_notification_dedupe_window env rule =
    max 1
      (pos_part (get_or (window_of rule) env.config.telegram_notification_dedupe_window_seconds))

-- an attribute of an incident that may be missing
abbrev attribute : (Incident → String) → Option Incident → String
attribute f none = ""
attribute f (some incident) = strip (f incident)

abbrev service_of : Incident → String
service_of incident = get_or incident.service ""

-- `_telegram_notification_dedupe_key`, by the text whose digest the key holds
unfoldable pub telegram_notification_dedupe_key :
    Option Incident → (chat_id : String) → (message_preview : Option String) → String
telegram_notification_dedupe_key incident chat_id message_preview =
    "telegram|"
    ⧺ chat_id
    ⧺ "|"
    ⧺ attribute (λ r. r.source) incident
    ⧺ "|"
    ⧺ attribute service_of incident
    ⧺ "|"
    ⧺ attribute (λ r. r.title) incident
    ⧺ "|"
    ⧺ strip (get_or message_preview "")

abbrev pub at_text {ℓ} : {V : Type ℓ} → String → V → (String → V) → String → V
at_text k v f j = if str_eq j k then v else f j

-- `redis_conn.set(key, value, nx=True, ex=window)` on a dedupe key: was it set?
unfoldable pub claim_dedupe_key : String → Uuid → ℕ → Action Bool
claim_dedupe_key key value window w =
    if exists w.now (w.telegram_dedupe key) then (ok false, w) else (
      ok true,
      set_redis w (record w.redis {
        telegram_dedupe = at_text key (set_ex w.now window value) w.telegram_dedupe;
      }),
    )

abbrev pub telegram_service_rate_limit : ℕ
telegram_service_rate_limit = 5

abbrev pub telegram_service_rate_limit_window_seconds : ℕ
telegram_service_rate_limit_window_seconds = 3600

pub record ServiceLimit : Type 0 where
  pub service : String
  pub count : ℕ
  pub exceeded : Bool

-- the name in `_telegram_service_rate_limit_key`
unfoldable pub telegram_service_rate_limit_key : String → String
telegram_service_rate_limit_key service =
    get_or (nonempty (some (strip (get_or (nonempty (some service)) "unknown")))) "unknown"

-- `_telegram_service_rate_limit_state`
unfoldable pub telegram_service_rate_limit_state : String → Action ServiceLimit
telegram_service_rate_limit_state service w =
    let key = telegram_service_rate_limit_key service in
    let (n, s) = incr w.now (w.service_counts key) in
    let s' = if n == 1 then expire w.now telegram_service_rate_limit_window_seconds s else s in
    (
      ok (record {
        service = get_or (nonempty (some service)) "unknown";
        count = n;
        exceeded = ltb telegram_service_rate_limit n;
      }),
      set_redis w (record w.redis { service_counts = at_text key s' w.service_counts }),
    )

-- the item of `_buffer_telegram_digest`
digest_item : ℕ → Option Incident → Option String → DigestItem
digest_item now none message_preview = record {
  incident_id = none;
  title = "";
  severity = "";
  source = "";
  occurrences = 1;
  message_preview = prefix 500 (get_or message_preview "");
  suppressed_at = now;
}
digest_item now (some incident) message_preview = record {
  incident_id = some incident.id;
  title = incident.title;
  severity = incident.severity;
  source = incident.source;
  occurrences = if incident.occurrences == 0 then 1 else incident.occurrences;
  message_preview = prefix 500 (get_or message_preview "");
  suppressed_at = now;
}

abbrev digest_service : Option Incident → String
digest_service none = "unknown"
digest_service (some incident) = get_or (nonempty incident.service) "unknown"

-- `_buffer_telegram_digest`
unfoldable pub buffer_telegram_digest : Option Incident → Option String → Action (Unit {0})
unfolding digest_item
buffer_telegram_digest incident message_preview w = (
  ok tt,
  set_redis w (record w.redis {
    digest = set_ex w.now (telegram_service_rate_limit_window_seconds * 2) (
        insert (digest_service incident) (digest_item w.now incident message_preview)
          (get_or (read w.now w.digest) []));
  }),
)
