-- ===== src/Template.antt =====
-- worker.py: the names shown in messages, the escaping for Telegram's MarkdownV2 and
-- `_render_notification_template`; the channels that an incident's severity enables.
pub mod Escaping
use Prim.Native.Char.{Char, code}
use Prim.Native.String
use loboguara.Common.{
  ℕ, String, Bool, true, false, not, Option, none, some, List, [], ◌∷◌, ◌&&◌, ◌||◌, lookup, get_or,
  str_eq, ◌==◌, if◌then◌else◌,
}
use loboguara.Common.Text.{◌⧺◌, lower, upper, strip, prefix}
use loboguara.Models.{Rule, Incident, NotificationChannel, voice, telegram, email, channel_value}
use loboguara.World.{Env}

abbrev service_name_map : List (String × String)
service_name_map =
    ("oasis-veredas-backend", "Veredas Backend")
    ∷ ("oasis-veredas-celery-worker", "Celery Worker Ingest")
    ∷ ("oasis-veredas-celery-worker-download", "Celery Worker Download")
    ∷ ("oasis-veredas-celery-worker-parser", "Celery Worker Parser")
    ∷ ("oasis-veredas-celery-worker-compendio", "Celery Worker Compendio")
    ∷ ("oasis-veredas-celery-beat", "Celery Beat")
    ∷ ("oasis-veredas-frontend", "Veredas Frontend")
    ∷ ("oasis-ariranha-backend", "Ariranha Backend")
    ∷ ("oasis-ariranha-frontend", "Ariranha Frontend")
    ∷ ("oasis-candeia-backend", "Candeia Backend")
    ∷ ("oasis-candeia-frontend", "Candeia Frontend")
    ∷ ("oasis-seriema-api", "Seriema API")
    ∷ ("oasis-seriema-worker", "Seriema Worker")
    ∷ ("oasis-seriema-beat", "Seriema Beat")
    ∷ ("oasis-veredas-postgres", "Postgres Veredas")
    ∷ ("oasis-ariranha-postgres", "Postgres Ariranha")
    ∷ ("oasis-candeia-postgres", "Postgres Candeia")
    ∷ ("oasis-veredas-redis", "Redis")
    ∷ ("oasis-sargaco", "Sargaço")
    ∷ []

abbrev source_label_map : List (String × String)
source_label_map =
    ("oasis-radar", "Loki")
    ∷ ("veredas-ingest", "Veredas")
    ∷ ("sentry", "Sentry")
    ∷ ("langfuse", "Langfuse")
    ∷ ("test", "Teste")
    ∷ []

abbrev severity_emoji_map : List (String × String)
severity_emoji_map =
    ("FATAL", "🔴")
    ∷ ("CRITICAL", "🟠")
    ∷ ("ERROR", "🟡")
    ∷ ("WARNING", "⚪")
    ∷ ("INFO", "ℹ\u{fe0f}")
    ∷ []

-- `_simplify_service_name`
simplify_service_name : String → String
simplify_service_name service = get_or (lookup service service_name_map) service

-- `_source_label`
source_label : String → String
source_label source = get_or (lookup source source_label_map) source

-- a text that counts as true
abbrev pub nonempty : Option String → Option String
nonempty none = none
nonempty (some s) = if str_eq s "" then none else some s

-- the membership test of `_escape_telegram_markdown_v2`
is_member : Char → String → Bool
is_member c String.[] = false
is_member c (String.◌∷◌ d s) = code c == code d || is_member c s

abbrev escaped_chars : String
escaped_chars = "\\_*[]()~`>#+-=|{}.!"

abbrev backslash : Char
backslash = "\\"

-- `_escape_telegram_markdown_v2`
unfoldable pub escape_telegram_markdown_v2 : String → String
unfolding is_member
escape_telegram_markdown_v2 String.[] = ""
escape_telegram_markdown_v2 (String.◌∷◌ c s) =
    let rest = escape_telegram_markdown_v2 s in
    if is_member c escaped_chars
    then String.◌∷◌ backslash (String.◌∷◌ c rest)
    else String.◌∷◌ c rest

-- the rule's template for the channel, if it has one that is not empty
rule_template : Option Rule → String → Option String
rule_template none channel = none
rule_template (some rule) channel =
    elim (nonempty (lookup (upper channel) rule.notification_templates_json)) [
      | some t ↦ some t
      | none ↦ nonempty (lookup (lower channel) rule.notification_templates_json)
    ]

telegram_template : Env → Incident → String
unfolding simplify_service_name source_label
telegram_template env incident =
    "*Serviço*: "
    ⧺ simplify_service_name (get_or incident.service "")
    ⧺ "\n"
    ⧺ "*Nível*: "
    ⧺ get_or (lookup incident.severity severity_emoji_map) ""
    ⧺ " "
    ⧺ incident.severity
    ⧺ "\n"
    ⧺ "*Objeto*: "
    ⧺ incident.title
    ⧺ "\n"
    ⧺ "*Fonte*: "
    ⧺ source_label incident.source
    ⧺ "\n"
    ⧺ "*Incident*: "
    ⧺ prefix 8 (env.uuid_text incident.id)

default_template : Env → Incident → String → String
unfolding telegram_template
default_template env incident channel =
    if str_eq (upper channel) "TELEGRAM"
    then telegram_template env incident
    else "[{severity}] {title} | source={source} | incident={incident_id}"

abbrev runbook_of : Option Rule → Option String
runbook_of none = none
runbook_of (some rule) = rule.runbook_url

template_values : Env → Option Rule → Incident → List (String × String)
template_values env rule incident =
    ("severity", incident.severity)
    ∷ ("title", incident.title)
    ∷ ("source", incident.source)
    ∷ ("message", get_or incident.message "")
    ∷ ("incident_id", env.uuid_text incident.id)
    ∷ ("runbook_url", get_or (runbook_of rule) "")
    ∷ []

-- `_render_notification_template`; `str.format` that raises gives the template itself
unfoldable pub render_notification_template : Env → Option Rule → Incident → String → String
unfolding rule_template default_template template_values
render_notification_template env rule incident channel =
    let template = get_or (rule_template rule channel) (default_template env incident channel) in
    let rendered = get_or (env.str_format template (template_values env rule incident)) template in
    if str_eq (upper channel) "TELEGRAM" then escape_telegram_markdown_v2 rendered else rendered

-- `_incident_severity_value`
abbrev incident_severity_value : Incident → String
incident_severity_value incident = upper (strip incident.severity)

-- `_channel_enabled_for_incident`
unfoldable pub channel_enabled_for_incident : Incident → NotificationChannel → Bool
channel_enabled_for_incident incident telegram =
    not (str_eq (incident_severity_value incident) "INFO")
channel_enabled_for_incident incident email = not (str_eq (incident_severity_value incident) "INFO")
channel_enabled_for_incident incident _ = true
