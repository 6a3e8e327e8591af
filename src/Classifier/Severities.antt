-- ===== src/Classifier/Severities.antt =====
-- classifier.py: the severities that `classify_log_line` and what it calls return.
use loboguara.Common.{
  String, Bool, true, false, ◌≡◌, refl, ◌∙◌, Option, none, some, List, [], ◌∷◌, any, all, lookup,
  str_eq, inl, inr, Option-cases, if◌then◌else◌, arith,
}
use loboguara.Common.Text.{lower, strip}
use loboguara.Models.{Fields}
use loboguara.World.{Env}
use loboguara.Providers.{truthy_entry}
use loboguara.Classifier.Services.{
  severity_from_json, severity_under, normalize_service, parsed_json, json_level_severity,
}
use loboguara.Classifier.Rules.{
  SeverityTitle, default_severity, default_text_classification, classify_postgres, classify_redis,
  classify_celery, classify_sargaco, classify_loki,
}
use loboguara.Classifier.Seriema.{classify_seriema}
use loboguara.Classifier.Veredas.{
  classify_veredas, veredas_body, veredas_by_words, veredas_stated, stated,
}
use loboguara.Classifier.Lines.{
  classify_by_service, classify_stated, classify_parsed, classify_line, classify_log_line,
}

abbrev pub severities : List String
severities = "INFO" ∷ "WARN" ∷ "ERROR" ∷ "CRITICAL" ∷ "FATAL" ∷ []

abbrev pub is_severity : String → Bool
is_severity s = any (str_eq s) severities

record KnownSeverity (r : SeverityTitle) : Type 0 where
  pub is_known : is_severity r.0 ≡ true

known_if :
    (b : Bool) (x y : SeverityTitle)
    → KnownSeverity x
    → KnownSeverity y
    → KnownSeverity (if b then x else y)
known_if true x y hx hy = hx
known_if false x y hx hy = hy

known_info : (t : String) → KnownSeverity ("INFO", t)
known_info t = record { is_known = refl }

known_warn : (t : String) → KnownSeverity ("WARN", t)
known_warn t = record { is_known = refl }

known_error : (t : String) → KnownSeverity ("ERROR", t)
known_error t = record { is_known = refl }

known_critical : (t : String) → KnownSeverity ("CRITICAL", t)
known_critical t = record { is_known = refl }

known_fatal : (t : String) → KnownSeverity ("FATAL", t)
known_fatal t = record { is_known = refl }

ruleset severity_rules =
    (known_if, known_info, known_warn, known_error, known_critical, known_fatal)

either_severity :
    (b : Bool) (s t title : String)
    → KnownSeverity (s, title)
    → KnownSeverity (t, title)
    → KnownSeverity ((if b then s else t), title)
either_severity true s t title hs ht = hs
either_severity false s t title hs ht = ht

default-KnownSeverity : (head line : String) → KnownSeverity (default_text_classification head line)
unfolding default_text_classification default_severity
default-KnownSeverity head line = search (severity_rules, either_severity) depth 12

postgres-KnownSeverity : (line : String) → KnownSeverity (classify_postgres line)
unfolding classify_postgres
postgres-KnownSeverity line = search (severity_rules, default-KnownSeverity) depth 14

redis-KnownSeverity : (line : String) → KnownSeverity (classify_redis line)
unfolding classify_redis
redis-KnownSeverity line = search (severity_rules, default-KnownSeverity) depth 14

celery-KnownSeverity : (service line : String) → KnownSeverity (classify_celery service line)
unfolding classify_celery
celery-KnownSeverity service line = search (severity_rules, default-KnownSeverity) depth 14

sargaco-KnownSeverity : (line : String) → KnownSeverity (classify_sargaco line)
unfolding classify_sargaco
sargaco-KnownSeverity line = search (severity_rules, default-KnownSeverity) depth 14

loki-KnownSeverity : (line : String) → KnownSeverity (classify_loki line)
unfolding classify_loki
loki-KnownSeverity line = search (severity_rules, default-KnownSeverity) depth 14

seriema-KnownSeverity :
    (env : Env) (service line : String) (labels : Fields)
    → KnownSeverity (classify_seriema env service line labels)
unfolding classify_seriema
seriema-KnownSeverity env service line labels =
    search (severity_rules, default-KnownSeverity) depth 14

-- Each value of the table is a severity.
lookup-severity :
    (table : List (String × String)) (level severity : String)
    → all (λ entry. is_severity entry.1) table ≡ true
    → lookup level table ≡ some severity
    → is_severity severity ≡ true
lookup-severity [] level severity known h = ground arith
lookup-severity ((j, v) ∷ table) level severity known h =
    ground (arith, lookup-severity table level severity)

severity_under-known :
    (env : Env) (parsed : Fields) (keys : List String) (severity : String)
    → severity_under env parsed keys ≡ some severity
    → is_severity severity ≡ true
unfolding severity_under
severity_under-known env parsed [] severity h = ground arith
severity_under-known env parsed (key ∷ keys) severity h =
    let rest = severity_under-known env parsed keys severity in
    elim (Option-cases (truthy_entry key parsed)) [
      | inl missing ↦ rest (rw (severity_under, missing) at h)
      | inr (v, found) ↦
          elim (Option-cases (lookup (lower (strip (env.value_text v))) json_level_severity)) [
            | inl unknown ↦ rest (rw (severity_under, found, unknown) at h)
            | inr (s, known) ↦
                lookup-severity json_level_severity (lower (strip (env.value_text v))) severity refl
                  (known ∙ (rw (severity_under, found, known) at h))
          ]
    ]

stated-KnownSeverity :
    (env : Env) (parsed : Fields) (severity title : String)
    → severity_from_json env parsed ≡ some severity
    → KnownSeverity (severity, title)
unfolding severity_from_json
stated-KnownSeverity env parsed severity title h = record {
  is_known =
      severity_under-known env parsed ("severity" ∷ "level" ∷ "log_level" ∷ "status" ∷ []) severity
        h;
}

-- what follows the tests of words in a line of Veredas
veredas_stated-KnownSeverity :
    (env : Env) (parsed : Option Fields) (message remainder : String)
    → KnownSeverity (veredas_stated (stated env parsed) message remainder)
unfolding veredas_stated
veredas_stated-KnownSeverity env none message remainder = search (default-KnownSeverity)
veredas_stated-KnownSeverity env (some parsed) message remainder =
    elim (Option-cases (severity_from_json env parsed)) [
      | inl missing ↦ rw missing (default-KnownSeverity "Veredas log" remainder)
      | inr (s, found) ↦ rw found (stated-KnownSeverity env parsed s _ found)
    ]

veredas-KnownSeverity : (env : Env) (line : String) → KnownSeverity (classify_veredas env line)
unfolding classify_veredas veredas_body veredas_by_words
veredas-KnownSeverity env line = search (severity_rules, veredas_stated-KnownSeverity) depth 20

by_service-KnownSeverity :
    (env : Env) (service line : String) (labels : Fields)
    → KnownSeverity (classify_by_service env service line labels)
unfolding classify_by_service
by_service-KnownSeverity env service line labels =
    search
      (
        severity_rules, postgres-KnownSeverity, redis-KnownSeverity, loki-KnownSeverity,
        sargaco-KnownSeverity, veredas-KnownSeverity, celery-KnownSeverity, seriema-KnownSeverity,
        default-KnownSeverity,
      )
      depth 12

retitled-KnownSeverity :
    (r : SeverityTitle) (title : String) → KnownSeverity r → KnownSeverity (r.0, title)
retitled-KnownSeverity r title h = record { is_known = h.is_known }

stated_line-KnownSeverity :
    (env : Env) (service message title : String) (labels parsed : Fields)
    → KnownSeverity
        (classify_stated env (severity_from_json env parsed) service message title labels)
unfolding classify_stated
stated_line-KnownSeverity env service message title labels parsed =
    elim (Option-cases (severity_from_json env parsed)) [
      | inl missing ↦ rw missing (by_service-KnownSeverity env service message labels)
      | inr (s, found) ↦ rw found (stated-KnownSeverity env parsed s _ found)
    ]

parsed-KnownSeverity :
    (env : Env) (service line : String) (labels parsed : Fields)
    → KnownSeverity (classify_parsed env service line labels parsed)
unfolding classify_parsed
parsed-KnownSeverity env service line labels parsed =
    search (known_if, retitled-KnownSeverity, seriema-KnownSeverity, stated_line-KnownSeverity)
      depth 6

line-KnownSeverity :
    (env : Env) (service line : String) (labels : Fields) (parsed : Option Fields)
    → KnownSeverity (classify_line env service line labels parsed)
unfolding classify_line
line-KnownSeverity env service line labels none = by_service-KnownSeverity env service line labels
line-KnownSeverity env service line labels (some parsed) =
    parsed-KnownSeverity env service line labels parsed

-- Whatever the service, the line and the labels are, the severity is INFO, WARN, ERROR, CRITICAL or
-- FATAL.
pub classify_log_line-severity :
    (env : Env) (service log_line : String) (labels : Fields)
    → is_severity (classify_log_line env service log_line labels).0 ≡ true
unfolding classify_log_line
classify_log_line-severity env service log_line labels =
    (line-KnownSeverity env (normalize_service env service labels) (strip log_line) labels
      (parsed_json env (strip log_line))).is_known
