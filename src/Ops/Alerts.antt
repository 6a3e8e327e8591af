-- ===== src/Ops/Alerts.antt =====
-- main.py: `_build_operational_alerts`, `_overall_severity` and `get_ops_alerts`.
use loboguara.Common.{
  ℕ, ◌*◌, ◌≤◌, ◌≡◌, refl, arith, inl, inr, String, Bool, true, false, none, some, List, [], ◌∷◌,
  ◌++◌, any, ◌⊎◌, str_eq_refl, ◌&&◌, lookup, ltb, str_eq, Result, ok, if◌then◌else◌, length,
}
use loboguara.Common.Int.{ℤ, pos, leb_ℤ, scale}
use loboguara.Models.{Mapping, py_int}
use loboguara.World.{Env}
use loboguara.Action.{Action, pure, gets, lift, ◌>>=◌}
use loboguara.Providers.{truthy}
use loboguara.Ops.Sla.{SlaMetrics, calculate_sla_metrics}
use loboguara.Ops.Queues.{QueueMetrics, get_queue_metrics, get_ops_metrics}

-- schemas.py: `OperationalAlert`, without its texts; the rate of acknowledgments is given by its
-- counts
pub data Measure : Type 0 where
  amount : ℤ → Measure
  rate : ℕ → ℕ → Measure

pub record OperationalAlert : Type 0 where
  pub alert_type : String
  pub severity : String
  pub actual : Measure

-- `metrics_snapshot.get("dlq_size") or queue_metrics.dlq or 0`, as an `int`
unfoldable pub dlq_size_of : Mapping → QueueMetrics → Result ℤ
dlq_size_of metrics queues = elim (lookup "dlq_size" metrics) [
  | none ↦ ok (pos queues.dlq_length)
  | some v ↦ if truthy v then py_int v else ok (pos queues.dlq_length)
]

-- the alert of a size against its two thresholds, the higher one first
unfoldable pub size_alert : String → (critical warn size : ℤ) → List OperationalAlert
size_alert name critical warn size =
    if leb_ℤ critical size
    then record { alert_type = name; severity = "critical"; actual = amount size } ∷ []
    else if leb_ℤ warn size
    then record { alert_type = name; severity = "warn"; actual = amount size } ∷ []
    else []

-- the alert of the rate of acknowledgments
unfoldable pub rate_alert : ℕ × ℕ → SlaMetrics → List OperationalAlert
rate_alert least sla =
    let low = ltb (sla.acknowledged_incidents * least.1) (least.0 * sla.total_incidents) in
    let half = ltb (2 * sla.acknowledged_incidents * least.1) (least.0 * sla.total_incidents) in
    if ltb 0 sla.total_incidents && low
    then record {
      alert_type = "ack_rate_24h";
      severity = if half then "critical" else "warn";
      actual = rate sla.acknowledged_incidents sla.total_incidents;
    }
      ∷ []
    else []

-- `_build_operational_alerts`
unfoldable pub build_operational_alerts :
    Env → QueueMetrics → Mapping → Action (List OperationalAlert)
build_operational_alerts env queues metrics = do
  size ← lift (dlq_size_of metrics queues)
  sla ← gets (calculate_sla_metrics 24)
  pure (
      size_alert "dlq_size" env.config.alert_dlq_crit env.config.alert_dlq_warn size
      ++ size_alert "queue_backlog:dispatch" (scale env.config.alert_queue_warn 2)
          env.config.alert_queue_warn (pos queues.dispatch_length)
      ++ size_alert "queue_backlog:voice" (scale env.config.alert_queue_warn 2)
          env.config.alert_queue_warn (pos queues.voice_length)
      ++ rate_alert env.config.alert_ack_rate_warn sla)

-- `_severity_rank`
unfoldable pub severity_rank : String → ℕ
severity_rank s =
    if str_eq s "info"
    then 1
    else if str_eq s "warn"
    then 2
    else if str_eq s "critical"
    then 3
    else 0

-- `max(alerts, key=...)` behind the first alert
max_alert : OperationalAlert → List OperationalAlert → OperationalAlert
max_alert best [] = best
max_alert best (a ∷ alerts) =
    let kept = max_alert best alerts in
    let changed = max_alert a alerts in
    if ltb (severity_rank best.severity) (severity_rank a.severity) then changed else kept

-- `_overall_severity`
unfoldable pub overall_severity : List OperationalAlert → String
unfolding max_alert
overall_severity [] = "ok"
overall_severity (a ∷ alerts) = (max_alert a alerts).severity

-- schemas.py: `OpsAlertsResponse`
pub record OpsAlerts : Type 0 where
  pub overall : String
  pub alert_count : ℕ
  pub alerts : List OperationalAlert
  pub metrics : Mapping
  pub queue_metrics : QueueMetrics

-- `get_ops_alerts`
unfoldable pub get_ops_alerts : Env → Action OpsAlerts
get_ops_alerts env = do
  metrics ← gets get_ops_metrics
  queues ← gets get_queue_metrics
  alerts ← build_operational_alerts env queues metrics
  pure (record {
    overall = overall_severity alerts;
    alert_count = length alerts;
    alerts = alerts;
    metrics = metrics;
    queue_metrics = queues;
  })

abbrev pub is_above : String → OperationalAlert → Bool
is_above severity a = ltb (severity_rank severity) (severity_rank a.severity)

max_alert-grows :
    (best : OperationalAlert) (alerts : List OperationalAlert)
    → severity_rank best.severity ≤ severity_rank (max_alert best alerts).severity
unfolding max_alert
max_alert-grows best [] = omega arith
max_alert-grows best (a ∷ alerts) =
    ground (arith, max_alert-grows best alerts, max_alert-grows a alerts)

max_alert-tops :
    (best : OperationalAlert) (alerts : List OperationalAlert)
    → any (is_above (max_alert best alerts).severity) alerts ≡ false
unfolding max_alert
max_alert-tops best [] = refl
max_alert-tops best (a ∷ alerts) = ground (
  arith,
  max_alert-tops best alerts,
  max_alert-tops a alerts,
  max_alert-grows best alerts,
  max_alert-grows a alerts,
)

max_alert-among :
    (best : OperationalAlert) (alerts : List OperationalAlert)
    → any (λ a. str_eq (max_alert best alerts).severity a.severity) (best ∷ alerts) ≡ true
unfolding max_alert
max_alert-among best [] = rw (str_eq_refl best.severity) refl
max_alert-among best (a ∷ alerts) =
    ground (arith, max_alert-among best alerts, max_alert-among a alerts)

-- The overall severity is ok where there are no alerts; and where there are some, it is the severity of
-- one of them, and none of them has a higher rank.
pub overall_severity_max :
    (alerts : List OperationalAlert)
    → ((alerts ≡ []) × (overall_severity alerts ≡ "ok"))
      ⊎ ((any (λ a. str_eq (overall_severity alerts) a.severity) alerts ≡ true)
          × (any (is_above (overall_severity alerts)) alerts ≡ false))
unfolding overall_severity
overall_severity_max [] = inl (refl, refl)
overall_severity_max (a ∷ alerts) =
    let tops = max_alert-tops a alerts in
    let grows = max_alert-grows a alerts in inr (max_alert-among a alerts, ground arith)
