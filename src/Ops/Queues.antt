-- ===== src/Ops/Queues.antt =====
-- main.py: the lengths of the queues and the hash of metrics, as the endpoints read them; worker.py: the
-- snapshot of the queues. Nothing is sent to the queue of escalations.
use loboguara.Common.{
  ℕ, String, none, some, [], ◌∷◌, length, keep, map, str_eq, get_or, if◌then◌else◌,
}
use loboguara.Common.Text.{has_underscore, parse_int, lower}
use loboguara.Models.{channel_value, Value, text, integer, Mapping}
use loboguara.Redis.{read}
use loboguara.World.{World, Env, Task, dispatch, channel_send, dlq_replay}
use loboguara.Action.{Action, pure, gets, ◌>>=◌, ◌>>◌}
use loboguara.Metrics.{touch_metrics, count_value}
use loboguara.Escalation.{record_periodic_task_heartbeat}

-- the queue of a task: its route, or the name that `apply_async` gives
abbrev pub queue_of : Task → String
queue_of (dispatch _ _) = "dispatch"
queue_of (channel_send c _ _) = lower (channel_value c)
queue_of (dlq_replay _) = "celery"

-- `_queue_length(queue_name(name))`
unfoldable pub queue_length : String → World → ℕ
queue_length name w = length (keep (λ t. str_eq (queue_of t) name) w.tasks)

-- schemas.py: `QueueMetricsResponse`
pub record QueueMetrics : Type 0 where
  pub dispatch_length : ℕ
  pub voice_length : ℕ
  pub telegram_length : ℕ
  pub email_length : ℕ
  pub escalation_length : ℕ
  pub dlq_length : ℕ

-- `get_queue_metrics`
unfoldable pub get_queue_metrics : World → QueueMetrics
get_queue_metrics w = record {
  dispatch_length = queue_length "dispatch" w;
  voice_length = queue_length "voice" w;
  telegram_length = queue_length "telegram" w;
  email_length = queue_length "email" w;
  escalation_length = queue_length "escalation" w;
  dlq_length = length w.dlq;
}

-- `_metric_value_from_redis`; a text of a sign and digits is one without an underscore that `parse_int`
-- reads
unfoldable pub metric_value : Value → Value
metric_value (text s) = elim (parse_int s) [
  | none ↦ text s
  | some z ↦ if has_underscore s then text s else integer z
]
metric_value v = v

-- `parsed_metrics` in `get_ops_metrics` and `get_ops_alerts`
unfoldable pub get_ops_metrics : World → Mapping
get_ops_metrics w =
    map (λ (e : String × Value). (e.0, metric_value e.1)) (get_or (read w.now w.metrics) [])

-- `_snapshot_queue_backlog`
unfoldable pub queue_backlog : World → Mapping
queue_backlog w =
    ("queue_backlog:dispatch", count_value (queue_length "dispatch" w))
    ∷ ("queue_backlog:voice", count_value (queue_length "voice" w))
    ∷ ("queue_backlog:telegram", count_value (queue_length "telegram" w))
    ∷ ("queue_backlog:email", count_value (queue_length "email" w))
    ∷ ("queue_backlog:escalation", count_value (queue_length "escalation" w))
    ∷ ("queue_backlog:dlq", count_value (length w.dlq))
    ∷ []

-- `queue_metrics_snapshot`; no call of it in the model raises
unfoldable pub queue_metrics_snapshot : Env → Action Mapping
queue_metrics_snapshot env = do
  snapshot ← gets queue_backlog
  touch_metrics env snapshot
  record_periodic_task_heartbeat env "queue_metrics_snapshot" "ok"
  pure snapshot
