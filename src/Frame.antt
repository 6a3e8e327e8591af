-- ===== src/Frame.antt =====
-- What the calls of Redis and of the outside services leave alone: the tables.
use loboguara.Common.{ℕ, String, Option, [], ◌∷◌}
use loboguara.Common.Int.{ℤ}
use loboguara.Models.{NotificationChannel, Mapping}
use loboguara.World.{World, Env, Db, HttpRequest}
use loboguara.Action.Keeps.{Keeps, keeps_rules}
use loboguara.Metrics.{touch_metrics, increment_metric_counter, refresh_dlq_metric}
use loboguara.Channel.{
  reset_channel_circuit_state, open_channel_circuit, count_failure, record_channel_failure,
  count_send, channel_rate_limit_exceeded,
}
use loboguara.Providers.{http_call}

-- a property of the tables
pub record InDb (Q : Db → Type 0) (w : World) : Type 0 where
  pub holds : Q w.db

module _ {Q : Db → Type 0} where
  pub touch_metrics-InDb :
      (env : Env) (fields : Mapping) → Keeps (InDb Q) (touch_metrics env fields)
  unfolding touch_metrics
  touch_metrics-InDb env [] = record { after = λ w h. record { holds = h.holds } }
  touch_metrics-InDb env (e ∷ fields) = record { after = λ w h. record { holds = h.holds } }

  pub increment_metric_counter-InDb :
      (env : Env) (prefix channel : String)
      → Keeps (InDb Q) (increment_metric_counter env prefix channel)
  unfolding increment_metric_counter
  increment_metric_counter-InDb env prefix channel = record {
    after = λ w h. record { holds = h.holds };
  }

  pub refresh_dlq_metric-InDb : (env : Env) → Keeps (InDb Q) (refresh_dlq_metric env)
  unfolding refresh_dlq_metric
  refresh_dlq_metric-InDb env = record { after = λ w h. record { holds = h.holds } }

  pub reset_channel_circuit_state-InDb :
      (c : NotificationChannel) → Keeps (InDb Q) (reset_channel_circuit_state c)
  unfolding reset_channel_circuit_state
  reset_channel_circuit_state-InDb c = record { after = λ w h. record { holds = h.holds } }

  open_channel_circuit-InDb :
      (env : Env) (c : NotificationChannel) → Keeps (InDb Q) (open_channel_circuit env c)
  unfolding open_channel_circuit
  open_channel_circuit-InDb env c = record { after = λ w h. record { holds = h.holds } }

  count_failure-InDb : (c : NotificationChannel) → Keeps (InDb Q) (count_failure c)
  unfolding count_failure
  count_failure-InDb c = record { after = λ w h. record { holds = h.holds } }

  pub record_channel_failure-InDb :
      (env : Env) (c : NotificationChannel) → Keeps (InDb Q) (record_channel_failure env c)
  unfolding record_channel_failure
  record_channel_failure-InDb env c =
      search (keeps_rules, count_failure-InDb, open_channel_circuit-InDb, touch_metrics-InDb) depth
        9

  pub http_call-InDb : (env : Env) (request : HttpRequest) → Keeps (InDb Q) (http_call env request)
  unfolding http_call
  http_call-InDb env request = record { after = λ w h. record { holds = h.holds } }

  count_send-InDb : (c : NotificationChannel) (window : ℕ) → Keeps (InDb Q) (count_send c window)
  unfolding count_send
  count_send-InDb c window = record { after = λ w h. record { holds = h.holds } }

  pub channel_rate_limit_exceeded-InDb :
      (env : Env) (c : NotificationChannel) (l m : Option ℤ)
      → Keeps (InDb Q) (channel_rate_limit_exceeded env c l m)
  unfolding channel_rate_limit_exceeded
  channel_rate_limit_exceeded-InDb env c l m =
      search (keeps_rules, count_send-InDb, touch_metrics-InDb) depth 9
