-- ===== src/Channel.antt =====
-- worker.py: the circuit breaker and the rate limit of each channel, with their Redis keys.
pub mod Circuit
pub mod Limits
use loboguara.Common.{
  ℕ, ◌+◌, ◌*◌, ◌/◌, max, String, Bool, true, false, Option, none, some, List, [], ◌∷◌, ◌||◌, ok,
  leb, ltb, ◌==◌, if◌then◌else◌,
}
use loboguara.Common.Int.{ℤ, pos, pos_part}
use loboguara.Common.Text.{◌⧺◌, lower}
use loboguara.Models.{
  NotificationChannel, voice, email, telegram, channel_value, channel_eq, Value, Time,
}
use loboguara.Redis.{Slot, exists, incr, expire, set_ex}
use loboguara.World.{World, Env, Store}
use loboguara.Action.{Action, pure, gets, modify, when, ◌>>=◌, ◌>>◌}
use loboguara.Metrics.{set_redis, touch_metrics, count_value}

-- the keys of one channel among those of all
abbrev pub at_channel {ℓ} :
    {V : Type ℓ} → NotificationChannel → V → (NotificationChannel → V) → NotificationChannel → V
at_channel c v f d = if channel_eq d c then v else f d

-- `_channel_is_circuit_open`
unfoldable pub channel_is_circuit_open : NotificationChannel → World → Bool
channel_is_circuit_open c w = exists w.now (w.circuit_open c)

abbrev set_failures : NotificationChannel → Slot ℕ → World → World
set_failures c s w =
    set_redis w (record w.redis { circuit_failures = at_channel c s w.circuit_failures })

-- `_reset_channel_circuit_state`
unfoldable pub reset_channel_circuit_state : NotificationChannel → Action (Unit {0})
reset_channel_circuit_state c w = (ok tt, set_failures c none w)

-- `_open_channel_circuit`
unfoldable pub open_channel_circuit : Env → NotificationChannel → Action (Unit {0})
open_channel_circuit env c w = (
  ok tt,
  set_redis w (record w.redis {
    circuit_open = at_channel c (set_ex w.now env.config.cb_open_seconds 1) w.circuit_open;
    circuit_failures = at_channel c none w.circuit_failures;
  }),
)

-- the INCR of the failure key
unfoldable pub count_failure : NotificationChannel → Action ℕ
count_failure c w = let (n, s) = incr w.now (w.circuit_failures c) in (ok n, set_failures c s w)

pub record Failure : Type 0 where
  pub failures : ℕ
  pub opened : Bool

-- a Boolean as the number that a metric holds
abbrev flag : Bool → ℕ
flag true = 1
flag false = 0

-- `_record_channel_failure`
unfoldable pub record_channel_failure : Env → NotificationChannel → Action Failure
record_channel_failure env c = do
  failures ← count_failure c
  let opened = leb env.config.cb_failure_threshold failures
  when opened (open_channel_circuit env c)
  touch_metrics env (
      ("cb_failures:" ⧺ lower (channel_value c), count_value failures)
      ∷ ("cb_open:" ⧺ lower (channel_value c), count_value (flag opened))
      ∷ [])
  pure (record { failures = failures; opened = opened })

pub record Rate : Type 0 where
  pub limit : ℕ
  pub count : ℕ
  pub window_seconds : ℕ
  pub exceeded : Bool

-- `default if value is None else max(1, int(value))`
abbrev pub at_least_one : ℕ → Option ℤ → ℕ
at_least_one default none = default
at_least_one default (some z) = max 1 (pos_part z)

-- the bucket of `_channel_rate_limit_key`
abbrev pub rate_limit_bucket : ℕ → Time → ℕ
rate_limit_bucket window epoch = epoch / max 1 window

abbrev pub at_bucket {ℓ} : {V : Type ℓ} → ℕ → V → (ℕ → V) → ℕ → V
at_bucket b v f a = if a == b then v else f a

abbrev set_rate_count : NotificationChannel → ℕ → Slot ℕ → World → World
set_rate_count c bucket s w = set_redis w (record w.redis {
  rate_counts = at_channel c (at_bucket bucket s (w.rate_counts c)) w.rate_counts;
})

-- the INCR of the bucket's key, with the EXPIRE of a new one
unfoldable pub count_send : NotificationChannel → ℕ → Action ℕ
count_send c window w =
    let bucket = rate_limit_bucket window w.now in
    let (n, s) = incr w.now (w.rate_counts c bucket) in
    let s' = if n == 1 then expire w.now window s else s in (ok n, set_rate_count c bucket s' w)

-- `_channel_rate_limit_exceeded`
unfoldable pub channel_rate_limit_exceeded :
    Env → NotificationChannel → Option ℤ → Option ℤ → Action Rate
channel_rate_limit_exceeded env c limit_per_minute window_seconds = do
  let limit = at_least_one env.config.channel_rate_limit_per_minute limit_per_minute
  let window = at_least_one env.config.channel_rate_limit_window_seconds window_seconds
  count ← count_send c window
  let exceeded = ltb limit count
  touch_metrics env (
      ("rate_limit_count:" ⧺ lower (channel_value c), count_value count)
      ∷ ("rate_limit_exceeded:" ⧺ lower (channel_value c), count_value (flag exceeded))
      ∷ [])
  pure (record { limit = limit; count = count; window_seconds = window; exceeded = exceeded })
