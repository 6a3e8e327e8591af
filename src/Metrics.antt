-- ===== src/Metrics.antt =====
-- worker.py: `_touch_metrics`, `_increment_metric_counter` and the metrics built on them. The hash of
-- metrics is one Redis key with an expiry.
use loboguara.Common.{ℕ, ◌+◌, String, Option, some, [], ◌∷◌, ok, lookup, insert, length, get_or}
use loboguara.Common.Int.{pos}
use loboguara.Common.Text.{◌⧺◌}
use loboguara.Models.{Mapping, Value, integer}
use loboguara.Redis.{Slot, read, set_ex}
use loboguara.World.{World, Env, Store}
use loboguara.Action.{Action}

-- HSET: each field in turn
unfoldable pub set_fields : Mapping → Mapping → Mapping
set_fields hash [] = hash
set_fields hash ((k, v) ∷ fields) = set_fields (insert k v hash) fields

counted : Option Value → Value
counted (some (integer (pos n))) = integer (pos (n + 1))
counted _ = integer (pos 1)

-- HINCRBY, on the fields that the program only counts in
unfoldable pub add_to_field : String → Mapping → Mapping
unfolding counted
add_to_field k hash = insert k (counted (lookup k hash)) hash

-- the hash as it stands, with the time of this change and a new expiry
unfoldable pub refreshed : Env → (Mapping → Mapping) → World → Slot Mapping
refreshed env f w =
    set_ex w.now env.config.metrics_ttl_seconds
      (insert "updated_at" (integer (pos w.now)) (f (get_or (read w.now w.metrics) [])))

abbrev pub set_redis : World → Store → World
set_redis w s = record w { redis = s }

unfoldable pub write_metrics : Env → (Mapping → Mapping) → Action (Unit {0})
write_metrics env f w = (ok tt, set_redis w (record w.redis { metrics = refreshed env f w }))

unfoldable pub touch_metrics : Env → Mapping → Action (Unit {0})
unfolding write_metrics
touch_metrics env [] w = (ok tt, w)
touch_metrics env (e ∷ fields) w = write_metrics env (λ hash. set_fields hash (e ∷ fields)) w

unfoldable pub increment_metric_counter : Env → String → String → Action (Unit {0})
unfolding write_metrics
increment_metric_counter env prefix channel =
    write_metrics env (add_to_field (prefix ⧺ ":" ⧺ channel))

abbrev pub count_value : ℕ → Value
count_value n = integer (pos n)

-- `_refresh_dlq_metric`
unfoldable pub refresh_dlq_metric : Env → Action (Unit {0})
unfolding touch_metrics
refresh_dlq_metric env w = touch_metrics env (("dlq_size", count_value (length w.dlq)) ∷ []) w
