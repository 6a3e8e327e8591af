-- ===== src/Channel/Circuit.antt =====
-- The circuit breaker: failures in a row open it, and it closes by itself.
use native.Mathlib.Decide.{dec_lt}
use loboguara.Common.{
  ℕ, zero, suc, ◌+◌, ◌≤◌, ◌<◌, ◌≡◌, refl, ◌∙◌, leb, ◌≢◌, true, false, Option, none, some, arith,
  ltb,
}
use loboguara.Models.{NotificationChannel, channel_eq_refl, channel_eq_iff}
use loboguara.Redis.{read}
use loboguara.World.{World, Env}
use loboguara.Action.{combinators}
use loboguara.Metrics.{touch_metrics}
use loboguara.Channel.{
  channel_is_circuit_open, open_channel_circuit, count_failure, record_channel_failure,
}

-- `n` failures of a channel, one after the other
pub fail_times : Env → NotificationChannel → ℕ → World → World
fail_times env c zero w = w
fail_times env c (suc n) w = fail_times env c n (record_channel_failure env c w).1

-- the failures that a channel's key counts
abbrev pub failures_of : NotificationChannel → World → Option ℕ
failures_of c w = read w.now (w.circuit_failures c)

-- the count as a number
abbrev pub failure_count : NotificationChannel → World → ℕ
failure_count c w = elim (failures_of c w) [ none ↦ 0 | some n ↦ n ]

-- One failure below the threshold counts one more and leaves the circuit as it was.
record_channel_failure_below :
    (env : Env) (c : NotificationChannel) (w : World)
    → failure_count c w + 1 < env.config.cb_failure_threshold
    → (failure_count c (record_channel_failure env c w).1 ≡ failure_count c w + 1)
      × ((record_channel_failure env c w).1.now ≡ w.now)
      × (channel_is_circuit_open c (record_channel_failure env c w).1 ≡ channel_is_circuit_open c w)
unfolding record_channel_failure count_failure open_channel_circuit touch_metrics combinators
    channel_is_circuit_open
record_channel_failure_below env c w h = ground (arith, channel_eq_refl c)

-- The failure that reaches the threshold opens the circuit and clears the count.
record_channel_failure_at :
    (env : Env) (c : NotificationChannel) (w : World)
    → env.config.cb_failure_threshold ≤ failure_count c w + 1
    → 0 < env.config.cb_open_seconds
    → (channel_is_circuit_open c (record_channel_failure env c w).1 ≡ true)
      × (failure_count c (record_channel_failure env c w).1 ≡ 0)
      × ((record_channel_failure env c w).1.now ≡ w.now)
unfolding record_channel_failure count_failure open_channel_circuit touch_metrics combinators
    channel_is_circuit_open
record_channel_failure_at env c w h p = ground (arith, channel_eq_refl c)

-- Below the threshold every failure counts, and the circuit is as it was.
pub fail_times_below :
    (env : Env) (c : NotificationChannel) (n : ℕ) (w : World)
    → failure_count c w + n < env.config.cb_failure_threshold
    → (failure_count c (fail_times env c n w) ≡ failure_count c w + n)
      × (channel_is_circuit_open c (fail_times env c n w) ≡ channel_is_circuit_open c w)
unfolding fail_times
fail_times_below env c zero w h = (omega arith, refl)
fail_times_below env c (suc n) w h =
    let (count, _, same) = record_channel_failure_below env c w (omega arith) in
    let ih = fail_times_below env c n (record_channel_failure env c w).1 (omega (arith, count)) in
    (omega (arith, count, ih.0), ih.1 ∙ same)

-- The failure that makes the count up to the threshold opens the circuit.
fail_times_at :
    (env : Env) (c : NotificationChannel) (n : ℕ) (w : World)
    → failure_count c w + suc n ≡ env.config.cb_failure_threshold
    → 0 < env.config.cb_open_seconds
    → channel_is_circuit_open c (fail_times env c (suc n) w) ≡ true
unfolding fail_times
fail_times_at env c zero w h p = (record_channel_failure_at env c w (omega arith) p).0
fail_times_at env c (suc n) w h p =
    let (count, _, _) = record_channel_failure_below env c w (omega arith) in
    fail_times_at env c n (record_channel_failure env c w).1 (omega (arith, count)) p

-- Failures up to the threshold, from a closed circuit whose key counts none, open the circuit exactly
-- when their number is the threshold, if the settings let a circuit open at all.
pub circuit_opens_at_threshold :
    (env : Env) (c : NotificationChannel) (n : ℕ) (w : World)
    → 0 < env.config.cb_failure_threshold
    → 0 < env.config.cb_open_seconds
    → failure_count c w ≡ 0
    → channel_is_circuit_open c w ≡ false
    → n ≤ env.config.cb_failure_threshold
    → channel_is_circuit_open c (fail_times env c n w) ≡ leb env.config.cb_failure_threshold n
circuit_opens_at_threshold env c zero w pos open_pos clear closed h =
    (fail_times_below env c zero w (omega arith)).1 ∙ closed ∙ ground arith
circuit_opens_at_threshold env c (suc n) w pos open_pos clear closed h =
    elim (dec_lt (suc n) env.config.cb_failure_threshold) [
      | yes p ↦ (fail_times_below env c (suc n) w (omega arith)).1 ∙ closed ∙ ground arith
      | no p ↦ fail_times_at env c n w (omega arith) open_pos ∙ ground arith
    ]

-- An open circuit closes when the open time is over, and not before.
pub circuit_open_until :
    (env : Env) (c : NotificationChannel) (w : World) (t : ℕ)
    → let opened = (open_channel_circuit env c w).1 in
      channel_is_circuit_open c (record opened { now = t })
      ≡ ltb t (w.now + env.config.cb_open_seconds)
unfolding open_channel_circuit channel_is_circuit_open
circuit_open_until env c w t = ground (arith, channel_eq_refl c)

-- A failure of one channel does not touch the circuit or the count of another.
pub record_channel_failure_ne :
    (env : Env) (c d : NotificationChannel) (w : World)
    → c ≢ d
    → (channel_is_circuit_open d (record_channel_failure env c w).1 ≡ channel_is_circuit_open d w)
      × (failure_count d (record_channel_failure env c w).1 ≡ failure_count d w)
unfolding record_channel_failure count_failure open_channel_circuit touch_metrics combinators
    channel_is_circuit_open
record_channel_failure_ne env c d w h = ground (arith, channel_eq_iff d c)
