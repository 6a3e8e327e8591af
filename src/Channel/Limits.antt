-- ===== src/Channel/Limits.antt =====
-- The rate limit of a channel: how many sends one bucket of time admits.
use native.Mathlib.Nat.{div-add-mod}
use loboguara.Common.{
  ℕ, ◌+◌, ◌-◌, ◌*◌, ◌/◌, ◌<◌, ◌≡◌, ap, ◌∙◌, none, some, List, [], ◌∷◌, arith, ok, err, ltb, Result,
  min, max, length, All, if◌then◌else◌,
}
use loboguara.Models.{NotificationChannel, channel_eq_refl}
use loboguara.Redis.{read}
use loboguara.World.{World, Env}
use loboguara.Action.{combinators}
use loboguara.Metrics.{touch_metrics}
use loboguara.Channel.{channel_rate_limit_exceeded, count_send, rate_limit_bucket, Rate}

-- one for a send that the limit lets pass
abbrev passes : Result Rate → ℕ
passes (ok r) = if r.exceeded then 0 else 1
passes (err _) = 0

-- how many of the sends at these times the limit lets pass
pub admitted : Env → NotificationChannel → List ℕ → World → ℕ
admitted env c [] w = 0
admitted env c (t ∷ ts) w =
    let (r, w') = channel_rate_limit_exceeded env c none none (record w { now = t }) in
    passes r + admitted env c ts w'

-- two times of one bucket are less than a window apart
bucket_span : (n s t b : ℕ) → 0 < n → s / n ≡ b → t / n ≡ b → t < s + n
bucket_span n s t b p hs ht =
    grind
      (arith, div-add-mod s n, div-add-mod t n, ap (λ (q : ℕ). n * q) hs, ap (λ (q : ℕ). n * q) ht)

bucket_apart :
    (n s t b : ℕ) → 0 < n → rate_limit_bucket n s ≡ b → rate_limit_bucket n t ≡ b → t < s + n
bucket_apart n s t b p hs ht =
    let e : max 1 n ≡ n = omega arith in bucket_span n s t b p (rw e at hs) (rw e at ht)

-- Throughout the bucket the channel's key counts `k` sends.
abbrev Counts : Env → NotificationChannel → ℕ → ℕ → World → Type 0
Counts env c b k w =
    (t : ℕ)
    → rate_limit_bucket env.config.channel_rate_limit_window_seconds t ≡ b
    → read t (w.rate_counts c b) ≡ (if ltb 0 k then some k else none)

module _ (env : Env) (c : NotificationChannel) (b k t : ℕ) (w : World) where
  abbrev window : ℕ
  window = env.config.channel_rate_limit_window_seconds

  step_passes :
      rate_limit_bucket window t ≡ b
      → Counts env c b k w
      → passes (channel_rate_limit_exceeded env c none none (record w { now = t })).0
        ≡ (if ltb k env.config.channel_rate_limit_per_minute then 1 else 0)
  unfolding channel_rate_limit_exceeded count_send touch_metrics combinators
  step_passes e h = ground (arith, h t e)

  step_Counts :
      0 < window
      → rate_limit_bucket window t ≡ b
      → Counts env c b k w
      → Counts env c b
          (k + 1)
          (channel_rate_limit_exceeded env c none none (record w { now = t })).1
  unfolding channel_rate_limit_exceeded count_send touch_metrics combinators
  step_Counts p e h s e' =
      ground (arith, h t e, h s e', bucket_apart window t s b p e e', channel_eq_refl c)

-- The sends that pass, after `k` of the bucket.
admitted_from :
    (env : Env) (c : NotificationChannel) (b k : ℕ) (ts : List ℕ) (w : World)
    → 0 < env.config.channel_rate_limit_window_seconds
    → All (λ t. rate_limit_bucket env.config.channel_rate_limit_window_seconds t ≡ b) ts
    → Counts env c b k w
    → admitted env c ts w ≡ min (length ts) (env.config.channel_rate_limit_per_minute - k)
unfolding admitted
admitted_from env c b k [] w p all h = omega arith
admitted_from env c b k (t ∷ ts) w p (e, all) h = ground (
  arith,
  step_passes env c b k t w e h,
  admitted_from env c b (k + 1) ts
      (channel_rate_limit_exceeded env c none none (record w { now = t })).1 p all
      (step_Counts env c b k t w p e h),
)

-- Of the sends of one bucket of time, on a channel that has sent nothing in it, as many pass as the
-- limit says: the first ones, however many are tried.
pub rate_limit_exact :
    (env : Env) (c : NotificationChannel) (b : ℕ) (ts : List ℕ) (w : World)
    → 0 < env.config.channel_rate_limit_window_seconds
    → All (λ t. rate_limit_bucket env.config.channel_rate_limit_window_seconds t ≡ b) ts
    → w.rate_counts c b ≡ none
    → admitted env c ts w ≡ min (length ts) env.config.channel_rate_limit_per_minute
rate_limit_exact env c b ts w p all empty =
    admitted_from env c b 0 ts w p all (λ t e. ground arith) ∙ omega arith
