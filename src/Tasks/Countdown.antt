-- ===== src/Tasks/Countdown.antt =====
-- The pause before a retry.
use loboguara.Common.{ℕ, suc, ◌+◌, ◌*◌, ◌/◌, ◌^◌, ◌≤◌, ◌<◌, ◌≡◌, max, min, zero, Bool, false, arith}
use loboguara.Common.Int.{ℤ, pos, pos_part}
use loboguara.Tasks.{retry_countdown}

-- For a positive limit the pause is at least a second, and at most the limit and a third of it, or a
-- second more where a third is less than that.
pub retry_countdown_bounds :
    (backoff : ℤ) (limit : ℕ) (jitter : Bool) (retries draw : ℕ)
    → 0 < limit
    → (1 ≤ pos_part (retry_countdown backoff (pos limit) jitter retries draw))
      × (pos_part (retry_countdown backoff (pos limit) jitter retries draw)
          ≤ limit + max 1 (limit / 3))
unfolding retry_countdown
retry_countdown_bounds backoff limit jitter retries draw h = ground arith

power_pos : (n : ℕ) → 0 < 2 ^ n
power_pos zero = omega arith
power_pos (suc n) = omega (arith, power_pos n)

product_pos : (a b : ℕ) → 0 < a → 0 < b → 0 < a * b
product_pos a b p q = grind arith

doubled_pos : (a n : ℕ) → 0 < a → 0 < a * 2 ^ n
doubled_pos a n p = product_pos a (2 ^ n) p (power_pos n)

closed_form :
    (backoff limit retries draw : ℕ)
    → 0 < backoff
    → 0 < limit
    → retry_countdown (pos backoff) (pos limit) false retries draw
      ≡ pos (min (backoff * 2 ^ retries) limit)
unfolding retry_countdown
closed_form backoff limit retries draw p q =
    let positive = doubled_pos backoff retries p in ground (arith, positive)

power_above : (n : ℕ) → n < 2 ^ n
power_above zero = omega arith
power_above (suc n) = omega (arith, power_above n)

product_above : (a n : ℕ) → 0 < a → n ≤ a * 2 ^ n
product_above zero n p = omega (arith, p)
product_above (suc a) n p = omega (arith, power_above n, nonneg a (2 ^ n))
  where
    nonneg : (a b : ℕ) → b ≤ suc a * b
    nonneg a b = grind arith

double : (a x y : ℕ) → y ≡ 2 * x → a * y ≡ 2 * (a * x)
double a x y h = rw h (grind arith)

power_doubles : (n : ℕ) → 2 ^ suc n ≡ 2 * 2 ^ n
power_doubles n = omega arith

-- the pause in seconds
abbrev pub pause : (backoff limit retries draw : ℕ) → ℕ
pause backoff limit retries draw =
    pos_part (retry_countdown (pos backoff) (pos limit) false retries draw)

-- For a positive base and limit, without jitter, the first pause is the base, or the limit if that is
-- less; each further one is twice the one before, or the limit if that is less; and from the retry on
-- whose number is the limit, at the latest, it is the limit. No draw has a part in it.
pub retry_countdown_doubles :
    (backoff limit : ℕ)
    → 0 < backoff
    → 0 < limit
    → ((draw : ℕ) → pause backoff limit 0 draw ≡ min backoff limit)
      × ((retries before draw : ℕ)
          → pause backoff limit (suc retries) draw
            ≡ min (2 * pause backoff limit retries before) limit)
      × ((retries draw : ℕ) → limit ≤ retries → pause backoff limit retries draw ≡ limit)
retry_countdown_doubles backoff limit p q = (
  (λ draw. rw (closed_form backoff limit 0 draw p q) (omega arith)),
  (λ retries before draw.
      let next = closed_form backoff limit (suc retries) draw p q in
      let last = closed_form backoff limit retries before p q in
      let doubled = double backoff (2 ^ retries) (2 ^ suc retries) (power_doubles retries) in
      rw (next, last, doubled) (omega arith)),
  (λ retries draw late.
      let above = product_above backoff retries p in
      rw (closed_form backoff limit retries draw p q) (omega arith)),
)
