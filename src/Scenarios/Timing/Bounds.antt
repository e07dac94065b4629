-- ===== src/Scenarios/Timing/Bounds.antt =====
-- src/scenarios.rs: the bounds of the reconnect backoff and of the emission interval.
use native.Mathlib.Nat.{mul-le-mul_left, pow-le-pow_right, one-le-pow}
use tak_bench.Prelude.{ℕ, ◌+◌, ◌-◌, ◌≤◌, ◌≡◌, arith}
use tak_bench.Prelude.Time.{max_duration}
use tak_bench.Config.Types.{ReconnectConfig}
use tak_bench.Scenarios.Timing.{multiplier, base_delay}

multiplier-positive : (attempt : ℕ) → 1 ≤ multiplier attempt
unfolding multiplier
multiplier-positive attempt = omega (arith, one-le-pow (attempt - 1) 2 (omega arith))

multiplier-grows : (attempt : ℕ) → multiplier attempt ≤ multiplier (attempt + 1)
unfolding multiplier
multiplier-grows attempt = omega (
  arith,
  pow-le-pow_right {n = 2} (omega arith) {i = attempt - 1} {j = attempt + 1 - 1} (omega arith),
)

first_delay :
    (config : ReconnectConfig)
    → config.min_backoff ≤ config.max_backoff
    → config.max_backoff ≤ max_duration
    → base_delay config 1 ≡ config.min_backoff
unfolding base_delay multiplier
first_delay config ordered bounded = omega (arith, ordered, bounded)

-- Between the bounds of an accepted configuration, the backoff before jitter is at least the smallest and
-- at most the largest one, starts at the smallest one, and never shrinks from one attempt to the next.
pub base_delay-bounds :
    (config : ReconnectConfig) (attempt : ℕ)
    → config.min_backoff ≤ config.max_backoff
    → config.max_backoff ≤ max_duration
    → (config.min_backoff ≤ base_delay config attempt)
      × (base_delay config attempt ≤ config.max_backoff)
      × (base_delay config 1 ≡ config.min_backoff)
      × (base_delay config attempt ≤ base_delay config (attempt + 1))
unfolding base_delay
base_delay-bounds config attempt ordered bounded =
    let least = config.min_backoff in
    let product = mul-le-mul_left least (multiplier-positive attempt) in
    let growing = mul-le-mul_left least (multiplier-grows attempt) in
    (
      omega (arith, product, ordered, bounded),
      omega arith,
      first_delay config ordered bounded,
      omega (arith, growing),
    )
