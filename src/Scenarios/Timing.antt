-- ===== src/Scenarios/Timing.antt =====
-- src/scenarios.rs: backoff and emission intervals. The random factor is a parameter.
pub mod Bounds
mod Tests
use tak_bench.Prelude.{ℕ, ◌-◌, ◌^◌, none, some, min, max, if◌then◌else◌}
use tak_bench.Prelude.Float.{Float}
use tak_bench.Prelude.Time.{Duration, u32_max, saturating_mul}
use tak_bench.Config.Types.{ReconnectConfig, RunConfig}

-- `2_u32.saturating_pow(attempt.saturating_sub(1))`
unfoldable pub multiplier : ℕ → ℕ
multiplier attempt = min (2 ^ (attempt - 1)) u32_max

unfoldable pub base_delay : ReconnectConfig → ℕ → Duration
unfolding multiplier
base_delay config attempt =
    min (saturating_mul config.min_backoff (multiplier attempt)) config.max_backoff

module _ (f : Float) where
  open f use {F64, literal, from_u32, eq, sub, add, div, from_secs, mul_duration}

  -- `random` draws from the range between its two arguments.
  unfoldable pub reconnect_delay : (F64 → F64 → F64) → ReconnectConfig → ℕ → Duration
  reconnect_delay random config attempt =
      let jitter = div (from_u32 (min config.jitter_percent 100)) (literal 100 1) in
      if eq jitter (literal 0 1)
      then base_delay config attempt
      else mul_duration (base_delay config attempt)
          (random (sub (literal 1 1) jitter) (add (literal 1 1) jitter))

  unfoldable pub emission_interval : RunConfig F64 → Duration
  emission_interval run = elim run.max_rate [
    | none ↦ run.gps_interval
    | some rate ↦ max run.gps_interval (from_secs (div (literal 1 1) rate))
  ]

unfoldable pub minimum_stale_interval : Duration → Duration
minimum_stale_interval interval = saturating_mul interval 2
