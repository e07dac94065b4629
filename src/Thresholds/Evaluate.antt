-- ===== src/Thresholds/Evaluate.antt =====
-- src/thresholds.rs: evaluate and ratio.
use tak_bench.Prelude.{
  ℕ, Bool, Option, none, some, min, max, ltb, ◌==◌, if◌then◌else◌, is_some_and, unwrap_or,
}
use tak_bench.Prelude.Float.{Float}
use tak_bench.Prelude.Time.{Duration, u32_max, saturating_add_u64}
use tak_bench.Config.Types.{AbortConfig}
use tak_bench.Metrics.{MetricsSnapshot}

module _ (f : Float) where
  open f use {F64, literal, from_u32, gt, mul, div, as_secs}

  pub data ThresholdViolation : Type 0 where
    connection_error_rate : F64 → ThresholdViolation
    message_error_rate : F64 → ThresholdViolation
    p95_latency : F64 → ThresholdViolation
    p99_latency : F64 → ThresholdViolation
    dropped_messages : ℕ → ThresholdViolation

  unfoldable pub ratio : ℕ → ℕ → F64
  ratio numerator denominator =
      if denominator == 0
      then literal 0 1
      else div (from_u32 (min numerator u32_max)) (from_u32 (min denominator u32_max))

  -- `max(attempts, sent) < min_samples.unwrap_or(1)`
  unfoldable pub too_few_samples : AbortConfig F64 → MetricsSnapshot F64 → Bool
  too_few_samples config s =
      ltb (max s.connection_attempts s.sent_messages) (unwrap_or config.min_samples 1)

  unfoldable pub connection_rate : MetricsSnapshot F64 → F64
  connection_rate s = ratio s.connection_failures s.connection_attempts

  unfoldable pub message_rate : MetricsSnapshot F64 → F64
  message_rate s = ratio (saturating_add_u64 s.message_timeouts s.dropped_messages) s.sent_messages

  unfoldable pub exceeds_rate : Option F64 → F64 → Bool
  exceeds_rate limit rate = is_some_and limit (λ l. gt rate l)

  -- `value > limit.as_secs_f64() * 1_000.0`, where both are there
  unfoldable pub exceeds_latency : Option Duration → Option F64 → Bool
  exceeds_latency limit value =
      is_some_and limit (λ l. is_some_and value (λ v. gt v (mul (as_secs l) (literal 1000 1))))

  unfoldable pub exceeds_count : Option ℕ → ℕ → Bool
  exceeds_count limit count = is_some_and limit (λ l. ltb l count)

  unfoldable pub evaluate : AbortConfig F64 → MetricsSnapshot F64 → Option ThresholdViolation
  evaluate config s =
      if too_few_samples config s
      then none
      else if exceeds_rate config.connection_error_rate (connection_rate s)
      then some (connection_error_rate (connection_rate s))
      else if exceeds_rate config.message_error_rate (message_rate s)
      then some (message_error_rate (message_rate s))
      else if exceeds_latency config.p95_latency s.delivery_p95_ms
      then some (p95_latency (unwrap_or s.delivery_p95_ms (literal 0 1)))
      else if exceeds_latency config.p99_latency s.delivery_p99_ms
      then some (p99_latency (unwrap_or s.delivery_p99_ms (literal 0 1)))
      else if exceeds_count config.max_dropped_messages s.dropped_messages
      then some (dropped_messages s.dropped_messages)
      else none
