-- ===== src/Thresholds/Tests.antt =====
-- src/thresholds.rs: its test, and the theorems at its snapshots.
use tak_bench.Prelude.{ℕ, ◌≤◌, ◌<◌, ◌≡◌, refl, ◌↔◌, ◌⊎◌, none, some, max, unwrap_or}
use tak_bench.Prelude.Float.{micros}
use tak_bench.Config.Types.{AbortConfig}
use tak_bench.Config.Defaults.{default_abort}
use tak_bench.Metrics.{MetricsSnapshot, no_snapshot}
use tak_bench.Thresholds.Evaluate.{
  ThresholdViolation, message_error_rate, dropped_messages, ratio, too_few_samples, connection_rate,
  message_rate, exceeds_rate, exceeds_latency, exceeds_count, evaluate,
}
use tak_bench.Thresholds.Verdict.{IsWithinLimits, Holds, evaluate-none_iff, evaluate-Holds}

abbrev timeouts_seen : MetricsSnapshot ℕ
timeouts_seen = record no_snapshot { sent_messages = 10; message_timeouts = 2 }

abbrev one_in_ten : AbortConfig ℕ
one_in_ten = record default_abort { message_error_rate = some (micros.literal 1 10) }

abbrev one_in_five : ThresholdViolation micros
one_in_five = message_error_rate (micros.literal 1 5)

evaluation : ℕ
unfolding ratio too_few_samples connection_rate message_rate exceeds_rate exceeds_latency
    exceeds_count evaluate
evaluation = 0

message_timeouts_trigger : evaluate micros one_in_ten timeouts_seen ≡ some one_in_five
unfolding evaluation
message_timeouts_trigger = refl

drops_trigger :
    evaluate micros
      (record default_abort { max_dropped_messages = some 0 })
      (record no_snapshot { sent_messages = 1; dropped_messages = 1 })
    ≡ some (dropped_messages 1)
unfolding evaluation
drops_trigger = refl

evaluate-none_iff_example : (evaluate micros one_in_ten timeouts_seen ≡ none) ↔ (
    (max timeouts_seen.connection_attempts timeouts_seen.sent_messages
      < unwrap_or one_in_ten.min_samples 1)
    ⊎ IsWithinLimits micros one_in_ten timeouts_seen)
evaluate-none_iff_example = evaluate-none_iff micros one_in_ten timeouts_seen

evaluate-Holds_example :
    (unwrap_or one_in_ten.min_samples 1
      ≤ max timeouts_seen.connection_attempts timeouts_seen.sent_messages)
    × Holds micros one_in_ten timeouts_seen one_in_five
evaluate-Holds_example =
    evaluate-Holds micros one_in_ten timeouts_seen one_in_five message_timeouts_trigger
