-- ===== src/Runner/Tests.antt =====
-- src/runner.rs: the theorems at a run that its threshold aborted.
use tak_bench.Prelude.{
  ℕ, true, false, ◌||◌, List, any, is_some, ◌≡◌, ◌↔◌, refl, none, some, [], ◌∷◌, ok, All, is_err,
}
use tak_bench.Prelude.Bytes.{Str, bytes}
use tak_bench.Prelude.Float.{micros}
use tak_bench.Prelude.Time.{from_secs}
use tak_bench.Config.Types.{AppConfig}
use tak_bench.Config.Defaults.{default_config, default_abort}
use tak_bench.Lifecycle.{CompletionStatus, run_completed}
use tak_bench.Metrics.{MetricsSnapshot, no_snapshot}
use tak_bench.Report.Types.{passed, failed, aborted}
use tak_bench.Scenarios.Outcome.{ScenarioOutcome}
use tak_bench.Thresholds.Evaluate.{
  ThresholdViolation, dropped_messages, ratio, too_few_samples, connection_rate, message_rate,
  exceeds_rate, exceeds_latency, exceeds_count, evaluate,
}
use tak_bench.Runner.{Observed, monitor, complete, has_passed, into_result}
use tak_bench.Runner.Raised.{run_tasks-told}
use tak_bench.Runner.Signals.{
  TaskEvent, changed, closed, sampled, is_stop, snapshots_of, forward, start_signals, watch,
  task_step, run_tasks,
}
use tak_bench.Runner.Verdict.{IsClean, complete-passed_iff, aborted-into_result, accounts_agree}

abbrev show_name : ThresholdViolation micros → Str
show_name (dropped_messages n) = bytes "DroppedMessages"
show_name other = bytes "Other"

abbrev no_drops : AppConfig ℕ
no_drops = record default_config { abort = record default_abort { max_dropped_messages = some 0 } }

abbrev one_dropped : MetricsSnapshot ℕ
one_dropped = record no_snapshot { sent_messages = 1; dropped_messages = 1 }

abbrev clean : ScenarioOutcome
clean = record { assertions = []; participant_failures = [] }

abbrev cut_short : Observed micros show_name ℕ
cut_short = record {
  version = bytes "0.1.0";
  started_at = 0;
  finished_at = 2;
  elapsed = from_secs 2;
  snapshots = no_snapshot ∷ one_dropped ∷ [];
  final_snapshot = one_dropped;
  outcome = ok clean;
}

cut_short-IsClean : IsClean cut_short.outcome
cut_short-IsClean = record { result = clean; returned = refl; asserted = tt; unfailed = refl }

one_dropped_violates : ¬ All (λ s. evaluate micros no_drops.abort s ≡ none) cut_short.snapshots
unfolding ratio too_few_samples connection_rate message_rate exceeds_rate exceeds_latency
    exceeds_count evaluate
one_dropped_violates (_, (h, _)) = cc

complete-passed_iff_example :
    (has_passed (complete micros show_name no_drops cut_short).0 ≡ true) ↔ (
      All (λ s. evaluate micros no_drops.abort s ≡ none) cut_short.snapshots
      × IsClean cut_short.outcome)
complete-passed_iff_example = complete-passed_iff micros show_name no_drops cut_short

aborted-into_result_example :
    let run = complete micros show_name no_drops cut_short in
    (has_passed run.0 ≡ false)
    × (run.0.report.status ≡ aborted)
    × (run.1 ≡ run_completed CompletionStatus.aborted)
    × (into_result run.0 ≡ ok run.0.report)
aborted-into_result_example =
    aborted-into_result micros show_name no_drops cut_short cut_short-IsClean one_dropped_violates

accounts_agree_example :
    let run = complete micros show_name no_drops cut_short in
    ((run.0.report.status ≡ passed) ↔ (run.1 ≡ run_completed CompletionStatus.passed))
    × ((run.0.report.status ≡ failed) ↔ (run.1 ≡ run_completed CompletionStatus.failed))
    × ((run.0.report.status ≡ aborted) ↔ (run.1 ≡ run_completed CompletionStatus.aborted))
    × ((run.0.report.abort_reason ≡ none) ↔ (run.0.report.status ≡ passed))
    × (run.0.report.status ≡ failed → is_err (into_result run.0) ≡ true)
accounts_agree_example = accounts_agree micros show_name no_drops cut_short

-- The first snapshot is clean, the caller keeps its flag down, and the second snapshot violates.
abbrev dropping : List (TaskEvent ℕ)
dropping = sampled no_snapshot ∷ changed false ∷ sampled one_dropped ∷ closed ∷ []

told_why :
    (run_tasks micros show_name no_drops.abort dropping (start_signals false)).reason
    ≡ some (bytes "threshold:DroppedMessages")
unfolding run_tasks task_step watch forward ratio too_few_samples connection_rate message_rate
    exceeds_rate exceeds_latency exceeds_count evaluate
told_why = refl

run_tasks-told_example :
    let found = monitor micros show_name no_drops.abort (snapshots_of dropping) in
    let end = run_tasks micros show_name no_drops.abort dropping (start_signals false) in
    (end.flag ≡ false || (any is_stop dropping || is_some found)) × (end.reason ≡ found)
run_tasks-told_example = run_tasks-told micros show_name no_drops.abort false dropping
