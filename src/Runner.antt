-- ===== src/Runner.antt =====
-- src/runner.rs: the monitor of the abort thresholds, and what a run's outcome becomes in its report,
-- its failure and its last lifecycle event.
pub mod Verdict
pub mod Signals
pub mod Raised
mod Tests
use tak_bench.Prelude.{
  Bool, true, false, ◌&&◌, ◌||◌, not, Option, none, some, List, [], ◌∷◌, ◌++◌, any, is_empty,
  is_some, if◌then◌else◌, Result, ok, err, ◌>>◌, is_err,
}
use tak_bench.Prelude.Bytes.{Str, bytes}
use tak_bench.Prelude.Float.{Float}
use tak_bench.Prelude.Time.{Duration}
use tak_bench.Config.Types.{AppConfig, AbortConfig}
use tak_bench.Lifecycle.{CompletionStatus, LifecycleEvent, run_completed}
use tak_bench.Metrics.{MetricsSnapshot}
use tak_bench.Report.Types.{RunStatus, passed, failed, aborted, ParticipantFailure}
use tak_bench.Report.RunReport
use tak_bench.Report.RunReport.{RunReport}
use tak_bench.Safety.Errors.{SafetyError, SafetyOptions}
use tak_bench.Safety.Policy.{validate_with_options}
use tak_bench.Scenarios.Errors.{AnyError, message_cause}
use tak_bench.Scenarios.Outcome.{AssertionResult, ScenarioOutcome}
use tak_bench.Thresholds.Evaluate.{ThresholdViolation, evaluate}

-- What the workload returned: `run_fixed_positions_with_lifecycle`
abbrev pub Outcome : Type 0
Outcome = Result AnyError ScenarioOutcome

unfoldable pub assertions_of : Outcome → List AssertionResult
assertions_of (ok outcome) = outcome.assertions
assertions_of (err e) = []

unfoldable pub participant_failures_of : Outcome → List ParticipantFailure
participant_failures_of (ok outcome) = outcome.participant_failures
participant_failures_of (err e) = []

unfoldable pub assertions_failed : Outcome → Bool
assertions_failed outcome = any (λ assertion. not assertion.passed) (assertions_of outcome)

unfoldable pub participants_failed : Outcome → Bool
participants_failed outcome = not (is_empty (participant_failures_of outcome))

unfoldable pub is_clean : Outcome → Bool
is_clean outcome =
    not (is_err outcome) && not (assertions_failed outcome) && not (participants_failed outcome)

unfoldable pub stop_reason_of : Option Str → Outcome → Str
stop_reason_of (some reason) outcome = reason
stop_reason_of none outcome =
    if is_clean outcome
    then bytes "completed"
    else if assertions_failed outcome
    then bytes "routing_assertion_failed"
    else bytes "scenario_error"

unfoldable pub status_of : Option Str → Outcome → RunStatus
status_of (some reason) outcome = aborted
status_of none outcome = if is_clean outcome then passed else failed

unfoldable pub failure_of : Outcome → Option AnyError
failure_of (err e) = some e
failure_of (ok outcome) =
    if assertions_failed (ok outcome) || participants_failed (ok outcome)
    then some (message_cause (bytes "run failed; see the sanitized JSON report") ∷ [])
    else none

abbrev pub completion_of : RunStatus → CompletionStatus
completion_of passed = CompletionStatus.passed
completion_of failed = CompletionStatus.failed
completion_of aborted = CompletionStatus.aborted

pub record RunExecution (F64 Time : Type 0) : Type 0 where
  pub report : RunReport F64 Time
  pub failure : Option AnyError

abbrev pub is_passed : RunStatus → Bool
is_passed passed = true
is_passed other = false

module _ {F64 Time : Type 0} where
  -- `RunExecution::passed`
  unfoldable pub has_passed : RunExecution F64 Time → Bool
  has_passed execution = not (is_some execution.failure) && is_passed execution.report.status

  unfoldable pub into_result : RunExecution F64 Time → Result AnyError (RunReport F64 Time)
  into_result execution = elim execution.failure [ none ↦ ok execution.report | some e ↦ err e ]

module _ (f : Float) (show_violation : ThresholdViolation f → Str) where
  open f use {F64}

  abbrev pub first_reason : Option (ThresholdViolation f) → Option Str → Option Str
  first_reason none later = later
  first_reason (some violation) later = some (bytes "threshold:" ++ show_violation violation)

  -- The monitor task, over the snapshots it takes until it is aborted
  unfoldable pub monitor : AbortConfig F64 → List (MetricsSnapshot F64) → Option Str
  monitor config [] = none
  monitor config (snapshot ∷ rest) = first_reason (evaluate f config snapshot) (monitor config rest)

  -- What the run's surroundings give: the workload's outcome, the snapshots, and the times
  pub record Observed (Time : Type 0) : Type 0 where
    pub version : Str
    pub started_at : Time
    pub finished_at : Time
    pub elapsed : Duration
    pub snapshots : List (MetricsSnapshot F64)
    pub final_snapshot : MetricsSnapshot F64
    pub outcome : Outcome

  module _ {Time : Type 0} where
    -- What follows the workload: the report and failure, and the event emitted last
    unfoldable pub complete : AppConfig F64 → Observed Time → RunExecution F64 Time × LifecycleEvent
    complete config seen =
        let threshold = monitor config.abort seen.snapshots in
        let status = status_of threshold seen.outcome in
        (
          record {
            report =
                RunReport.new seen.version seen.finished_at config seen.started_at seen.elapsed
                  seen.final_snapshot (stop_reason_of threshold seen.outcome) status
                  (assertions_of seen.outcome) (participant_failures_of seen.outcome);
            failure = failure_of seen.outcome;
          },
          run_completed (completion_of status),
        )

    unfoldable pub execute_with_lifecycle :
        AppConfig F64
        → SafetyOptions
        → Observed Time
        → Result SafetyError (RunExecution F64 Time × LifecycleEvent)
    execute_with_lifecycle config options seen =
        validate_with_options f config options >> ok (complete config seen)
