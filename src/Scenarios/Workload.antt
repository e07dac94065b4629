-- ===== src/Scenarios/Workload.antt =====
-- src/scenarios.rs: run_fixed_positions_with_lifecycle, from its tasks' ends to its outcome, and its
-- two callers with fewer arguments.
pub mod Failures
mod Tests
use tak_bench.Prelude.{
  ℕ, Bool, true, false, ◌&&◌, not, Option, none, some, List, [], ◌∷◌, ◌++◌, map, is_empty,
  if◌then◌else◌, Result, ok, err, ◌>>=◌,
}
use tak_bench.Prelude.Bytes.{Str, bytes}
use tak_bench.Prelude.Float.{Float}
use tak_bench.Prelude.Time.{Duration}
use tak_bench.Config.Types.{AppConfig, ParticipantConfig}
use tak_bench.Report.Types.{ErrorCategory, ErrorPhase, ParticipantFailure}
use tak_bench.Safety.Errors.{SafetyOptions, default_options}
use tak_bench.Scenarios.Errors.{AnyError, classify_participant_error}
use tak_bench.Scenarios.Ledger.{CorrelationLedger, Instant}
use tak_bench.Scenarios.Outcome.{ScenarioOutcome}
use tak_bench.Scenarios.Readiness
use tak_bench.Scenarios.Readiness.{
  ReadinessBarrier, BarrierResult, timed_out, BarrierEvent, mark_ready, missing, wait,
}
use tak_bench.Scenarios.Routing.{evaluate_routing}
use tak_bench.Scenarios.Start.{StartError, started}
use tak_bench.Scenarios.Stop.{DelayEnd, wait_for_delay}

-- How a task ends: with its participant and what it returns, or by a panic
pub data TaskEnd : Type 0 where
  returned : Str → Result AnyError Unit → TaskEnd
  panicked : TaskEnd

-- The task of a participant: nothing where the delay of its start is cut short, or else what
-- run_participant returns
unfoldable pub task_end : Str → Bool → Bool → DelayEnd → Result AnyError Unit → TaskEnd
task_end id stopped late delay_end result =
    if not (wait_for_delay stopped late delay_end) then returned id (ok tt) else returned id result

-- A task that `join_next` gives
unfoldable pub failure_of_task : TaskEnd → List ParticipantFailure
failure_of_task (returned id (ok _)) = []
failure_of_task (returned id (err e)) = classify_participant_error id e ∷ []
failure_of_task panicked =
    record {
      category = ErrorCategory.participant_task_failed;
      phase = ErrorPhase.connect;
      participant = bytes "unknown";
    }
    ∷ []

-- `while let Some(task) = tasks.join_next().await`
unfoldable pub join_tasks : List TaskEnd → List ParticipantFailure
join_tasks [] = []
join_tasks (task ∷ rest) = failure_of_task task ++ join_tasks rest

unfoldable pub readiness_failure : Str → ParticipantFailure
readiness_failure participant = record {
  category = ErrorCategory.readiness_timeout;
  phase = ErrorPhase.readiness;
  participant = participant;
}

unfoldable pub mark_all : List Str → ReadinessBarrier → ReadinessBarrier
mark_all [] b = b
mark_all (participant ∷ rest) b = mark_all rest (mark_ready participant b)

abbrev pub is_timed_out : Option BarrierResult → Bool
is_timed_out (some timed_out) = true
is_timed_out other = false

-- What a run of the workload meets: the barrier's events, who is marked between the end of the wait
-- and the look at who is missing, the ends of the tasks in their order, and the ledger at the end
pub record Met : Type 0 where
  pub started_at : Instant
  pub waits : List BarrierEvent
  pub marked_after : List Str
  pub ends : List TaskEnd
  pub ledger : CorrelationLedger

module _ (f : Float) (shuffle : ℕ → List Duration → List Duration)
    (sort : List Str → List Str) where
  open f use {F64}

  unfoldable pub barrier_of : AppConfig F64 → Instant → ReadinessBarrier
  barrier_of config now = Readiness.new config.synchronization config.run.duration now

  -- Does the workload wait for its barrier in vain? It then stops its tasks.
  unfoldable pub gives_up : AppConfig F64 → Met → Bool
  gives_up config met =
      not (is_empty config.synchronization.wait_for_ready)
      && is_timed_out (wait met.waits (barrier_of config met.started_at)).0

  unfoldable pub still_missing : AppConfig F64 → Met → List Str
  still_missing config met =
      missing sort (mark_all met.marked_after (wait met.waits (barrier_of config met.started_at)).1)

  unfoldable pub readiness_failures : AppConfig F64 → Met → List ParticipantFailure
  readiness_failures config met =
      if gives_up config met then map readiness_failure (still_missing config met) else []

  unfoldable pub outcome_of : AppConfig F64 → Met → ScenarioOutcome
  outcome_of config met = record {
    assertions = evaluate_routing config.scenario.routing met.ledger;
    participant_failures = readiness_failures config met ++ join_tasks met.ends;
  }

  -- The tasks are started, and what they meet makes the outcome.
  unfoldable pub run_fixed_positions_with_lifecycle :
      AppConfig F64
      → SafetyOptions
      → (List (ParticipantConfig × Duration) → Met)
      → Result StartError ScenarioOutcome
  run_fixed_positions_with_lifecycle config options meet =
      started f shuffle config options >>= λ tasks. ok (outcome_of config (meet tasks))

  unfoldable pub run_fixed_positions_with_options :
      AppConfig F64
      → SafetyOptions
      → (List (ParticipantConfig × Duration) → Met)
      → Result StartError ScenarioOutcome
  run_fixed_positions_with_options config options meet =
      run_fixed_positions_with_lifecycle config options meet

  unfoldable pub run_fixed_positions :
      AppConfig F64
      → (List (ParticipantConfig × Duration) → Met)
      → Result StartError ScenarioOutcome
  run_fixed_positions config meet = run_fixed_positions_with_lifecycle config default_options meet
