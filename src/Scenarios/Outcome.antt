-- ===== src/Scenarios/Outcome.antt =====
-- src/scenarios.rs: what a run of the workload returns.
use tak_bench.Prelude.{ℕ, Bool, List}
use tak_bench.Prelude.Bytes.{Str}
use tak_bench.Report.Types.{ParticipantFailure}

pub data RoutingExpectation : Type 0 where
  received not_received : RoutingExpectation

pub record AssertionResult : Type 0 where
  pub sender : Str
  pub receiver : Str
  pub expectation : RoutingExpectation
  pub passed : Bool
  pub received_count : ℕ

pub record ScenarioOutcome : Type 0 where
  pub assertions : List AssertionResult
  pub participant_failures : List ParticipantFailure
