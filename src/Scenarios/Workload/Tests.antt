-- ===== src/Scenarios/Workload/Tests.antt =====
-- src/scenarios.rs: the outcome of a run with two clients.
use tak_bench.Prelude.{◌≡◌, ◌↔◌, refl, List, [], ◌∷◌, ◌++◌, ok, err}
use tak_bench.Prelude.Bytes.{Str, bytes}
use tak_bench.Prelude.Float.{micros}
use tak_bench.Prelude.Time.{Duration}
use tak_bench.Config.Types.{ParticipantConfig}
use tak_bench.Safety.Errors.{default_options}
use tak_bench.Scenarios.Errors.{runtime_cause, ParticipantRuntimeError}
use tak_bench.Scenarios.Ledger.{empty}
use tak_bench.Scenarios.Outcome.{ScenarioOutcome}
use tak_bench.Scenarios.Start.{started}
use tak_bench.Scenarios.Start.Sample.{turn, two_clients, two_started}
use tak_bench.Scenarios.Workload.{
  Met, returned, panicked, outcome_of, run_fixed_positions_with_lifecycle,
}
use tak_bench.Scenarios.Workload.Failures.{names, IsGivenUp, failed_tasks, failures-named}

-- The second client's peer closes, and a task panics.
abbrev met : Met
met = record {
  started_at = 0;
  waits = [];
  marked_after = [];
  ends =
      returned (bytes "client-1") (err (runtime_cause ParticipantRuntimeError.peer_closed ∷ []))
      ∷ panicked
      ∷ returned (bytes "client-0") (ok tt)
      ∷ [];
  ledger = empty;
}

abbrev outcome : ScenarioOutcome
outcome = outcome_of micros turn (λ list. list) two_clients met

who_failed : failed_tasks met.ends ≡ bytes "client-1" ∷ bytes "unknown" ∷ []
unfolding failed_tasks
who_failed = refl

two_ran :
    run_fixed_positions_with_lifecycle micros turn
      (λ list. list)
      two_clients
      default_options
      (λ list. met)
    ≡ ok outcome
unfolding run_fixed_positions_with_lifecycle
two_ran = rw two_started refl

failures-named_example :
    (list : List (ParticipantConfig × Duration)) × (started micros turn two_clients default_options
      ≡ ok list)
    × (by_barrier : List Str) × IsGivenUp micros turn (λ l. l) two_clients met by_barrier
    × (names outcome.participant_failures ≡ by_barrier ++ failed_tasks met.ends)
    × ((outcome.participant_failures ≡ []) ↔ (by_barrier ++ failed_tasks met.ends ≡ []))
failures-named_example =
    failures-named micros turn (λ l. l) two_clients default_options (λ list. met) outcome two_ran
