-- ===== src/Scenarios/Participant/Tests.antt =====
-- src/scenarios.rs: the theorems on run_participant at a concrete run of its rounds.
use tak_bench.Prelude.{◌≡◌, refl, true, false, List, [], ◌∷◌, err, arith}
use tak_bench.Prelude.Bytes.{bytes}
use tak_bench.Config.Defaults.{default_reconnect, default_tls}
use tak_bench.Config.Types.{ReconnectConfig}
use tak_bench.Connection.Errors.{tcp}
use tak_bench.Metrics.{new}
use tak_bench.Scenarios.Errors.{runtime_cause, ParticipantRuntimeError}
use tak_bench.Scenarios.Samples.{log_histograms}
use tak_bench.Scenarios.Ledger.{empty}
use tak_bench.Scenarios.Participant.{
  Session, Round, Answer, refused, connected, ParticipantState, run_participant,
}
use tak_bench.Scenarios.Participant.Bound.{budget, run_participant-IsOver}
use tak_bench.Scenarios.Stages.{IsOver}

abbrev twice : ReconnectConfig
twice = record default_reconnect { enabled = true; max_attempts = 2 }

abbrev closed_session : Session log_histograms
closed_session = record {
  handshake_time = 5000;
  recovery = 9000;
  run = λ shared. (err (runtime_cause ParticipantRuntimeError.peer_closed ∷ []), shared);
  stop_raised = false;
  late = false;
}

abbrev retry_round : Answer log_histograms → Round log_histograms
retry_round answer = record { halted = false; answer = answer; waited = true; stop_raised = false }

abbrev rounds : List (Round log_histograms)
rounds =
    retry_round (refused tcp)
    ∷ retry_round (connected closed_session)
    ∷ retry_round (refused tcp)
    ∷ []

abbrev idle : ParticipantState log_histograms
idle = record {
  metrics = new log_histograms;
  ledger = empty;
  events = [];
  barrier = record { required = []; ready = []; deadline = 0 };
  attempt = 0;
}

enough_rounds : budget twice ≡ 3
unfolding budget
enough_rounds = refl

run_participant-IsOver_example :
    IsOver (run_participant log_histograms (bytes "a1") twice default_tls rounds idle)
run_participant-IsOver_example =
    run_participant-IsOver log_histograms (bytes "a1") twice default_tls rounds idle
      (rw enough_rounds (omega arith))
