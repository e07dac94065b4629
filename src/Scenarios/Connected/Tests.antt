-- ===== src/Scenarios/Connected/Tests.antt =====
-- src/scenarios.rs: a participant's work at a concrete network.
use tak_bench.Prelude.{◌≡◌, refl, true, false, List, [], ◌∷◌, arith}
use tak_bench.Prelude.Bytes.{bytes}
use tak_bench.Prelude.Float.{micros}
use tak_bench.Config.Defaults.{default_config, default_participant, default_reconnect}
use tak_bench.Config.Types.{AppConfig, ParticipantConfig}
use tak_bench.Connection.Errors.{tcp}
use tak_bench.Metrics.{new}
use tak_bench.Scenarios.Ledger.{empty}
use tak_bench.Scenarios.Participant.{Shared, ParticipantState}
use tak_bench.Scenarios.Participant.Settled.{IsSettled}
use tak_bench.Scenarios.Reader.{received}
use tak_bench.Scenarios.Readiness.{BarrierEvent}
use tak_bench.Scenarios.Sender.{tick}
use tak_bench.Scenarios.Samples.{log_histograms, plain_formats, own_element, log_socket}
use tak_bench.Scenarios.Stages.{state_of}
use tak_bench.Scenarios.Work.{waiting, reading, sending, reader_joined, Course}
use tak_bench.Scenarios.Connected.{run_connected}
use tak_bench.Scenarios.Connected.Roles.{Behaves, run_connected-Behaves}
use tak_bench.Scenarios.Connected.Session.{Attempt, failed, up, participate, participate-IsSettled}

abbrev config : AppConfig micros.F64
config = record default_config {
  reconnect = record default_reconnect { enabled = true; max_attempts = 2 };
}

abbrev b1 : ParticipantConfig
b1 = record default_participant { id = bytes "b1" }

abbrev start : Shared log_histograms
start = record {
  metrics = new log_histograms;
  ledger = empty;
  barrier = record { required = bytes "a1" ∷ []; ready = []; deadline = 0 };
}

-- An event arrives, a1 is marked, one position is sent, and the peer closes.
abbrev course : Course
course = record {
  writable = true;
  paused = true;
  waits = [];
  reads = [];
  sends = [];
  both =
      reading (received (bytes "<event></event>") true (λ index. 3))
      ∷ waiting (BarrierEvent.marked (bytes "a1") true)
      ∷ sending (tick 7 5 (bytes "<event/>"))
      ∷ reading (received [] true (λ index. 9))
      ∷ reader_joined
      ∷ [];
}

run_connected-Behaves_example :
    Behaves log_histograms log_socket [] start micros plain_formats own_element
      (λ n. n)
      config
      b1
      b1.role
      (state_of (
        run_connected log_histograms log_socket micros plain_formats own_element
          (λ n. n)
          config
          b1
          course
          []
          start))
run_connected-Behaves_example =
    run_connected-Behaves log_histograms log_socket [] start micros plain_formats own_element
      (λ n. n) config b1 course

abbrev attempts : List (Attempt log_socket.Writer)
attempts =
    record { halted = false; dial = failed tcp; waited = true; stop_raised = false }
    ∷ record {
      halted = false;
      dial = up (record {
        writer = [];
        handshake_time = 5000;
        recovery = 9000;
        course = course;
        stop_raised = false;
        late = false;
      });
      waited = true;
      stop_raised = false;
    }
    ∷ []

abbrev idle : ParticipantState log_histograms
idle = record {
  metrics = new log_histograms;
  ledger = empty;
  barrier = start.barrier;
  events = [];
  attempt = 0;
}

none_active : idle.metrics.counters.active_connections ≡ 0
unfolding new
none_active = refl

participate-IsSettled_example : IsSettled log_histograms (bytes "b1") idle (
    state_of (
      participate log_histograms log_socket micros plain_formats own_element
        (λ n. n)
        config
        b1
        attempts
        idle))
participate-IsSettled_example =
    participate-IsSettled log_histograms log_socket micros plain_formats own_element (λ n. n) config
      b1 attempts idle (rw none_active (omega arith))
