-- ===== src/Scenarios/Connected/Session.antt =====
-- src/scenarios.rs: run_participant over the sessions that run_connected makes of its connections.
use tak_bench.Prelude.{◌<◌, Bool, List, [], ◌∷◌, map, All}
use tak_bench.Prelude.Float.{Float}
use tak_bench.Prelude.Time.{Duration, u64_mod}
use tak_bench.Config.Types.{AppConfig, ParticipantConfig}
use tak_bench.Connection.Errors.{ConnectError}
use tak_bench.Metrics.{Histograms}
use tak_bench.Protocol.Event.{Formats}
use tak_bench.Protocol.Xml.{XmlLibrary}
use tak_bench.Scenarios.Batch.{Stage}
use tak_bench.Scenarios.Ledger.{Uuid}
use tak_bench.Scenarios.Participant.{
  Session, Answer, interrupted, refused, connected, Round, ParticipantState, run_participant,
}
use tak_bench.Scenarios.Participant.Settled.{KeepsActive, IsSettled}
use tak_bench.Scenarios.Participant.Sessions.{run_participant-IsSettled}
use tak_bench.Scenarios.Stages.{state_of, result_of}
use tak_bench.Scenarios.Writing.{Socket}
use tak_bench.Scenarios.Work.{Course}
use tak_bench.Scenarios.Connected.{run_connected}
use tak_bench.Scenarios.Connected.Over.{run_connected-IsOver}
use tak_bench.Scenarios.Connected.Active.{run_connected-KeepsCount}

-- A connection: the writer that `into_split` gives, the times measured, the course of the work on it,
-- and what the stop flag and the clock show when that is over
pub record Dialled (Writer : Type 0) : Type 0 where
  pub writer : Writer
  pub handshake_time : Duration
  pub recovery : Duration
  pub course : Course
  pub stop_raised : Bool
  pub late : Bool

-- How the `select!` around `connect` ends, and what follows
pub data Dial (Writer : Type 0) : Type 0 where
  cut : Dial Writer
  failed : ConnectError → Dial Writer
  up : Dialled Writer → Dial Writer

pub record Attempt (Writer : Type 0) : Type 0 where
  pub halted : Bool
  pub dial : Dial Writer
  pub waited : Bool
  pub stop_raised : Bool

module _ (h : Histograms) (socket : Socket) (f : Float) (fmt : Formats) (xml : XmlLibrary)
    (as_number : fmt.Uuid → Uuid) (config : AppConfig f.F64) (participant : ParticipantConfig) where
  abbrev pub session_of : Dialled socket.Writer → Session h
  session_of dialled = record {
    handshake_time = dialled.handshake_time;
    recovery = dialled.recovery;
    run = λ shared.
        let stage =
          run_connected h socket f fmt xml as_number config participant dialled.course
            dialled.writer shared in
        (
          result_of stage (
              run_connected-IsOver h socket f fmt xml as_number config participant dialled.course
                dialled.writer shared),
          (state_of stage).shared,
        );
    stop_raised = dialled.stop_raised;
    late = dialled.late;
  }

  abbrev pub answer_of : Dial socket.Writer → Answer h
  answer_of cut = interrupted
  answer_of (failed e) = refused e
  answer_of (up dialled) = connected (session_of dialled)

  abbrev pub round_of : Attempt socket.Writer → Round h
  round_of attempt = record {
    halted = attempt.halted;
    answer = answer_of attempt.dial;
    waited = attempt.waited;
    stop_raised = attempt.stop_raised;
  }

  -- run_participant with run_connected for its sessions
  unfoldable pub participate :
      List (Attempt socket.Writer) → ParticipantState h → Stage (ParticipantState h)
  participate attempts s =
      run_participant h participant.id config.reconnect config.tls (map round_of attempts) s

  answer_of-KeepsActive : (dial : Dial socket.Writer) → KeepsActive h (answer_of dial)
  unfolding KeepsActive
  answer_of-KeepsActive cut = tt
  answer_of-KeepsActive (failed e) = tt
  answer_of-KeepsActive (up dialled) = λ shared.
      run_connected-KeepsCount h socket f fmt xml as_number config participant dialled.course
        dialled.writer shared

  rounds-KeepActive :
      (attempts : List (Attempt socket.Writer))
      → All (λ round. KeepsActive h round.answer) (map round_of attempts)
  rounds-KeepActive [] = tt
  rounds-KeepActive (attempt ∷ rest) = (answer_of-KeepsActive attempt.dial, rounds-KeepActive rest)

  -- Whatever the network, the peer and the stop flag do: a participant leaves the number of active
  -- connections as it was, and its lifecycle events are whole sessions: connected, ready, and
  -- disconnected with a reason, in this order.
  pub participate-IsSettled :
      (attempts : List (Attempt socket.Writer)) (s : ParticipantState h)
      → s.metrics.counters.active_connections < u64_mod
      → IsSettled h participant.id s (state_of (participate attempts s))
  unfolding participate
  participate-IsSettled attempts s small =
      run_participant-IsSettled h participant.id config.reconnect config.tls (map round_of attempts)
        s (rounds-KeepActive attempts) small
