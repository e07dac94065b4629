-- ===== src/Scenarios/Connected.antt =====
-- src/scenarios.rs: run_connected, the work of a participant on an open connection. The events of each
-- part come as lists, in the order in which it turns to them; behind them come the deadlines, of the run
-- and of the readiness barrier. A handler that writes is done when its writes are, each after its timeout
-- at the latest, and turns to a deadline that has passed meanwhile after that.
pub mod Over
pub mod Gate
pub mod Roles
pub mod Active
pub mod Session
mod Tests
use tak_bench.Prelude.{
  ℕ, ◌*◌, Bool, true, false, ◌&&◌, not, none, some, Option, List, [], ◌∷◌, ◌++◌, is_some,
  if◌then◌else◌, Result, ok, err,
}
use tak_bench.Prelude.Bytes.{Str, bytes}
use tak_bench.Prelude.Float.{Float}
use tak_bench.Config.Enums.{
  ParticipantRole, send_only, receive_only, send_receive, role_eq, functional, profile_eq,
}
use tak_bench.Config.Types.{AppConfig, ParticipantConfig}
use tak_bench.Metrics.{Histograms}
use tak_bench.Protocol.Decoder
use tak_bench.Protocol.Decoder.{CotStreamDecoder}
use tak_bench.Protocol.Event.{Formats}
use tak_bench.Protocol.Xml.{XmlLibrary}
use tak_bench.Scenarios.Batch.{
  OutgoingBatch, empty_batch, Stage, going, ended, stopped, ◌and_then◌, SenderState,
}
use tak_bench.Scenarios.Errors.{AnyError, message_cause}
use tak_bench.Scenarios.Ledger.{Uuid}
use tak_bench.Scenarios.Participant.{Shared}
use tak_bench.Scenarios.Reader.{ReadEvent, ReaderState, reader_step, read_events}
use tak_bench.Scenarios.Readiness.{
  ReadinessBarrier, BarrierResult, is_ready, BarrierEvent, is_satisfied, wait, wait_from,
}
use tak_bench.Scenarios.Stages.{map_stage}
use tak_bench.Scenarios.Sender.{SenderEvent, sender_step, send_positions}
use tak_bench.Scenarios.Writing.{Socket}
use tak_bench.Scenarios.Work.{
  ConnectedEvent, waiting, pause_over, reading, sending, reader_joined, reader_panicked, Course,
  ReaderTask, pausing, running, finished, ConnectedState, fresh_connection, reader_of, put_reader,
  sender_of, put_sender, put_barrier,
}

module _ (h : Histograms) (socket : Socket) where
  -- `if readiness.wait(..) != Ready { return Ok(()) }`, and what follows
  unfoldable pub after_wait :
      Option BarrierResult
      → ConnectedState h socket
      → (ConnectedState h socket → Stage (ConnectedState h socket))
      → Stage (ConnectedState h socket)
  after_wait none s next = going s
  after_wait (some is_ready) s next = next s
  after_wait (some other) s next = ended s

  -- `read = &mut reader_task`
  unfoldable pub join_reader :
      ReaderTask → ConnectedState h socket → Stage (ConnectedState h socket)
  join_reader (finished (ok _)) s = ended s
  join_reader (finished (err e)) s = stopped e s
  join_reader other s = going s

  -- Where the reader's task stands after a turn of its loop
  unfoldable pub after_read :
      ConnectedState h socket → Stage (ReaderState h) → ConnectedState h socket
  after_read s (going r) = put_reader h socket s r
  after_read s (ended r) = record (put_reader h socket s r) { reader = finished (ok tt) }
  after_read s (stopped e r) = record (put_reader h socket s r) { reader = finished (err e) }

  unfoldable pub after_pause : Bool → ReaderTask → ReaderTask
  after_pause passed pausing = if passed then running else finished (ok tt)
  after_pause passed other = other

  unfoldable pub after_panic : Str → ReaderTask → ReaderTask
  after_panic text (finished result) = finished result
  after_panic text other =
      finished (err (message_cause (bytes "reader task failed: " ++ text) ∷ []))

  module _ (f : Float) (fmt : Formats) (xml : XmlLibrary) (as_number : fmt.Uuid → Uuid)
      (config : AppConfig f.F64) (participant : ParticipantConfig) where
    abbrev tolerate_silence : Bool
    tolerate_silence = profile_eq config.run.profile functional

    unfoldable pub receive_events :
        Course → ConnectedState h socket → Stage (ConnectedState h socket)
    receive_events course s = map_stage (put_reader h socket s) (
        read_events h fmt xml as_number participant.id participant tolerate_silence course.paused
          (course.reads ++ ReadEvent.deadline_reached ∷ []) s.shared.ledger s.shared.metrics)

    unfoldable pub send_events : Course → ConnectedState h socket → Stage (ConnectedState h socket)
    send_events course s = map_stage (put_sender h socket s) (
        send_positions socket config.scenario participant.id
          (course.sends ++ SenderEvent.deadline_reached ∷ []) (sender_of h socket s))

    unfoldable pub wait_and_send :
        Course → ConnectedState h socket → Stage (ConnectedState h socket)
    wait_and_send course s =
        let waited = wait (course.waits ++ BarrierEvent.deadline_reached ∷ []) s.shared.barrier in
        after_wait waited.0 (put_barrier h socket s waited.1) (send_events course)

    unfoldable pub read_turn :
        ReaderTask → ReadEvent → ConnectedState h socket → ConnectedState h socket
    read_turn running event s = after_read s (
        reader_step h fmt xml as_number participant.id participant tolerate_silence event
          (reader_of h socket s))
    read_turn other event s = s

    -- One event of a participant that sends and receives. The barrier is waited for until it has
    -- opened, and from then on the sender runs; the reader's task runs from the beginning.
    unfoldable pub connected_step :
        ConnectedEvent → ConnectedState h socket → Stage (ConnectedState h socket)
    connected_step (waiting event) s =
        let waited = wait_from (event ∷ []) s.shared.barrier in
        let s' : ConnectedState h socket = put_barrier h socket s waited.1 in
        if s.released
        then going s'
        else after_wait waited.0 s' (λ t. going (record t { released = true }))
    connected_step (pause_over passed) s = going (record s { reader = after_pause passed s.reader })
    connected_step (reading event) s = going (read_turn s.reader event s)
    connected_step (sending event) s =
        if s.released
        then map_stage (put_sender h socket s)
            (sender_step socket config.scenario participant.id event (sender_of h socket s))
        else going s
    connected_step reader_joined s = if s.released then join_reader s.reader s else going s
    connected_step (reader_panicked text) s =
        going (record s { reader = after_panic text s.reader })

    unfoldable pub connected_loop :
        List ConnectedEvent → ConnectedState h socket → Stage (ConnectedState h socket)
    connected_loop [] s = going s
    connected_loop (event ∷ rest) s = connected_step event s and_then λ s'. connected_loop rest s'

    abbrev pub deadlines : List ConnectedEvent
    deadlines = waiting BarrierEvent.deadline_reached ∷ sending SenderEvent.deadline_reached ∷ []

    -- The reader's task is spawned, and `wait` looks at the barrier once before it waits.
    abbrev pub spawn_reader : ConnectedState h socket → ConnectedState h socket
    spawn_reader s = record s {
      reader = if is_some participant.pause_read_for then pausing else running;
      released = is_satisfied s.shared.barrier;
    }

    unfoldable pub send_and_receive :
        Course → ConnectedState h socket → Stage (ConnectedState h socket)
    send_and_receive course s = connected_loop (course.both ++ deadlines) (spawn_reader s)

    unfoldable pub work_by_role :
        ParticipantRole → Course → ConnectedState h socket → Stage (ConnectedState h socket)
    work_by_role receive_only course s = receive_events course s
    work_by_role send_only course s = wait_and_send course s
    work_by_role send_receive course s = send_and_receive course s

    unfoldable pub run_connected :
        Course → socket.Writer → Shared h → Stage (ConnectedState h socket)
    run_connected course writer shared =
        let s = fresh_connection h socket writer shared in
        if config.scenario.slow_connect.enabled
          && not (role_eq participant.role receive_only)
          && not course.writable
        then ended s
        else work_by_role participant.role course s
