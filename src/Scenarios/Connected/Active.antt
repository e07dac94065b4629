-- ===== src/Scenarios/Connected/Active.antt =====
-- src/scenarios.rs: run_connected neither opens nor closes a connection.
use tak_bench.Prelude.{
  ◌≡◌, refl, ◌∙◌, true, ◌&&◌, not, Option, none, some, List, [], ◌∷◌, ◌++◌, ok, err,
}
use tak_bench.Prelude.Float.{Float}
use tak_bench.Config.Enums.{
  ParticipantRole, send_only, receive_only, send_receive, role_eq, functional, profile_eq,
}
use tak_bench.Config.Types.{AppConfig, ParticipantConfig}
use tak_bench.Metrics.{Histograms}
use tak_bench.Protocol.Event.{Formats}
use tak_bench.Protocol.Xml.{XmlLibrary}
use tak_bench.Scenarios.Batch.{Stage, going, ended, stopped}
use tak_bench.Scenarios.Ledger.{Uuid}
use tak_bench.Scenarios.Participant.{Shared}
use tak_bench.Scenarios.Reader.{ReadEvent, ReaderState, read_events}
use tak_bench.Scenarios.Reader.Kept.{Overhears, reader_step-Overhears, read_events-Overhears}
use tak_bench.Scenarios.Readiness.{
  BarrierResult, is_ready, timed_out, was_stopped, BarrierEvent, wait, wait_from,
}
use tak_bench.Scenarios.Sender.{SenderEvent, sender_step, send_positions}
use tak_bench.Scenarios.Sender.Kept.{sender_step-Speaks, send_positions-Speaks}
use tak_bench.Scenarios.Stages.{state_of, state_of-choice, state_of-map_stage, state_of-and_then}
use tak_bench.Scenarios.Writing.{Socket}
use tak_bench.Scenarios.Work.{
  ConnectedEvent, waiting, pause_over, reading, sending, reader_joined, reader_panicked, Course,
  ReaderTask, pausing, running, finished, ConnectedState, fresh_connection, put_sender, put_reader,
  put_barrier, sender_of, reader_of,
}
use tak_bench.Scenarios.Connected.{
  after_wait, join_reader, after_read, read_turn, receive_events, send_events, wait_and_send,
  connected_step, connected_loop, deadlines, spawn_reader, send_and_receive, work_by_role,
  run_connected,
}

module _ (h : Histograms) (socket : Socket) where
  -- As many connections are active as there were.
  abbrev KeepsCount : ConnectedState h socket → ConnectedState h socket → Type 0
  KeepsCount s s' =
      s'.shared.metrics.counters.active_connections ≡ s.shared.metrics.counters.active_connections

  KeepsCount-trans :
      (s s' s'' : ConnectedState h socket) → KeepsCount s s' → KeepsCount s' s'' → KeepsCount s s''
  KeepsCount-trans s s' s'' first second = second ∙ first

  after_wait-KeepsCount :
      (answer : Option BarrierResult) (s : ConnectedState h socket)
      (next : ConnectedState h socket → Stage (ConnectedState h socket))
      → KeepsCount s (state_of (next s))
      → KeepsCount s (state_of (after_wait h socket answer s next))
  unfolding after_wait
  after_wait-KeepsCount none s next keeps = refl
  after_wait-KeepsCount (some is_ready) s next keeps = keeps
  after_wait-KeepsCount (some timed_out) s next keeps = refl
  after_wait-KeepsCount (some was_stopped) s next keeps = refl

  join_reader-KeepsCount :
      (task : ReaderTask) (s : ConnectedState h socket)
      → KeepsCount s (state_of (join_reader h socket task s))
  unfolding join_reader
  join_reader-KeepsCount (finished (ok _)) s = refl
  join_reader-KeepsCount (finished (err e)) s = refl
  join_reader-KeepsCount pausing s = refl
  join_reader-KeepsCount running s = refl

  after_read-KeepsCount :
      (s : ConnectedState h socket) (stage : Stage (ReaderState h))
      → Overhears h (reader_of h socket s) (state_of stage)
      → KeepsCount s (after_read h socket s stage)
  unfolding after_read
  after_read-KeepsCount s (going r) kept = kept.active_same
  after_read-KeepsCount s (ended r) kept = kept.active_same
  after_read-KeepsCount s (stopped e r) kept = kept.active_same

  module _ (f : Float) (fmt : Formats) (xml : XmlLibrary) (as_number : fmt.Uuid → Uuid)
      (config : AppConfig f.F64) (participant : ParticipantConfig) where
    read_turn-KeepsCount :
        (task : ReaderTask) (event : ReadEvent) (s : ConnectedState h socket)
        → KeepsCount s (read_turn h socket f fmt xml as_number config participant task event s)
    unfolding read_turn
    read_turn-KeepsCount running event s = after_read-KeepsCount s _ (
        reader_step-Overhears h fmt xml as_number participant.id participant
          (profile_eq config.run.profile functional) event (reader_of h socket s))
    read_turn-KeepsCount pausing event s = refl
    read_turn-KeepsCount (finished result) event s = refl

    connected_step-KeepsCount :
        (event : ConnectedEvent) (s : ConnectedState h socket)
        → KeepsCount s
            (state_of (connected_step h socket f fmt xml as_number config participant event s))
    unfolding connected_step
    connected_step-KeepsCount (waiting event) s =
        let r = wait_from (event ∷ []) s.shared.barrier in
        state_of-choice (KeepsCount s) s.released (going (put_barrier h socket s r.1)) _ refl (
          after_wait-KeepsCount r.0 (put_barrier h socket s r.1)
            (λ t. going (record t { released = true })) refl)
    connected_step-KeepsCount (pause_over passed) s = refl
    connected_step-KeepsCount (reading event) s = read_turn-KeepsCount s.reader event s
    connected_step-KeepsCount (sending event) s =
        state_of-choice (KeepsCount s) s.released _ (going s)
          (state_of-map_stage (KeepsCount s) (put_sender h socket s)
            (sender_step socket config.scenario participant.id event (sender_of h socket s))
            (sender_step-Speaks socket config.scenario participant.id event
              (sender_of h socket s)).active_same)
          refl
    connected_step-KeepsCount reader_joined s =
        state_of-choice (KeepsCount s) s.released (join_reader h socket s.reader s) (going s)
          (join_reader-KeepsCount s.reader s) refl
    connected_step-KeepsCount (reader_panicked text) s = refl

    connected_loop-KeepsCount :
        (events : List ConnectedEvent) (s : ConnectedState h socket)
        → KeepsCount s
            (state_of (connected_loop h socket f fmt xml as_number config participant events s))
    unfolding connected_loop
    connected_loop-KeepsCount [] s = refl
    connected_loop-KeepsCount (event ∷ rest) s =
        state_of-and_then KeepsCount KeepsCount-trans s
          (connected_step h socket f fmt xml as_number config participant event s)
          (connected_loop h socket f fmt xml as_number config participant rest)
          (connected_step-KeepsCount event s) (connected_loop-KeepsCount rest)

    send_events-KeepsCount :
        (course : Course) (s : ConnectedState h socket)
        → KeepsCount s
            (state_of (send_events h socket f fmt xml as_number config participant course s))
    unfolding send_events
    send_events-KeepsCount course s =
        let events = course.sends ++ SenderEvent.deadline_reached ∷ [] in
        state_of-map_stage (KeepsCount s) (put_sender h socket s)
          (send_positions socket config.scenario participant.id events (sender_of h socket s))
          (send_positions-Speaks socket config.scenario participant.id events
            (sender_of h socket s)).active_same

    work_by_role-KeepsCount :
        (role : ParticipantRole) (course : Course) (writer : socket.Writer) (shared : Shared h)
        → let s = fresh_connection h socket writer shared in
          KeepsCount s
            (state_of (work_by_role h socket f fmt xml as_number config participant role course s))
    unfolding work_by_role receive_events wait_and_send send_and_receive
    work_by_role-KeepsCount receive_only course writer shared =
        let s = fresh_connection h socket writer shared in
        let tolerate = profile_eq config.run.profile functional in
        let events = course.reads ++ ReadEvent.deadline_reached ∷ [] in
        state_of-map_stage (KeepsCount s) (put_reader h socket s)
          (read_events h fmt xml as_number participant.id participant tolerate course.paused events
            shared.ledger shared.metrics)
          (read_events-Overhears h fmt xml as_number participant.id participant tolerate
            course.paused events shared.ledger shared.metrics).active_same
    work_by_role-KeepsCount send_only course writer shared =
        let s = fresh_connection h socket writer shared in
        let r = wait (course.waits ++ BarrierEvent.deadline_reached ∷ []) shared.barrier in
        after_wait-KeepsCount r.0 (put_barrier h socket s r.1)
          (send_events h socket f fmt xml as_number config participant course)
          (send_events-KeepsCount course (put_barrier h socket s r.1))
    work_by_role-KeepsCount send_receive course writer shared =
        connected_loop-KeepsCount
          (course.both ++ deadlines h socket f fmt xml as_number config participant)
          (spawn_reader h socket f fmt xml as_number config participant
            (fresh_connection h socket writer shared))

    pub run_connected-KeepsCount :
        (course : Course) (writer : socket.Writer) (shared : Shared h)
        → let s =
            state_of (
              run_connected h socket f fmt xml as_number config participant course writer shared) in
          s.shared.metrics.counters.active_connections ≡ shared.metrics.counters.active_connections
    unfolding run_connected
    run_connected-KeepsCount course writer shared =
        let s = fresh_connection h socket writer shared in
        state_of-choice (KeepsCount s)
          (config.scenario.slow_connect.enabled
            && not (role_eq participant.role receive_only)
            && not course.writable)
          (ended s) _ refl (work_by_role-KeepsCount participant.role course writer shared)
