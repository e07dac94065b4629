-- ===== src/Scenarios/Connected/Over.antt =====
-- src/scenarios.rs: the deadlines behind its events end run_connected.
use tak_bench.Prelude.{
  ◌≡◌, refl, Bool, true, false, ◌&&◌, not, Option, none, some, List, [], ◌∷◌, ◌++◌, is_some,
  if◌then◌else◌,
}
use tak_bench.Prelude.Float.{Float}
use tak_bench.Config.Enums.{
  ParticipantRole, send_only, receive_only, send_receive, role_eq, functional, profile_eq,
}
use tak_bench.Config.Types.{AppConfig, ParticipantConfig}
use tak_bench.Metrics.{Histograms}
use tak_bench.Protocol.Event.{Formats}
use tak_bench.Protocol.Xml.{XmlLibrary}
use tak_bench.Scenarios.Batch.{Stage, SenderState}
use tak_bench.Scenarios.Ledger.{Uuid}
use tak_bench.Scenarios.Participant.{Shared}
use tak_bench.Scenarios.Reader.{ReadEvent, ReaderState, reader_step, reader_loop, read_events}
use tak_bench.Scenarios.Readiness.{
  ReadinessBarrier, BarrierResult, is_ready, timed_out, was_stopped, BarrierEvent, marked,
  stop_changed, deadline_reached, contains_name, mark_ready, is_satisfied, wait, wait_from,
}
use tak_bench.Scenarios.Sender.{SenderEvent, finish, sender_step, send_positions}
use tak_bench.Scenarios.Stages.{IsOver, and_then-IsOver, map_stage-IsOver, choice-IsOver}
use tak_bench.Scenarios.Writing.{Socket}
use tak_bench.Scenarios.Work.{
  ConnectedEvent, Course, ConnectedState, put_sender, put_reader, sender_of,
}
use tak_bench.Scenarios.Connected.{
  after_wait, receive_events, send_events, wait_and_send, connected_step, connected_loop, deadlines,
  send_and_receive, work_by_role, run_connected,
}

-- Once its deadline has passed, the barrier has an answer.
choice-answered :
    (test : Bool) (x y : Option BarrierResult × ReadinessBarrier)
    → is_some x.0 ≡ true
    → is_some y.0 ≡ true
    → is_some (if test then x else y).0 ≡ true
choice-answered true x y hx hy = hx
choice-answered false x y hx hy = hy

wait_from-answered :
    (events : List BarrierEvent) (b : ReadinessBarrier)
    → is_some (wait_from (events ++ deadline_reached ∷ []) b).0 ≡ true
unfolding wait_from
wait_from-answered [] b = refl
wait_from-answered (marked participant wakes ∷ rest) b =
    let b' = mark_ready participant b in
    choice-answered (wakes && contains_name b.required participant && is_satisfied b')
      (some is_ready, b') (wait_from (rest ++ deadline_reached ∷ []) b') refl
      (wait_from-answered rest b')
wait_from-answered (stop_changed true ∷ rest) b = refl
wait_from-answered (stop_changed false ∷ rest) b =
    choice-answered (is_satisfied b) (some is_ready, b)
      (wait_from (rest ++ deadline_reached ∷ []) b) refl (wait_from-answered rest b)
wait_from-answered (deadline_reached ∷ rest) b = refl

wait-answered :
    (events : List BarrierEvent) (b : ReadinessBarrier)
    → is_some (wait (events ++ deadline_reached ∷ []) b).0 ≡ true
unfolding wait
wait-answered events b =
    choice-answered (is_satisfied b) (some is_ready, b)
      (wait_from (events ++ deadline_reached ∷ []) b) refl (wait_from-answered events b)

module _ (h : Histograms) (socket : Socket) where
  after_wait-IsOver :
      (answer : Option BarrierResult) (s : ConnectedState h socket)
      (next : ConnectedState h socket → Stage (ConnectedState h socket))
      → is_some answer ≡ true
      → ((s' : ConnectedState h socket) → IsOver (next s'))
      → IsOver (after_wait h socket answer s next)
  unfolding after_wait IsOver
  after_wait-IsOver none s next answered over = absurd (cc)
  after_wait-IsOver (some is_ready) s next answered over = over s
  after_wait-IsOver (some timed_out) s next answered over = tt
  after_wait-IsOver (some was_stopped) s next answered over = tt

  module _ (f : Float) (fmt : Formats) (xml : XmlLibrary) (as_number : fmt.Uuid → Uuid)
      (config : AppConfig f.F64) (participant : ParticipantConfig) where
    reader_loop-IsOver :
        (tolerate_silence : Bool) (events : List ReadEvent) (s : ReaderState h)
        → IsOver (
            reader_loop h fmt xml as_number participant.id participant tolerate_silence
              (events ++ ReadEvent.deadline_reached ∷ [])
              s)
    unfolding reader_loop reader_step IsOver
    reader_loop-IsOver tolerate_silence [] s = tt
    reader_loop-IsOver tolerate_silence (event ∷ rest) s =
        and_then-IsOver
          (reader_step h fmt xml as_number participant.id participant tolerate_silence event s) _
          (λ s'. reader_loop-IsOver tolerate_silence rest s')

    receive_events-IsOver :
        (course : Course) (s : ConnectedState h socket)
        → IsOver (receive_events h socket f fmt xml as_number config participant course s)
    unfolding receive_events read_events IsOver
    receive_events-IsOver course s = map_stage-IsOver (put_reader h socket s) _ (
        choice-IsOver (is_some participant.pause_read_for && not course.paused) _ _ tt
          (reader_loop-IsOver (profile_eq config.run.profile functional) course.reads _))

    finish-IsOver :
        (s : SenderState socket) → IsOver (finish socket config.scenario participant.id s)
    unfolding finish IsOver
    finish-IsOver s = tt

    send_positions-IsOver :
        (events : List SenderEvent) (s : SenderState socket)
        → IsOver (
            send_positions socket config.scenario participant.id
              (events ++ SenderEvent.deadline_reached ∷ [])
              s)
    unfolding send_positions sender_step finish IsOver
    send_positions-IsOver [] s = tt
    send_positions-IsOver (event ∷ rest) s =
        and_then-IsOver (sender_step socket config.scenario participant.id event s) _
          (λ s'. send_positions-IsOver rest s')

    send_events-IsOver :
        (course : Course) (s : ConnectedState h socket)
        → IsOver (send_events h socket f fmt xml as_number config participant course s)
    unfolding send_events
    send_events-IsOver course s =
        map_stage-IsOver (put_sender h socket s) _
          (send_positions-IsOver course.sends (sender_of h socket s))

    deadlines-IsOver :
        (s : ConnectedState h socket) (released : Bool)
        → s.released ≡ released
        → IsOver (
            connected_loop h socket f fmt xml as_number config participant
              (deadlines h socket f fmt xml as_number config participant)
              s)
    unfolding connected_loop connected_step after_wait wait_from sender_step finish IsOver
    deadlines-IsOver s true same = rw same tt
    deadlines-IsOver s false same = rw same tt

    loop-IsOver :
        (events : List ConnectedEvent) (s : ConnectedState h socket)
        → IsOver (
            connected_loop h socket f fmt xml as_number config participant
              (events ++ deadlines h socket f fmt xml as_number config participant)
              s)
    unfolding connected_loop
    loop-IsOver [] s = deadlines-IsOver s s.released refl
    loop-IsOver (event ∷ rest) s =
        and_then-IsOver (connected_step h socket f fmt xml as_number config participant event s) _
          (λ s'. loop-IsOver rest s')

    work_by_role-IsOver :
        (role : ParticipantRole) (course : Course) (s : ConnectedState h socket)
        → IsOver (work_by_role h socket f fmt xml as_number config participant role course s)
    unfolding work_by_role wait_and_send send_and_receive
    work_by_role-IsOver receive_only course s = receive_events-IsOver course s
    work_by_role-IsOver send_only course s =
        after_wait-IsOver _ _ _ (wait-answered course.waits s.shared.barrier)
          (send_events-IsOver course)
    work_by_role-IsOver send_receive course s = loop-IsOver course.both _

    -- Behind the events that come before them, the deadlines end the work on a connection.
    pub run_connected-IsOver :
        (course : Course) (writer : socket.Writer) (shared : Shared h)
        → IsOver
            (run_connected h socket f fmt xml as_number config participant course writer shared)
    unfolding run_connected IsOver
    run_connected-IsOver course writer shared =
        choice-IsOver
          (config.scenario.slow_connect.enabled
            && not (role_eq participant.role receive_only)
            && not course.writable)
          _ _ tt (work_by_role-IsOver participant.role course _)
