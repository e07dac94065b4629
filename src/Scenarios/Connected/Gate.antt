-- ===== src/Scenarios/Connected/Gate.antt =====
-- src/scenarios.rs: a participant that sends and receives, before and after the barrier has opened.
use tak_bench.Prelude.{
  ◌≡◌, ◌⊎◌, refl, sym, ◌∙◌, inl, inr, true, false, Option, none, some, List, [], ◌∷◌, ◌++◌,
  Bool-cases, ok, err,
}
use tak_bench.Prelude.Float.{Float}
use tak_bench.Config.Enums.{functional, profile_eq}
use tak_bench.Config.Types.{AppConfig, ParticipantConfig}
use tak_bench.Metrics.{Histograms}
use tak_bench.Protocol.Event.{Formats}
use tak_bench.Protocol.Xml.{XmlLibrary}
use tak_bench.Scenarios.Batch.{Stage, going, ended, stopped}
use tak_bench.Scenarios.Ledger.{Uuid}
use tak_bench.Scenarios.Participant.{Shared}
use tak_bench.Scenarios.Reader.{ReadEvent, ReaderState, reader_step}
use tak_bench.Scenarios.Reader.Kept.{Overhears, reader_step-Overhears}
use tak_bench.Scenarios.Readiness.{
  BarrierResult, is_ready, timed_out, was_stopped, BarrierEvent, is_satisfied, wait_from,
}
use tak_bench.Scenarios.Readiness.Satisfied.{wait_from-StaysSatisfied}
use tak_bench.Scenarios.Sender.{SenderEvent, sender_step}
use tak_bench.Scenarios.Stages.{
  state_of, state_of-choice, state_of-branch, state_of-map_stage, state_of-and_then,
}
use tak_bench.Scenarios.Writing.{Socket}
use tak_bench.Scenarios.Work.{
  ConnectedEvent, waiting, pause_over, reading, sending, reader_joined, reader_panicked, Course,
  ReaderTask, pausing, running, finished, ConnectedState, put_sender, put_reader, put_barrier,
  sender_of, reader_of,
}
use tak_bench.Scenarios.Connected.{
  after_wait, join_reader, after_read, read_turn, connected_step, connected_loop, deadlines,
  spawn_reader, send_and_receive,
}

true-false : ¬ (true ≡ false)
true-false h = cc

module _ (h : Histograms) (socket : Socket) (writer : socket.Writer) (start : Shared h) where
  -- Nothing was written, sent or dropped since the connection was given to run_connected.
  abbrev pub IsSilent : ConnectedState h socket → Type 0
  IsSilent s =
      (s.writer ≡ writer)
      × (s.shared.ledger.sent ≡ start.ledger.sent)
      × (s.shared.metrics.counters.sent_messages ≡ start.metrics.counters.sent_messages)
      × (s.shared.metrics.counters.dropped_messages ≡ start.metrics.counters.dropped_messages)

  -- Nothing was received or seen.
  abbrev pub IsDeaf : ConnectedState h socket → Type 0
  IsDeaf s =
      (s.shared.ledger.seen ≡ start.ledger.seen)
      × (s.shared.metrics.counters.received_messages ≡ start.metrics.counters.received_messages)
      × (s.shared.metrics.counters.duplicate_messages ≡ start.metrics.counters.duplicate_messages)

  put_reader-IsSilent :
      (s : ConnectedState h socket) (r : ReaderState h)
      → Overhears h (reader_of h socket s) r
      → IsSilent s
      → IsSilent (put_reader h socket s r)
  put_reader-IsSilent s r kept silent =
      (silent.0, kept.sent_kept ∙ silent.1, kept.sent_same ∙ silent.2, kept.dropped_same ∙ silent.3)

  -- Where the sender has started the barrier is satisfied, and where it has not nothing was sent.
  abbrev IsGated : ConnectedState h socket → Type 0
  IsGated s =
      (s.released ≡ true → is_satisfied s.shared.barrier ≡ true) × (s.released ≡ false → IsSilent s)

  after_read-IsGated :
      (s : ConnectedState h socket) (stage : Stage (ReaderState h))
      → Overhears h (reader_of h socket s) (state_of stage)
      → IsGated s
      → IsGated (after_read h socket s stage)
  unfolding after_read
  after_read-IsGated s (going r) kept gated =
      (gated.0, λ e. put_reader-IsSilent s r kept (gated.1 e))
  after_read-IsGated s (ended r) kept gated =
      (gated.0, λ e. put_reader-IsSilent s r kept (gated.1 e))
  after_read-IsGated s (stopped error r) kept gated =
      (gated.0, λ e. put_reader-IsSilent s r kept (gated.1 e))

  after_wait-IsGated :
      (answer : Option BarrierResult) (s : ConnectedState h socket)
      → (answer ≡ some is_ready → is_satisfied s.shared.barrier ≡ true)
      → IsGated s
      → IsGated
          (state_of (after_wait h socket answer s (λ t. going (record t { released = true }))))
  unfolding after_wait
  after_wait-IsGated none s ready gated = gated
  after_wait-IsGated (some is_ready) s ready gated = (λ e. ready refl, λ e. absurd (true-false e))
  after_wait-IsGated (some timed_out) s ready gated = gated
  after_wait-IsGated (some was_stopped) s ready gated = gated

  join_reader-IsGated :
      (task : ReaderTask) (s : ConnectedState h socket)
      → IsGated s
      → IsGated (state_of (join_reader h socket task s))
  unfolding join_reader
  join_reader-IsGated (finished (ok _)) s gated = gated
  join_reader-IsGated (finished (err e)) s gated = gated
  join_reader-IsGated pausing s gated = gated
  join_reader-IsGated running s gated = gated

  module _ (f : Float) (fmt : Formats) (xml : XmlLibrary) (as_number : fmt.Uuid → Uuid)
      (config : AppConfig f.F64) (participant : ParticipantConfig) where
    read-Overhears :
        (event : ReadEvent) (r : ReaderState h)
        → Overhears h r (
            state_of (
              reader_step h fmt xml as_number participant.id participant
                (profile_eq config.run.profile functional)
                event
                r))
    read-Overhears =
        reader_step-Overhears h fmt xml as_number participant.id participant
          (profile_eq config.run.profile functional)

    read_turn-IsGated :
        (task : ReaderTask) (event : ReadEvent) (s : ConnectedState h socket)
        → IsGated s
        → IsGated (read_turn h socket f fmt xml as_number config participant task event s)
    unfolding read_turn
    read_turn-IsGated running event s gated =
        after_read-IsGated s _ (read-Overhears event (reader_of h socket s)) gated
    read_turn-IsGated pausing event s gated = gated
    read_turn-IsGated (finished result) event s gated = gated

    sender_turn-IsGated :
        (event : SenderEvent) (s : ConnectedState h socket)
        → IsGated s
        → IsGated (
            state_of
              (connected_step h socket f fmt xml as_number config participant (sending event) s))
    unfolding connected_step
    sender_turn-IsGated event s gated =
        state_of-branch IsGated s.released _ (going s)
          (λ on.
            state_of-map_stage IsGated (put_sender h socket s)
              (sender_step socket config.scenario participant.id event (sender_of h socket s))
              (gated.0, λ off. absurd (true-false (sym on ∙ off))))
          (λ off. gated)

    barrier_turn-IsGated :
        (event : BarrierEvent) (s : ConnectedState h socket)
        → IsGated s
        → IsGated (
            state_of
              (connected_step h socket f fmt xml as_number config participant (waiting event) s))
    unfolding connected_step
    barrier_turn-IsGated event s gated =
        let r = wait_from (event ∷ []) s.shared.barrier in
        let stays = wait_from-StaysSatisfied (event ∷ []) s.shared.barrier in
        let waited : IsGated (put_barrier h socket s r.1) = (λ e. stays.0 (gated.0 e), gated.1) in
        state_of-choice IsGated s.released (going (put_barrier h socket s r.1)) _ waited
          (after_wait-IsGated r.0 (put_barrier h socket s r.1) stays.1 waited)

    connected_step-IsGated :
        (event : ConnectedEvent) (s : ConnectedState h socket)
        → IsGated s
        → IsGated
            (state_of (connected_step h socket f fmt xml as_number config participant event s))
    connected_step-IsGated (waiting event) s gated = barrier_turn-IsGated event s gated
    connected_step-IsGated (pause_over passed) s gated = unfold connected_step in gated
    connected_step-IsGated (reading event) s gated =
        unfold connected_step in read_turn-IsGated s.reader event s gated
    connected_step-IsGated (sending event) s gated = sender_turn-IsGated event s gated
    connected_step-IsGated reader_joined s gated =
        unfold connected_step in
        state_of-choice IsGated s.released (join_reader h socket s.reader s) (going s)
          (join_reader-IsGated s.reader s gated) gated
    connected_step-IsGated (reader_panicked text) s gated = unfold connected_step in gated

    connected_loop-IsGated :
        (events : List ConnectedEvent) (s : ConnectedState h socket)
        → IsGated s
        → IsGated
            (state_of (connected_loop h socket f fmt xml as_number config participant events s))
    unfolding connected_loop
    connected_loop-IsGated [] s gated = gated
    connected_loop-IsGated (event ∷ rest) s gated =
        state_of-and_then (λ t t'. IsGated t → IsGated t')
          (λ t t' t'' first second g. second (first g)) s
          (connected_step h socket f fmt xml as_number config participant event s)
          (connected_loop h socket f fmt xml as_number config participant rest)
          (connected_step-IsGated event s) (connected_loop-IsGated rest) gated

    gate_of :
        (s : ConnectedState h socket)
        → IsGated s
        → IsSilent s ⊎ (is_satisfied s.shared.barrier ≡ true)
    gate_of s gated = elim (Bool-cases s.released) [
      | inl on ↦ inr (gated.0 on)
      | inr off ↦ inl (gated.1 off)
    ]

    pub send_and_receive-gate :
        (course : Course) (s : ConnectedState h socket)
        → IsSilent s
        → let s' =
            state_of (send_and_receive h socket f fmt xml as_number config participant course s) in
          IsSilent s' ⊎ (is_satisfied s'.shared.barrier ≡ true)
    unfolding send_and_receive
    send_and_receive-gate course s silent =
        let events = course.both ++ deadlines h socket f fmt xml as_number config participant in
        let begun = spawn_reader h socket f fmt xml as_number config participant s in
        gate_of
          (state_of (connected_loop h socket f fmt xml as_number config participant events begun))
          (connected_loop-IsGated events begun (λ e. e, λ e. silent))
