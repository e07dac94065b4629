-- ===== src/Scenarios/Reader/Counted.antt =====
-- src/scenarios.rs: the reader's loop, and what it has noted when it stops.
use tak_bench.Prelude.{
  ◌≡◌, refl, sym, Bool, true, false, ◌&&◌, not, none, some, List, [], ◌∷◌, subst, is_some, is_empty,
  inl, inr, Bool-cases,
}
use tak_bench.Prelude.Bytes.{Str}
use tak_bench.Config.Types.{ParticipantConfig}
use tak_bench.Metrics.{Histograms, Metrics}
use tak_bench.Protocol.Decoder.{CotStreamDecoder}
use tak_bench.Protocol.Event.{Formats, ReceivedEvent}
use tak_bench.Protocol.Xml.{XmlLibrary}
use tak_bench.Scenarios.Batch.{Stage, going, ended, stopped, ◌and_then◌}
use tak_bench.Scenarios.Ledger.{CorrelationLedger, Uuid}
use tak_bench.Scenarios.Stages.{state_of}
use tak_bench.Scenarios.Reader.{
  ReadEvent, stop_changed, deadline_reached, read_failed, read_timed_out, received, ReaderState,
  count, reader_step, reader_loop, read_events, fresh_reader,
}
use tak_bench.Scenarios.Reader.Noted.{IsNoted, IsNoted-trans}
use tak_bench.Scenarios.Reader.Trace.{Trace, step_trace, after_trace, noted, noted_by}
use tak_bench.Scenarios.Reader.Traced.{
  IsTraced, same-IsNoted, one_timeout-IsNoted, receive-IsTraced,
}

some-injective : {A : Type 0} {a b : A} → some a ≡ some b → a ≡ b
some-injective h = cc

module _ (h : Histograms) (fmt : Formats) (xml : XmlLibrary) (as_number : fmt.Uuid → Uuid)
    (participant : Str) where
  module _ (config : ParticipantConfig) (tolerate_silence : Bool) where
    reader_step-IsTraced :
        (event : ReadEvent) (s : ReaderState h)
        → IsTraced h fmt xml as_number participant
            (step_trace fmt xml config tolerate_silence event s.decoder)
            s
            (reader_step h fmt xml as_number participant config tolerate_silence event s)
    unfolding reader_step step_trace IsTraced
    reader_step-IsTraced (stop_changed true) s =
        (same-IsNoted h fmt xml as_number participant s, refl)
    reader_step-IsTraced (stop_changed false) s =
        (same-IsNoted h fmt xml as_number participant s, refl)
    reader_step-IsTraced deadline_reached s = (same-IsNoted h fmt xml as_number participant s, refl)
    reader_step-IsTraced read_failed s = (same-IsNoted h fmt xml as_number participant s, refl)
    reader_step-IsTraced read_timed_out s = elim (Bool-cases tolerate_silence) [
      | inl patient ↦
          rw patient (one_timeout-IsNoted h fmt xml as_number participant s, unfold count in refl)
      | inr strict ↦ rw strict (one_timeout-IsNoted h fmt xml as_number participant s, refl)
    ]
    reader_step-IsTraced (received chunk waited now) s = elim (Bool-cases (is_empty chunk)) [
      | inl closed ↦ rw closed (same-IsNoted h fmt xml as_number participant s, refl)
      | inr filled ↦ elim (Bool-cases (is_some config.read_delay && not waited)) [
        | inl cut ↦ rw (filled, cut) (same-IsNoted h fmt xml as_number participant s, refl)
        | inr awake ↦
            rw (filled, awake) (receive-IsTraced h fmt xml as_number participant chunk now s)
      ]
    ]

    after-IsNoted :
        (trace : Trace fmt xml) (s : ReaderState h) (stage : Stage (ReaderState h))
        (k : ReaderState h → Stage (ReaderState h))
        (more : CotStreamDecoder → List (ReceivedEvent fmt))
        → IsTraced h fmt xml as_number participant trace s stage
        → ((s' : ReaderState h) → IsNoted h fmt participant (more s'.decoder) s' (state_of (k s')))
        → IsNoted h fmt participant
            (after_trace fmt xml config tolerate_silence trace more)
            s
            (state_of (stage and_then k))
    unfolding IsTraced
    after-IsNoted (events, none) s (going s') k more (one, goes) later = cc
    after-IsNoted (events, some d) s (going s') k more (one, goes) later =
        IsNoted-trans h fmt participant events (more d) s s' _ one (
          subst (λ d'. IsNoted h fmt participant (more d') s' (state_of (k s')))
            (sym (some-injective goes)) (later s'))
    after-IsNoted (events, none) s (ended s') k more (one, ends) later = one
    after-IsNoted (events, some d) s (ended s') k more (one, ends) later = cc
    after-IsNoted (events, none) s (stopped e s') k more (one, ends) later = one
    after-IsNoted (events, some d) s (stopped e s') k more (one, ends) later = cc

    reader_loop-IsNoted :
        (events : List ReadEvent) (s : ReaderState h)
        → IsNoted h fmt participant (noted fmt xml config tolerate_silence events s.decoder) s (
            state_of (reader_loop h fmt xml as_number participant config tolerate_silence events s))
    unfolding reader_loop noted
    reader_loop-IsNoted [] s = same-IsNoted h fmt xml as_number participant s
    reader_loop-IsNoted (event ∷ rest) s =
        after-IsNoted (step_trace fmt xml config tolerate_silence event s.decoder) s
          (reader_step h fmt xml as_number participant config tolerate_silence event s)
          (reader_loop h fmt xml as_number participant config tolerate_silence rest)
          (noted fmt xml config tolerate_silence rest) (reader_step-IsTraced event s)
          (λ s'. reader_loop-IsNoted rest s')

    -- Whatever a participant's reader meets, and wherever it stops: it has noted the events of the frames
    -- that its chunks decode to, up to the first that cannot be inspected and to where it stops, which
    -- what it reads determines alone. The received messages have grown by their number; the duplicates
    -- and the entries of the ledger together by the number of those with a correlation identifier, so
    -- that each of these is a new entry or a duplicate; and what was sent and what other receivers have
    -- seen is as it was. The counters wrap at 2 ^ 64.
    pub read_events-IsNoted :
        (paused : Bool) (events : List ReadEvent) (ledger : CorrelationLedger) (metrics : Metrics h)
        → IsNoted h fmt participant
            (noted_by fmt xml config tolerate_silence paused events)
            (fresh_reader h ledger metrics)
            (state_of (
              read_events h fmt xml as_number participant config tolerate_silence paused events
                ledger metrics))
    unfolding read_events noted_by
    read_events-IsNoted paused events ledger metrics =
        elim (Bool-cases (is_some config.pause_read_for && not paused)) [
          | inl cut ↦
              rw cut (same-IsNoted h fmt xml as_number participant (fresh_reader h ledger metrics))
          | inr reads ↦ rw reads (reader_loop-IsNoted events (fresh_reader h ledger metrics))
        ]
