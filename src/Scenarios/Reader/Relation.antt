-- ===== src/Scenarios/Reader/Relation.antt =====
-- src/scenarios.rs: a relation between states that each effect of the reader respects holds from the
-- start of its loop to wherever it stops.
use tak_bench.Prelude.{ℕ, ◌+◌, ◌&&◌, not, Bool, List, [], ◌∷◌, is_some, is_empty, Result, ok, err}
use tak_bench.Prelude.Bytes.{Bytes, Str}
use tak_bench.Config.Types.{ParticipantConfig}
use tak_bench.Metrics.{Histograms, Metrics}
use tak_bench.Protocol.Decoder.{CotStreamDecoder, DecodeError, push}
use tak_bench.Protocol.Event.{Formats, ReceivedEvent, inspect_event}
use tak_bench.Protocol.Xml.{XmlLibrary}
use tak_bench.Scenarios.Batch.{Stage, going, ended, stopped}
use tak_bench.Scenarios.Ledger.{CorrelationLedger, Uuid, Instant}
use tak_bench.Scenarios.Errors.{ParticipantRuntimeError}
use tak_bench.Scenarios.Stages.{state_of, state_of-choice, state_of-and_then}
use tak_bench.Scenarios.Reader.{
  ReadEvent, stop_changed, deadline_reached, read_failed, read_timed_out, received, ReaderState,
  count, one_timeout, note_event, note_inspected, note_frames, after_push, receive, reader_step,
  reader_loop, read_events, runtime_error, fresh_reader,
}

module _ (h : Histograms) (fmt : Formats) (xml : XmlLibrary) (as_number : fmt.Uuid → Uuid)
    (participant : Str) (R : ReaderState h → ReaderState h → Type 0)
    (same : (s : ReaderState h) → R s s)
    (trans : (s s' s'' : ReaderState h) → R s s' → R s' s'' → R s s'')
    (decoded : (s : ReaderState h) (d : CotStreamDecoder) → R s (record s { decoder = d }))
    (noted : (event : ReceivedEvent fmt) (now : Instant) (s : ReaderState h)
      → R s (note_event h fmt xml as_number participant event now s))
    (timed : (s : ReaderState h) → R s (count h (one_timeout h) s)) where
  note_inspected-related :
      (inspected : Result xml.XmlError (ReceivedEvent fmt)) (now : Instant) (s : ReaderState h)
      (next : ReaderState h → Stage (ReaderState h))
      → ((s' : ReaderState h) → R s' (state_of (next s')))
      → R s (state_of (note_inspected h fmt xml as_number participant inspected now s next))
  unfolding note_inspected
  note_inspected-related (ok event) now s next later = trans s _ _ (noted event now s) (later _)
  note_inspected-related (err e) now s next later = same s

  note_frames-related :
      (frames : List Str) (index : ℕ) (now : ℕ → Instant) (s : ReaderState h)
      → R s (state_of (note_frames h fmt xml as_number participant frames index now s))
  unfolding note_frames
  note_frames-related [] index now s = same s
  note_frames-related (raw ∷ rest) index now s =
      note_inspected-related (inspect_event fmt xml raw) (now index) s _
        (λ s'. note_frames-related rest (index + 1) now s')

  after_push-related :
      (pushed : Result (DecodeError xml.XmlError) (List Str)) (now : ℕ → Instant)
      (s : ReaderState h)
      → R s (state_of (after_push h fmt xml as_number participant pushed now s))
  unfolding after_push
  after_push-related (err e) now s = same s
  after_push-related (ok frames) now s = note_frames-related frames 0 now s

  receive-related :
      (chunk : Bytes) (now : ℕ → Instant) (s : ReaderState h)
      → R s (state_of (receive h fmt xml as_number participant chunk now s))
  unfolding receive
  receive-related chunk now s =
      let pushed = push xml chunk s.decoder in
      trans s (record s { decoder = pushed.1 }) _ (decoded s pushed.1)
        (after_push-related pushed.0 now _)

  module _ (config : ParticipantConfig) (tolerate_silence : Bool) where
    pub reader_step-related :
        (event : ReadEvent) (s : ReaderState h)
        → R s
            (state_of (reader_step h fmt xml as_number participant config tolerate_silence event s))
    unfolding reader_step
    reader_step-related (stop_changed raised) s =
        state_of-choice (R s) raised (ended s) (going s) (same s) (same s)
    reader_step-related deadline_reached s = same s
    reader_step-related read_failed s = same s
    reader_step-related read_timed_out s =
        state_of-choice (R s) tolerate_silence (going (count h (one_timeout h) s))
          (stopped (runtime_error ParticipantRuntimeError.read) (count h (one_timeout h) s))
          (timed s) (timed s)
    reader_step-related (received chunk waited now) s =
        state_of-choice (R s) (is_empty chunk)
          (stopped (runtime_error ParticipantRuntimeError.peer_closed) s) _ (same s)
          (state_of-choice (R s) (is_some config.read_delay && not waited) (ended s)
            (receive h fmt xml as_number participant chunk now s) (same s)
            (receive-related chunk now s))

    reader_loop-related :
        (events : List ReadEvent) (s : ReaderState h)
        → R s (
            state_of (reader_loop h fmt xml as_number participant config tolerate_silence events s))
    unfolding reader_loop
    reader_loop-related [] s = same s
    reader_loop-related (event ∷ rest) s =
        state_of-and_then R trans s
          (reader_step h fmt xml as_number participant config tolerate_silence event s)
          (reader_loop h fmt xml as_number participant config tolerate_silence rest)
          (reader_step-related event s) (λ s'. reader_loop-related rest s')

    pub read_events-related :
        (paused : Bool) (events : List ReadEvent) (ledger : CorrelationLedger) (metrics : Metrics h)
        → R (fresh_reader h ledger metrics) (
            state_of (
              read_events h fmt xml as_number participant config tolerate_silence paused events
                ledger metrics))
    unfolding read_events
    read_events-related paused events ledger metrics =
        let s = fresh_reader h ledger metrics in
        state_of-choice (R s) (is_some config.pause_read_for && not paused) (ended s)
          (reader_loop h fmt xml as_number participant config tolerate_silence events s) (same s)
          (reader_loop-related events s)
