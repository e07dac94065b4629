-- ===== src/Scenarios/Reader.antt =====
-- src/scenarios.rs: read_events, one branch of its `select!` at a time.
pub mod Relation
pub mod Kept
pub mod Noted
pub mod Trace
pub mod Traced
pub mod Counted
mod Tests
use tak_bench.Prelude.{
  ℕ, ◌+◌, ◌-◌, ◌*◌, Bool, true, false, ◌&&◌, not, Option, none, some, List, [], ◌∷◌, if◌then◌else◌,
  is_some, is_empty, Result, ok, err,
}
use tak_bench.Prelude.Bytes.{Bytes, Str}
use tak_bench.Config.Types.{ParticipantConfig}
use tak_bench.Metrics.{Histograms, Metrics, Counters, fetch_add, record_delivery}
use tak_bench.Protocol.Decoder
use tak_bench.Protocol.Decoder.{CotStreamDecoder, DecodeError, push}
use tak_bench.Protocol.Event.{Formats, ReceivedEvent, inspect_event}
use tak_bench.Protocol.Xml.{XmlLibrary}
use tak_bench.Scenarios.Batch.{Stage, going, ended, stopped, ◌and_then◌}
use tak_bench.Scenarios.Errors.{AnyError, runtime_cause, ParticipantRuntimeError}
use tak_bench.Scenarios.Ledger.{
  CorrelationLedger, Uuid, Instant, Sent, Seen, lookup_sent, lookup_seen, insert_seen,
}

-- The branches of the `select!`: the stop flag, the deadline, and a read that fails, times out, or fills
-- the buffer with bytes. `waited` is the outcome of the participant's read delay, and `now` the instant
-- at which each of the chunk's events is noted.
pub data ReadEvent : Type 0 where
  stop_changed : Bool → ReadEvent
  deadline_reached : ReadEvent
  read_failed : ReadEvent
  read_timed_out : ReadEvent
  received : Bytes → Bool → (ℕ → Instant) → ReadEvent

abbrev pub runtime_error : ParticipantRuntimeError → AnyError
runtime_error e = runtime_cause e ∷ []

module _ (h : Histograms) where
  -- What the reader changes
  pub record ReaderState : Type 0 where
    pub decoder : CotStreamDecoder
    pub ledger : CorrelationLedger
    pub metrics : Metrics h

  -- `CotStreamDecoder::new(8 * 1024 * 1024)`
  abbrev pub fresh_reader : CorrelationLedger → Metrics h → ReaderState
  fresh_reader ledger metrics = record {
    decoder = Decoder.new (8 * 1024 * 1024);
    ledger = ledger;
    metrics = metrics;
  }

  unfoldable pub count : (Counters → Counters) → ReaderState → ReaderState
  count change s = record s { metrics = record s.metrics { counters = change s.metrics.counters } }

  abbrev pub one_received : Counters → Counters
  one_received c = record c { received_messages = fetch_add c.received_messages 1 }

  abbrev pub one_duplicate : Counters → Counters
  one_duplicate c = record c { duplicate_messages = fetch_add c.duplicate_messages 1 }

  abbrev pub one_timeout : Counters → Counters
  one_timeout c = record c { message_timeouts = fetch_add c.message_timeouts 1 }

  -- `if let Some((_, sent)) = state.sent.get(..)`
  unfoldable pub deliver : Option Sent → Instant → ReaderState → ReaderState
  deliver none now s = s
  deliver (some sent) now s = record s { metrics = record_delivery h (now - sent.at) s.metrics }

  unfoldable pub note_correlation : Str → Uuid → Instant → ReaderState → ReaderState
  note_correlation participant id now s =
      let entry : Seen = record { receiver = participant; id = id; at = now } in
      let noted : ReaderState = record s {
        ledger = record s.ledger { seen = insert_seen entry s.ledger.seen };
      } in
      if is_some (lookup_seen participant id s.ledger.seen)
      then count one_duplicate noted
      else deliver (lookup_sent id s.ledger.sent) now noted

  module _ (fmt : Formats) (xml : XmlLibrary) (as_number : fmt.Uuid → Uuid)
      (participant : Str) where
    unfoldable pub note_if_correlated : Option fmt.Uuid → Instant → ReaderState → ReaderState
    note_if_correlated none now s = s
    note_if_correlated (some id) now s = note_correlation participant (as_number id) now s

    unfoldable pub note_event : ReceivedEvent fmt → Instant → ReaderState → ReaderState
    note_event event now s = note_if_correlated event.correlation_id now (count one_received s)

    -- An event that was inspected, and the rest of the loop
    unfoldable pub note_inspected :
        Result xml.XmlError (ReceivedEvent fmt)
        → Instant
        → ReaderState
        → (ReaderState → Stage ReaderState)
        → Stage ReaderState
    note_inspected (ok event) now s next = next (note_event event now s)
    note_inspected (err e) now s next = stopped (runtime_error ParticipantRuntimeError.parse) s

    unfoldable pub note_frames : List Str → ℕ → (ℕ → Instant) → ReaderState → Stage ReaderState
    note_frames [] index now s = going s
    note_frames (raw ∷ rest) index now s =
        note_inspected (inspect_event fmt xml raw) (now index) s
          λ s'. note_frames rest (index + 1) now s'

    unfoldable pub after_push :
        Result (DecodeError xml.XmlError) (List Str)
        → (ℕ → Instant)
        → ReaderState
        → Stage ReaderState
    after_push (err e) now s = stopped (runtime_error ParticipantRuntimeError.parse) s
    after_push (ok frames) now s = note_frames frames 0 now s

    unfoldable pub receive : Bytes → (ℕ → Instant) → ReaderState → Stage ReaderState
    receive chunk now s =
        let pushed = push xml chunk s.decoder in
        after_push pushed.0 now (record s { decoder = pushed.1 })

    module _ (config : ParticipantConfig) (tolerate_silence : Bool) where
      unfoldable pub reader_step : ReadEvent → ReaderState → Stage ReaderState
      reader_step (stop_changed raised) s = if raised then ended s else going s
      reader_step deadline_reached s = ended s
      reader_step read_failed s = stopped (runtime_error ParticipantRuntimeError.read) s
      reader_step read_timed_out s =
          if tolerate_silence
          then going (count one_timeout s)
          else stopped (runtime_error ParticipantRuntimeError.read) (count one_timeout s)
      reader_step (received chunk waited now) s =
          if is_empty chunk
          then stopped (runtime_error ParticipantRuntimeError.peer_closed) s
          else if is_some config.read_delay && not waited
          then ended s
          else receive chunk now s

      unfoldable pub reader_loop : List ReadEvent → ReaderState → Stage ReaderState
      reader_loop [] s = going s
      reader_loop (event ∷ rest) s = reader_step event s and_then λ s'. reader_loop rest s'

      -- The function: a decoder of its own, and the pause before the first read
      unfoldable pub read_events :
          Bool → List ReadEvent → CorrelationLedger → Metrics h → Stage ReaderState
      read_events paused events ledger metrics =
          let s = fresh_reader ledger metrics in
          if is_some config.pause_read_for && not paused then ended s else reader_loop events s
