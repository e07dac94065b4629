-- ===== src/Scenarios/Reader/Kept.antt =====
-- src/scenarios.rs: what the reader leaves alone.
use tak_bench.Prelude.{
  List, ◌≡◌, refl, ◌∙◌, Option, none, some, if◌then◌else◌, is_some, Bool, true, false,
}
use tak_bench.Prelude.Bytes.{Str}
use tak_bench.Config.Types.{ParticipantConfig}
use tak_bench.Metrics.{Metrics, Histograms, record_delivery}
use tak_bench.Protocol.Decoder.{CotStreamDecoder}
use tak_bench.Protocol.Event.{Formats, ReceivedEvent}
use tak_bench.Protocol.Xml.{XmlLibrary}
use tak_bench.Scenarios.Ledger.{CorrelationLedger, Sent, Uuid, Instant, lookup_sent, lookup_seen}
use tak_bench.Scenarios.Reader.{
  ReadEvent, reader_step, read_events, fresh_reader, ReaderState, count, one_timeout, note_event,
  note_if_correlated, note_correlation, deliver,
}
use tak_bench.Scenarios.Reader.Relation.{reader_step-related, read_events-related}
use tak_bench.Scenarios.Stages.{state_of}

module _ (h : Histograms) where
  -- Between two states of a reader: nothing more is sent or dropped, and as many connections are active.
  pub record Overhears (s s' : ReaderState h) : Type 0 where
    pub sent_kept : s'.ledger.sent ≡ s.ledger.sent
    pub sent_same : s'.metrics.counters.sent_messages ≡ s.metrics.counters.sent_messages
    pub dropped_same : s'.metrics.counters.dropped_messages ≡ s.metrics.counters.dropped_messages
    pub active_same : s'.metrics.counters.active_connections ≡ s.metrics.counters.active_connections

  pub Overhears-same : (s : ReaderState h) → Overhears s s
  Overhears-same s = record {
    sent_kept = refl;
    sent_same = refl;
    dropped_same = refl;
    active_same = refl;
  }

  pub Overhears-trans :
      (s s' s'' : ReaderState h) → Overhears s s' → Overhears s' s'' → Overhears s s''
  Overhears-trans s s' s'' first second = record {
    sent_kept = second.sent_kept ∙ first.sent_kept;
    sent_same = second.sent_same ∙ first.sent_same;
    dropped_same = second.dropped_same ∙ first.dropped_same;
    active_same = second.active_same ∙ first.active_same;
  }

  deliver-Overhears :
      (o : Option Sent) (now : Instant) (s s' : ReaderState h)
      → Overhears s s'
      → Overhears s (deliver h o now s')
  unfolding deliver record_delivery
  deliver-Overhears none now s s' kept = kept
  deliver-Overhears (some sent) now s s' kept = record {
    sent_kept = kept.sent_kept;
    sent_same = kept.sent_same;
    dropped_same = kept.dropped_same;
    active_same = kept.active_same;
  }

  choice-Overhears :
      (test : Bool) (s x y : ReaderState h)
      → Overhears s x
      → Overhears s y
      → Overhears s (if test then x else y)
  choice-Overhears true s x y hx hy = hx
  choice-Overhears false s x y hx hy = hy

  note_correlation-Overhears :
      (participant : Str) (id : Uuid) (now : Instant) (s : ReaderState h)
      → Overhears s (note_correlation h participant id now s)
  unfolding note_correlation count
  note_correlation-Overhears participant id now s =
      choice-Overhears (is_some (lookup_seen participant id s.ledger.seen)) s _ _
        (record { sent_kept = refl; sent_same = refl; dropped_same = refl; active_same = refl })
        (deliver-Overhears (lookup_sent id s.ledger.sent) now s _
          (record { sent_kept = refl; sent_same = refl; dropped_same = refl; active_same = refl }))

  module _ (fmt : Formats) (xml : XmlLibrary) (as_number : fmt.Uuid → Uuid)
      (participant : Str) where
    note_if_correlated-Overhears :
        (o : Option fmt.Uuid) (now : Instant) (s : ReaderState h)
        → Overhears s (note_if_correlated h fmt xml as_number participant o now s)
    unfolding note_if_correlated
    note_if_correlated-Overhears none now s = Overhears-same s
    note_if_correlated-Overhears (some id) now s =
        note_correlation-Overhears participant (as_number id) now s

    pub note_event-Overhears :
        (event : ReceivedEvent fmt) (now : Instant) (s : ReaderState h)
        → Overhears s (note_event h fmt xml as_number participant event now s)
    unfolding note_event count
    note_event-Overhears event now s =
        Overhears-trans s _ _
          (record { sent_kept = refl; sent_same = refl; dropped_same = refl; active_same = refl })
          (note_if_correlated-Overhears event.correlation_id now _)

  pub decoded-Overhears :
      (s : ReaderState h) (d : CotStreamDecoder) → Overhears s (record s { decoder = d })
  decoded-Overhears s d = record {
    sent_kept = refl;
    sent_same = refl;
    dropped_same = refl;
    active_same = refl;
  }

  pub one_timeout-Overhears : (s : ReaderState h) → Overhears s (count h (one_timeout h) s)
  unfolding count
  one_timeout-Overhears s = record {
    sent_kept = refl;
    sent_same = refl;
    dropped_same = refl;
    active_same = refl;
  }

  module _ (fmt : Formats) (xml : XmlLibrary) (as_number : fmt.Uuid → Uuid) (participant : Str)
      (config : ParticipantConfig) (tolerate : Bool) where
    pub reader_step-Overhears :
        (event : ReadEvent) (s : ReaderState h)
        → Overhears s
            (state_of (reader_step h fmt xml as_number participant config tolerate event s))
    reader_step-Overhears =
        reader_step-related h fmt xml as_number participant Overhears Overhears-same Overhears-trans
          decoded-Overhears (note_event-Overhears fmt xml as_number participant)
          one_timeout-Overhears config tolerate

    pub read_events-Overhears :
        (paused : Bool) (events : List ReadEvent) (ledger : CorrelationLedger) (metrics : Metrics h)
        → Overhears (fresh_reader h ledger metrics) (
            state_of (
              read_events h fmt xml as_number participant config tolerate paused events ledger
                metrics))
    read_events-Overhears =
        read_events-related h fmt xml as_number participant Overhears Overhears-same Overhears-trans
          decoded-Overhears (note_event-Overhears fmt xml as_number participant)
          one_timeout-Overhears config tolerate
