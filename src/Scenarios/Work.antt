-- ===== src/Scenarios/Work.antt =====
-- src/scenarios.rs: what run_connected works on, and what happens to it while it does.
use tak_bench.Prelude.{ℕ, ◌*◌, Bool, false, List, Result}
use tak_bench.Prelude.Bytes.{Str}
use tak_bench.Metrics.{Histograms}
use tak_bench.Protocol.Decoder
use tak_bench.Protocol.Decoder.{CotStreamDecoder}
use tak_bench.Scenarios.Batch.{OutgoingBatch, empty_batch, SenderState}
use tak_bench.Scenarios.Errors.{AnyError}
use tak_bench.Scenarios.Participant.{Shared}
use tak_bench.Scenarios.Reader.{ReadEvent, ReaderState}
use tak_bench.Scenarios.Readiness.{ReadinessBarrier, BarrierEvent}
use tak_bench.Scenarios.Sender.{SenderEvent}
use tak_bench.Scenarios.Writing.{Socket}

-- What happens to a participant that sends and receives: at the barrier, to the reader's task in its
-- pause or its loop, to the sender; `select!` takes the task that has finished; the task panics.
pub data ConnectedEvent : Type 0 where
  waiting : BarrierEvent → ConnectedEvent
  pause_over : Bool → ConnectedEvent
  reading : ReadEvent → ConnectedEvent
  sending : SenderEvent → ConnectedEvent
  reader_joined : ConnectedEvent
  reader_panicked : Str → ConnectedEvent

-- What happens before the deadlines: how the delay of a slow first write and the pause of a
-- receive-only reader end, the events of each role, and for both roles in one their interleaving
pub record Course : Type 0 where
  pub writable : Bool
  pub paused : Bool
  pub waits : List BarrierEvent
  pub reads : List ReadEvent
  pub sends : List SenderEvent
  pub both : List ConnectedEvent

pub data ReaderTask : Type 0 where
  pausing running : ReaderTask
  finished : Result AnyError Unit → ReaderTask

module _ (h : Histograms) (socket : Socket) where
  -- `released` is whether the sender has passed the barrier.
  pub record ConnectedState : Type 0 where
    pub decoder : CotStreamDecoder
    pub writer : socket.Writer
    pub batch : OutgoingBatch
    pub event_count : ℕ
    pub reader : ReaderTask
    pub released : Bool
    pub shared : Shared h

  abbrev pub fresh_connection : socket.Writer → Shared h → ConnectedState
  fresh_connection writer shared = record {
    decoder = Decoder.new (8 * 1024 * 1024);
    writer = writer;
    batch = empty_batch;
    event_count = 0;
    reader = running;
    released = false;
    shared = shared;
  }

  abbrev pub reader_of : ConnectedState → ReaderState h
  reader_of s = record { decoder = s.decoder; ledger = s.shared.ledger; metrics = s.shared.metrics }

  abbrev pub put_reader : ConnectedState → ReaderState h → ConnectedState
  put_reader s r = record s {
    decoder = r.decoder;
    shared = record s.shared { ledger = r.ledger; metrics = r.metrics };
  }

  abbrev pub sender_of : ConnectedState → SenderState socket
  sender_of s = record {
    writer = s.writer;
    counters = s.shared.metrics.counters;
    ledger = s.shared.ledger;
    batch = s.batch;
    event_count = s.event_count;
  }

  abbrev pub put_sender : ConnectedState → SenderState socket → ConnectedState
  put_sender s t = record s {
    writer = t.writer;
    batch = t.batch;
    event_count = t.event_count;
    shared = record s.shared {
      ledger = t.ledger;
      metrics = record s.shared.metrics { counters = t.counters };
    };
  }

  abbrev pub put_barrier : ConnectedState → ReadinessBarrier → ConnectedState
  put_barrier s barrier = record s { shared = record s.shared { barrier = barrier } }
