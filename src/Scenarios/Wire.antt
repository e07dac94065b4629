-- ===== src/Scenarios/Wire.antt =====
-- src/scenarios.rs: what the sender has put on the wire, and what its ledger records of it.
pub mod Flush
pub mod Sent
pub mod Received
pub mod Failed
mod Tests
use tak_bench.Prelude.{ℕ, ◌+◌, ◌%◌, ◌≡◌, List, [], ◌∷◌, ◌++◌, map, length, ok}
use tak_bench.Prelude.Bytes.{Bytes, Str}
use tak_bench.Prelude.Time.{u64_mod}
use tak_bench.Config.Types.{ScenarioConfig}
use tak_bench.Protocol.Streams.{concat}
use tak_bench.Scenarios.Batch.{Stage, going, ended, stopped, SenderState, insert_all}
use tak_bench.Scenarios.Ledger.{Uuid, Instant}
use tak_bench.Scenarios.Sender.{SenderEvent, tick, stop_changed, deadline_reached, sender_step}
use tak_bench.Scenarios.Writing.{Socket}

-- The bytes that the peer has been sent, and that a write that succeeds sends its whole slice
pub record Transcript (socket : Socket) : Type 0 where
  pub transcript : socket.Writer → Bytes
  pub writes :
      (slice : Bytes) (w w' : socket.Writer)
      → socket.write_all slice w ≡ ok w'
      → transcript w' ≡ transcript w ++ slice

-- An event that the sender's loop has made of a tick
pub record Emitted : Type 0 where
  pub id : Uuid
  pub at : Instant
  pub text : Str

abbrev pub key : Emitted → Uuid × Instant
key e = (e.id, e.at)

abbrev pub texts : List Emitted → Bytes
texts events = concat (map (λ e. e.text) events)

abbrev pub emitted_by : SenderEvent → List Emitted
emitted_by (tick id now position) = record { id = id; at = now; text = position } ∷ []
emitted_by (stop_changed raised) = []
emitted_by deadline_reached = []

abbrev pub emitted_after : {S : Type 0} → (S → List Emitted) → Stage S → List Emitted
emitted_after more (going s) = more s
emitted_after more (ended s) = []
emitted_after more (stopped e s) = []

module _ (socket : Socket) (scenario : ScenarioConfig) (sender : Str) where
  -- The events that the loop makes until it stops
  unfoldable pub emitted : List SenderEvent → SenderState socket → List Emitted
  emitted [] s = []
  emitted (event ∷ rest) s =
      emitted_by event
      ++ emitted_after (λ s'. emitted rest s') (sender_step socket scenario sender event s)

module _ {socket : Socket} (t : Transcript socket) (sender : Str) where
  -- Of the events made so far the first are recorded in the ledger and counted as sent.
  pub record IsRecorded (start : SenderState socket) (events : List Emitted)
      (s : SenderState socket) : Type 0 where
    pub delivered : List Emitted
    pub pending : List Emitted
    pub split : events ≡ delivered ++ pending
    pub recorded : s.ledger.sent ≡ insert_all sender (map key delivered) start.ledger.sent
    pub counted :
        s.counters.sent_messages % u64_mod
        ≡ (start.counters.sent_messages + length delivered) % u64_mod

  -- These are on the wire, in order and behind what was there before, and the others wait in the batch.
  pub record IsOnWire (start : SenderState socket) (events : List Emitted) (s : SenderState socket)
      : Type 0 where
    pub on_record : IsRecorded start events s
    pub on_wire : t.transcript s.writer ≡ t.transcript start.writer ++ texts on_record.delivered
    pub batched : s.batch.bytes ≡ texts on_record.pending
    pub keyed : s.batch.correlations ≡ map key on_record.pending
    pub numbered : s.batch.events % u64_mod ≡ length on_record.pending % u64_mod

  -- Where a write has failed, part of it may be on the wire.
  unfoldable pub OnWire : SenderState socket → List Emitted → Stage (SenderState socket) → Type 0
  OnWire start events (going s) = IsOnWire start events s
  OnWire start events (ended s) = IsOnWire start events s
  OnWire start events (stopped e s) = IsRecorded start events s
