-- ===== src/Scenarios/Wire/Received.antt =====
-- src/scenarios.rs, src/protocol.rs: a receiver decodes what the sender's ledger records as sent.
use tak_bench.Prelude.{ℕ, ◌≡◌, List, map, ok, All}
use tak_bench.Prelude.Bytes.{Bytes, Str}
use tak_bench.Protocol.Decoder.{new}
use tak_bench.Protocol.Delivered.{IsAcceptable}
use tak_bench.Protocol.Event.{Formats, PositionEvent, to_xml}
use tak_bench.Protocol.Lossy.{from_utf8_lossy}
use tak_bench.Protocol.Sent.{IsPlainFormat}
use tak_bench.Protocol.Streams.{concat, push_all}
use tak_bench.Protocol.Xml.{XmlLibrary}
use tak_bench.Scenarios.Batch.{Stage, going, ended, stopped, SenderState}
use tak_bench.Scenarios.Sender.{SenderEvent}
use tak_bench.Scenarios.Wire.{Transcript, Emitted, emitted_by, IsRecorded}
use tak_bench.Scenarios.Writing.{Socket}

module _ (fmt : Formats) (plain : IsPlainFormat fmt) (xml : XmlLibrary) (limit : ℕ) where
  -- A text that to_xml writes for a position that the receiver can take
  abbrev pub IsPosition : Str → Type 0
  IsPosition text =
      (e : PositionEvent fmt) × IsAcceptable fmt plain xml limit e × (text ≡ to_xml fmt e)

  abbrev pub WritesPosition : SenderEvent → Type 0
  WritesPosition event = All (λ e. IsPosition e.text) (emitted_by event)

  -- Of the events made, the first are what the peer decodes, however its reads cut the stream, and
  -- also what the ledger records and the counter counts.
  pub record IsDelivered {socket : Socket} (t : Transcript socket) (sender : Str)
      (start : SenderState socket) (events : List Emitted) (s : SenderState socket) : Type 0 where
    pub on_record : IsRecorded t sender start events s
    pub decoded :
        (chunks : List Bytes)
        → concat chunks ≡ t.transcript s.writer
        → (push_all xml chunks (new limit)).0
          ≡ ok (map (λ e. from_utf8_lossy e.text) on_record.delivered)

  unfoldable pub Delivered :
      {socket : Socket}
      → Transcript socket
      → Str
      → SenderState socket
      → List Emitted
      → Stage (SenderState socket)
      → Type 0
  Delivered t sender start events (going s) = IsDelivered t sender start events s
  Delivered t sender start events (ended s) = IsDelivered t sender start events s
  Delivered t sender start events (stopped e s) = IsRecorded t sender start events s
