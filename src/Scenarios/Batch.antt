-- ===== src/Scenarios/Batch.antt =====
-- src/scenarios.rs: the outgoing batch, its flush, and the counters for what is not sent.
use tak_bench.Prelude.{
  ℕ, ◌+◌, ◌*◌, ◌||◌, not, Option, none, some, List, [], ◌∷◌, ◌++◌, Result, ok, err, any, is_empty,
  if◌then◌else◌, leb, unwrap_or, replicate,
}
use mathlib.Core.Option
use tak_bench.Prelude.Bytes.{Bytes, Str, bytes}
use tak_bench.Config.Enums.{
  InvalidEventKind, malformed_xml, unterminated_xml, oversized_frame, invalid_coordinates,
  invalid_time,
}
use tak_bench.Config.Types.{InvalidScenarioConfig}
use tak_bench.Metrics.{Counters, fetch_add}
use tak_bench.Scenarios.Errors.{AnyError, runtime_cause, is_elapsed, ParticipantRuntimeError}
use tak_bench.Scenarios.Ledger.{Uuid, Instant, Sent, CorrelationLedger, insert_sent}
use tak_bench.Scenarios.Writing.{Socket, write_fragmented}

pub record OutgoingBatch : Type 0 where
  pub bytes : Bytes
  pub correlations : List (Uuid × Instant)
  pub events : ℕ

abbrev pub empty_batch : OutgoingBatch
empty_batch = record { bytes = []; correlations = []; events = 0 }

unfoldable pub record_local_drop : ℕ → Counters → Counters
record_local_drop events c = record c {
  local_dropped_messages = fetch_add c.local_dropped_messages events;
  dropped_messages = fetch_add c.dropped_messages events;
}

unfoldable pub record_write_failure : ℕ → AnyError → Counters → Counters
record_write_failure events error c =
    let dropped : Counters = record c { dropped_messages = fetch_add c.dropped_messages events } in
    if any is_elapsed error
    then (record dropped { message_timeouts = fetch_add c.message_timeouts events })
    else dropped

unfoldable pub invalid_kind : InvalidScenarioConfig → ℕ → Option InvalidEventKind
invalid_kind invalid count =
    if not invalid.enabled || leb (unwrap_or invalid.max_events 0) count
    then none
    else some (unwrap_or invalid.kind malformed_xml)

unfoldable pub oversized_xml : Str
oversized_xml = bytes "<event>" ++ replicate (8 * 1024 * 1024 + 1) 120 ++ bytes "</event>"

abbrev invalid_text : InvalidEventKind → Str
invalid_text malformed_xml = bytes "<event"
invalid_text unterminated_xml = bytes "<event uid=\"invalid\">"
invalid_text oversized_frame = oversized_xml
invalid_text invalid_coordinates = bytes "<event><point lat=\"nan\" lon=\"999\"/></event>"
invalid_text invalid_time = bytes "<event time=\"not-a-time\"></event>"

unfoldable pub invalid_or_position : InvalidScenarioConfig → ℕ → Option Str
invalid_or_position invalid count = Option.map invalid_text (invalid_kind invalid count)

-- Where the loop of the sender stands: it goes on, has returned, or has failed
pub data Stage (S : Type 0) : Type 0 where
  going : S → Stage S
  ended : S → Stage S
  stopped : AnyError → S → Stage S

-- `?`, and what follows a step that did not leave the loop
infixl 5 ◌and_then◌
abbrev pub ◌and_then◌ : {S : Type 0} → Stage S → (S → Stage S) → Stage S
going s and_then k = k s
ended s and_then k = ended s
stopped e s and_then k = stopped e s

-- `batch.correlations.drain(..)` into the ledger
unfoldable pub insert_all : Str → List (Uuid × Instant) → List Sent → List Sent
insert_all sender [] sent = sent
insert_all sender ((id, at) ∷ rest) sent =
    insert_all sender rest (insert_sent (record { id = id; sender = sender; at = at }) sent)

-- `ParticipantRuntimeError::Write.into()`
abbrev pub write_error : AnyError
write_error = runtime_cause ParticipantRuntimeError.write ∷ []

module _ (socket : Socket) where
  -- What the sender's loop changes
  pub record SenderState : Type 0 where
    pub writer : socket.Writer
    pub counters : Counters
    pub ledger : CorrelationLedger
    pub batch : OutgoingBatch
    pub event_count : ℕ

  -- After a write of some events: the new writer and what `sent` does, or the failure counted
  unfoldable pub after_write :
      ℕ
      → SenderState
      → (SenderState → SenderState)
      → Result AnyError socket.Writer
      → Stage SenderState
  after_write events s sent (ok w) = going (sent (record s { writer = w }))
  after_write events s sent (err e) =
      stopped write_error (record s { counters = record_write_failure events e s.counters })

  unfoldable pub write_events :
      List ℕ → Bytes → ℕ → SenderState → (SenderState → SenderState) → Stage SenderState
  write_events chunks text events s sent =
      after_write events s sent (write_fragmented socket chunks text s.writer)

  -- What a flush does after its write
  unfoldable pub flushed : Str → SenderState → SenderState
  flushed sender s = record s {
    counters = record s.counters {
      sent_messages = fetch_add s.counters.sent_messages s.batch.events;
    };
    ledger = record s.ledger { sent = insert_all sender s.batch.correlations s.ledger.sent };
    batch = empty_batch;
  }

  unfoldable pub flush_batch : List ℕ → Str → SenderState → Stage SenderState
  flush_batch chunks sender s =
      if is_empty s.batch.bytes
      then going s
      else write_events chunks s.batch.bytes s.batch.events s (flushed sender)
