-- ===== src/Scenarios/Sender.antt =====
-- src/scenarios.rs: send_positions, one event of its `select!` at a time.
pub mod Kept
pub mod Balance
pub mod Conserved
use tak_bench.Prelude.{
  ℕ, ◌+◌, ◌*◌, ◌%◌, ◌^◌, Bool, true, false, ◌&&◌, not, Option, none, some, List, [], ◌∷◌, ◌++◌, max,
  ltb, leb, length, is_some, if◌then◌else◌, unwrap_or,
}
use tak_bench.Prelude.Bytes.{Str, bytes}
use tak_bench.Prelude.Time.{u64_mod}
use tak_bench.Config.Enums.{InvalidEventKind, oversized_frame}
use tak_bench.Config.Types.{ScenarioConfig}
use tak_bench.Metrics.{Counters, fetch_add}
use tak_bench.Scenarios.Errors.{message_cause}
use tak_bench.Scenarios.Ledger.{Uuid, Instant}
use tak_bench.Scenarios.Writing.{Socket}
use tak_bench.Scenarios.Batch.{
  OutgoingBatch, Stage, going, ended, stopped, ◌and_then◌, SenderState, invalid_kind,
  invalid_or_position, write_events, flush_batch, record_local_drop,
}

-- The branches of the `select!`: the ticker, with the identifier and instant drawn and the text that
-- position_xml writes for them; a change of the stop flag, `true` also where its sender is gone; the
-- deadline
pub data SenderEvent : Type 0 where
  tick : Uuid → Instant → Str → SenderEvent
  stop_changed : Bool → SenderEvent
  deadline_reached : SenderEvent

abbrev pub is_oversized : Option InvalidEventKind → Bool
is_oversized (some oversized_frame) = true
is_oversized other = false

abbrev pub ticks_of : SenderEvent → ℕ
ticks_of (tick id now position) = 1
ticks_of (stop_changed raised) = 0
ticks_of deadline_reached = 0

abbrev pub frame_limit : ℕ
frame_limit = 8 * 1024 * 1024

abbrev pub generated_after : {S : Type 0} → (S → ℕ) → Stage S → ℕ
generated_after more (going s) = more s
generated_after more (ended s) = 0
generated_after more (stopped e s) = 0

module _ (socket : Socket) (scenario : ScenarioConfig) (sender : Str) where
  abbrev chunk_sizes : List ℕ
  chunk_sizes = scenario.fragmentation.chunk_sizes

  -- Events that were never written are dropped when the sender leaves its loop.
  unfoldable pub finish : SenderState socket → Stage (SenderState socket)
  finish s = ended (
      if ltb 0 s.batch.events
      then record s { counters = record_local_drop s.batch.events s.counters }
      else s)

  unfoldable pub count_sent : SenderState socket → SenderState socket
  count_sent s = record s {
    counters = record s.counters { sent_messages = fetch_add s.counters.sent_messages 1 };
  }

  unfoldable pub send_oversized : Str → SenderState socket → Stage (SenderState socket)
  send_oversized xml s = flush_batch socket chunk_sizes sender s and_then λ s'.
      write_events socket chunk_sizes xml 1 s' count_sent

  unfoldable pub extend_batch : Str → Bool → Uuid → Instant → OutgoingBatch → OutgoingBatch
  extend_batch xml valid id now b = record {
    bytes = b.bytes ++ xml;
    correlations = if valid then b.correlations ++ (id, now) ∷ [] else b.correlations;
    events = (b.events + 1) % u64_mod;
  }

  -- The batch after an event was added: too large, full, or left to grow
  unfoldable pub check_batch : SenderState socket → Stage (SenderState socket)
  check_batch s =
      if ltb frame_limit (length s.batch.bytes)
      then stopped (message_cause (bytes "outgoing batch exceeds frame safety limit") ∷ [])
          (record s { counters = record_local_drop s.batch.events s.counters })
      else if leb (max scenario.fragmentation.events_per_write 1) s.batch.events
      then flush_batch socket chunk_sizes sender s
      else going s

  unfoldable pub abrupt_check : SenderState socket → Stage (SenderState socket)
  abrupt_check s =
      if scenario.abrupt_disconnect.enabled
        && leb (max scenario.abrupt_disconnect.after_events 1) s.event_count
      then finish s
      else going s

  unfoldable pub send_event : Uuid → Instant → Str → SenderState socket → Stage (SenderState socket)
  send_event id now position s =
      let kind = invalid_kind scenario.invalid s.event_count in
      let xml = unwrap_or (invalid_or_position scenario.invalid s.event_count) position in
      let s1 : SenderState socket = record s { event_count = (s.event_count + 1) % 2 ^ 32 } in
      if is_oversized kind
      then send_oversized xml s1
      else check_batch (record s1 { batch = extend_batch xml (not (is_some kind)) id now s1.batch })

  unfoldable pub sender_step : SenderEvent → SenderState socket → Stage (SenderState socket)
  sender_step (tick id now position) s = send_event id now position s and_then abrupt_check
  sender_step (stop_changed raised) s = if raised then finish s else going s
  sender_step deadline_reached s = finish s

  -- The loop, over the events that the runtime delivers to it
  unfoldable pub send_positions : List SenderEvent → SenderState socket → Stage (SenderState socket)
  send_positions [] s = going s
  send_positions (event ∷ rest) s = sender_step event s and_then λ s'. send_positions rest s'

  -- How many events the loop generates, for the statement of what becomes of them
  unfoldable pub generated : List SenderEvent → SenderState socket → ℕ
  generated [] s = 0
  generated (event ∷ rest) s =
      ticks_of event + generated_after (λ s'. generated rest s') (sender_step event s)
