-- ===== src/Scenarios/Sender/Kept.antt =====
-- src/scenarios.rs: what the sender leaves alone.
use tak_bench.Prelude.{
  ℕ, ◌+◌, ◌%◌, ◌^◌, ◌≡◌, refl, ◌∙◌, List, [], ◌∷◌, ◌&&◌, leb, ltb, max, length, is_empty, unwrap_or,
  Result, ok, err, arith,
}
use tak_bench.Prelude.Bytes.{Str}
use tak_bench.Config.Types.{ScenarioConfig}
use tak_bench.Scenarios.Errors.{AnyError}
use tak_bench.Scenarios.Ledger.{Uuid, Instant}
use tak_bench.Scenarios.Writing.{Socket, write_fragmented}
use tak_bench.Scenarios.Batch.{
  OutgoingBatch, going, SenderState, after_write, write_events, flushed, flush_batch,
  record_local_drop, record_write_failure, invalid_kind, invalid_or_position,
}
use tak_bench.Scenarios.Stages.{state_of, state_of-choice, state_of-and_then}
use tak_bench.Scenarios.Sender.{
  SenderEvent, tick, stop_changed, deadline_reached, is_oversized, frame_limit, finish, count_sent,
  send_oversized, extend_batch, check_batch, abrupt_check, send_event, sender_step, send_positions,
}

module _ (socket : Socket) where
  -- Between two states of a sender: nothing more is received or seen, and as many connections are active.
  pub record Speaks (s s' : SenderState socket) : Type 0 where
    pub seen_kept : s'.ledger.seen ≡ s.ledger.seen
    pub received_same : s'.counters.received_messages ≡ s.counters.received_messages
    pub duplicates_same : s'.counters.duplicate_messages ≡ s.counters.duplicate_messages
    pub active_same : s'.counters.active_connections ≡ s.counters.active_connections

  pub Speaks-same : (s : SenderState socket) → Speaks s s
  Speaks-same s = record {
    seen_kept = refl;
    received_same = refl;
    duplicates_same = refl;
    active_same = refl;
  }

  pub Speaks-trans : (s s' s'' : SenderState socket) → Speaks s s' → Speaks s' s'' → Speaks s s''
  Speaks-trans s s' s'' first second = record {
    seen_kept = second.seen_kept ∙ first.seen_kept;
    received_same = second.received_same ∙ first.received_same;
    duplicates_same = second.duplicates_same ∙ first.duplicates_same;
    active_same = second.active_same ∙ first.active_same;
  }

  after_write-Speaks :
      (events : ℕ) (s : SenderState socket) (sent : SenderState socket → SenderState socket)
      (r : Result AnyError socket.Writer)
      → ((w : socket.Writer) → Speaks s (sent (record s { writer = w })))
      → Speaks s (state_of (after_write socket events s sent r))
  unfolding after_write record_write_failure
  after_write-Speaks events s sent (ok w) k = k w
  after_write-Speaks events s sent (err e) k = record {
    seen_kept = refl;
    received_same = ground arith;
    duplicates_same = ground arith;
    active_same = ground arith;
  }

  flush_batch-Speaks :
      (chunks : List ℕ) (sender : Str) (s : SenderState socket)
      → Speaks s (state_of (flush_batch socket chunks sender s))
  unfolding flush_batch write_events flushed
  flush_batch-Speaks chunks sender s =
      state_of-choice (Speaks s) (is_empty s.batch.bytes) (going s) _ (Speaks-same s) (
        after_write-Speaks s.batch.events s (flushed socket sender)
          (write_fragmented socket chunks s.batch.bytes s.writer)
          (λ w. record {
            seen_kept = refl;
            received_same = refl;
            duplicates_same = refl;
            active_same = refl;
          }))

  module _ (scenario : ScenarioConfig) (sender : Str) where
    dropped-Speaks :
        (s : SenderState socket)
        → Speaks s (record s { counters = record_local_drop s.batch.events s.counters })
    unfolding record_local_drop
    dropped-Speaks s = record {
      seen_kept = refl;
      received_same = refl;
      duplicates_same = refl;
      active_same = refl;
    }

    finish-Speaks : (s : SenderState socket) → Speaks s (state_of (finish socket scenario sender s))
    unfolding finish record_local_drop
    finish-Speaks s = record {
      seen_kept = ground arith;
      received_same = ground arith;
      duplicates_same = ground arith;
      active_same = ground arith;
    }

    send_oversized-Speaks :
        (xml : Str) (s : SenderState socket)
        → Speaks s (state_of (send_oversized socket scenario sender xml s))
    unfolding send_oversized write_events count_sent
    send_oversized-Speaks xml s =
        let chunks = scenario.fragmentation.chunk_sizes in
        state_of-and_then Speaks Speaks-trans s (flush_batch socket chunks sender s) _
          (flush_batch-Speaks chunks sender s)
          (λ s'.
            after_write-Speaks 1 s' (count_sent socket scenario sender)
              (write_fragmented socket chunks xml s'.writer)
              (λ w. record {
                seen_kept = refl;
                received_same = refl;
                duplicates_same = refl;
                active_same = refl;
              }))

    check_batch-Speaks :
        (s : SenderState socket) → Speaks s (state_of (check_batch socket scenario sender s))
    unfolding check_batch
    check_batch-Speaks s =
        state_of-choice (Speaks s) (ltb frame_limit (length s.batch.bytes)) _ _ (dropped-Speaks s) (
          state_of-choice (Speaks s)
            (leb (max scenario.fragmentation.events_per_write 1) s.batch.events) _ (going s)
            (flush_batch-Speaks scenario.fragmentation.chunk_sizes sender s) (Speaks-same s))

    abrupt_check-Speaks :
        (s : SenderState socket) → Speaks s (state_of (abrupt_check socket scenario sender s))
    unfolding abrupt_check
    abrupt_check-Speaks s =
        state_of-choice (Speaks s)
          (scenario.abrupt_disconnect.enabled
            && leb (max scenario.abrupt_disconnect.after_events 1) s.event_count)
          (finish socket scenario sender s) (going s) (finish-Speaks s) (Speaks-same s)

    send_event-Speaks :
        (id : Uuid) (now : Instant) (position : Str) (s : SenderState socket)
        → Speaks s (state_of (send_event socket scenario sender id now position s))
    unfolding send_event extend_batch
    send_event-Speaks id now position s =
        let kind = invalid_kind scenario.invalid s.event_count in
        let xml = unwrap_or (invalid_or_position scenario.invalid s.event_count) position in
        let s1 : SenderState socket = record s { event_count = (s.event_count + 1) % 2 ^ 32 } in
        let moved : (b : OutgoingBatch)
            → Speaks s (record s { event_count = (s.event_count + 1) % 2 ^ 32; batch = b }) =
          λ b. record {
            seen_kept = refl;
            received_same = refl;
            duplicates_same = refl;
            active_same = refl;
          } in
        state_of-choice (Speaks s) (is_oversized kind) _ _
          (Speaks-trans s s1 _ (moved s.batch) (send_oversized-Speaks xml s1))
          (Speaks-trans s _ _ (moved _) (check_batch-Speaks _))

    pub sender_step-Speaks :
        (event : SenderEvent) (s : SenderState socket)
        → Speaks s (state_of (sender_step socket scenario sender event s))
    unfolding sender_step
    sender_step-Speaks (tick id now position) s =
        state_of-and_then Speaks Speaks-trans s
          (send_event socket scenario sender id now position s)
          (abrupt_check socket scenario sender) (send_event-Speaks id now position s)
          abrupt_check-Speaks
    sender_step-Speaks (stop_changed raised) s =
        state_of-choice (Speaks s) raised (finish socket scenario sender s) (going s)
          (finish-Speaks s) (Speaks-same s)
    sender_step-Speaks deadline_reached s = finish-Speaks s

    pub send_positions-Speaks :
        (events : List SenderEvent) (s : SenderState socket)
        → Speaks s (state_of (send_positions socket scenario sender events s))
    unfolding send_positions
    send_positions-Speaks [] s = Speaks-same s
    send_positions-Speaks (event ∷ rest) s =
        state_of-and_then Speaks Speaks-trans s (sender_step socket scenario sender event s)
          (send_positions socket scenario sender rest) (sender_step-Speaks event s)
          (λ s'. send_positions-Speaks rest s')
