-- ===== src/Scenarios/Sender/Conserved.antt =====
-- src/scenarios.rs: every event that the sender generates is counted once, as sent or as dropped.
use tak_bench.Prelude.{
  ℕ, ◌+◌, ◌%◌, ◌≡◌, true, false, List, [], ◌∷◌, inl, inr, Bool-cases, arith, is_some, not,
  unwrap_or, ltb, leb, max, length, ◌^◌, ◌&&◌, tests,
}
use tak_bench.Prelude.Bytes.{Str}
use tak_bench.Config.Types.{ScenarioConfig}
use tak_bench.Scenarios.Ledger.{Uuid, Instant}
use tak_bench.Scenarios.Writing.{Socket}
use tak_bench.Scenarios.Batch.{
  Stage, going, ended, stopped, ◌and_then◌, SenderState, invalid_kind, invalid_or_position,
  record_local_drop,
}
use tak_bench.Scenarios.Sender.{
  SenderEvent, tick, stop_changed, deadline_reached, is_oversized, frame_limit, finish, check_batch,
  abrupt_check, send_event, sender_step, send_positions, extend_batch, ticks_of, generated,
  generated_after,
}
use tak_bench.Scenarios.Sender.Balance.{
  add-mod-right, add-mod-one, IsBalanced, balanced_going, same_total, and_then-IsBalanced,
  start-IsBalanced, flush_batch-IsBalanced,
}

module _ {socket : Socket} where
  module _ (scenario : ScenarioConfig) (sender : Str) where
    finish-IsBalanced :
        (total : ℕ) (s : SenderState socket)
        → IsBalanced total (going s)
        → IsBalanced total (finish socket scenario sender s)
    unfolding finish record_local_drop IsBalanced
    finish-IsBalanced total s h = elim (Bool-cases (ltb 0 s.batch.events)) [
      | inl some_left ↦ rw some_left (omega (arith, h))
      | inr none_left ↦ rw none_left (omega (arith, h, none_left, tests))
    ]

    check_batch-IsBalanced :
        (total : ℕ) (s : SenderState socket)
        → IsBalanced total (going s)
        → IsBalanced total (check_batch socket scenario sender s)
    unfolding check_batch record_local_drop IsBalanced
    check_batch-IsBalanced total s h = elim (Bool-cases (ltb frame_limit (length s.batch.bytes))) [
      | inl too_large ↦ rw too_large (
          add-mod-right s.counters.sent_messages s.counters.dropped_messages s.batch.events total
            (balanced_going total s h))
      | inr fits ↦
          elim (Bool-cases (leb (max scenario.fragmentation.events_per_write 1) s.batch.events)) [
            | inl full ↦
                rw (fits, full)
                  (flush_batch-IsBalanced total scenario.fragmentation.chunk_sizes sender s h)
            | inr grows ↦ rw (fits, grows) h
          ]
    ]

    abrupt_check-IsBalanced :
        (total : ℕ) (s : SenderState socket)
        → IsBalanced total (going s)
        → IsBalanced total (abrupt_check socket scenario sender s)
    unfolding abrupt_check
    abrupt_check-IsBalanced total s h =
        elim (Bool-cases (
          scenario.abrupt_disconnect.enabled
          && leb (max scenario.abrupt_disconnect.after_events 1) s.event_count)) [
            | inl leaves ↦ rw leaves (finish-IsBalanced total s h)
            | inr stays ↦ rw stays h
          ]

    module _
        (no_oversized : (count : ℕ)
          → is_oversized (invalid_kind scenario.invalid count) ≡ false) where
      send_event-IsBalanced :
          (total : ℕ) (id : Uuid) (now : Instant) (position : Str) (s : SenderState socket)
          → IsBalanced total (going s)
          → IsBalanced (total + 1) (send_event socket scenario sender id now position s)
      unfolding send_event extend_batch IsBalanced
      send_event-IsBalanced total id now position s h = rw (no_oversized s.event_count) (
          check_batch-IsBalanced (total + 1)
            (record s {
              event_count = (s.event_count + 1) % 2 ^ 32;
              batch =
                  extend_batch socket scenario sender
                    (unwrap_or (invalid_or_position scenario.invalid s.event_count) position)
                    (not (is_some (invalid_kind scenario.invalid s.event_count))) id now s.batch;
            })
            (add-mod-one (s.counters.sent_messages + s.counters.dropped_messages) s.batch.events
              total h))

      -- The events generated by one turn of the loop
      sender_step-IsBalanced :
          (total : ℕ) (event : SenderEvent) (s : SenderState socket)
          → IsBalanced total (going s)
          → IsBalanced (total + ticks_of event) (sender_step socket scenario sender event s)
      unfolding sender_step
      sender_step-IsBalanced total (tick id now position) s h =
          and_then-IsBalanced (total + 1) (send_event socket scenario sender id now position s)
            (abrupt_check socket scenario sender) (send_event-IsBalanced total id now position s h)
            (λ s'. abrupt_check-IsBalanced (total + 1) s')
      sender_step-IsBalanced total (stop_changed true) s h =
          same_total _ (omega arith) (finish-IsBalanced total s h)
      sender_step-IsBalanced total (stop_changed false) s h = same_total _ (omega arith) h
      sender_step-IsBalanced total deadline_reached s h =
          same_total _ (omega arith) (finish-IsBalanced total s h)

      generated-IsBalanced :
          (total ticks : ℕ) (more : SenderState socket → ℕ)
          (k : SenderState socket → Stage (SenderState socket)) (stage : Stage (SenderState socket))
          → IsBalanced (total + ticks) stage
          → ((s : SenderState socket)
              → IsBalanced (total + ticks) (going s)
              → IsBalanced (total + ticks + more s) (k s))
          → IsBalanced (total + (ticks + generated_after more stage)) (stage and_then k)
      generated-IsBalanced total ticks more k (going s) h step =
          same_total _ (omega arith) (step s h)
      generated-IsBalanced total ticks more k (ended s) h step = same_total _ (omega arith) h
      generated-IsBalanced total ticks more k (stopped e s) h step = same_total _ (omega arith) h

      positions-IsBalanced :
          (events : List SenderEvent) (total : ℕ) (s : SenderState socket)
          → IsBalanced total (going s)
          → IsBalanced
              (total + generated socket scenario sender events s)
              (send_positions socket scenario sender events s)
      unfolding send_positions generated
      positions-IsBalanced [] total s h = same_total _ (omega arith) h
      positions-IsBalanced (event ∷ rest) total s h =
          generated-IsBalanced total (ticks_of event) (generated socket scenario sender rest)
            (send_positions socket scenario sender rest)
            (sender_step socket scenario sender event s) (sender_step-IsBalanced total event s h)
            (λ s'. positions-IsBalanced rest (total + ticks_of event) s')

-- Where no oversized frame is injected, every event that the sender generates, valid or not, is
-- accounted for: as long as the loop goes on, the events sent, dropped and waiting in the batch are
-- those counted before and those generated since, and where it has ended, by the deadline, a stop or
-- an abrupt disconnect, or has failed, those sent and those dropped alone are. The counters wrap at
-- 2 ^ 64. Whatever the socket does and whatever order the runtime's events come in.
pub send_positions-IsBalanced :
    (socket : Socket) (scenario : ScenarioConfig) (sender : Str) (events : List SenderEvent)
    (s : SenderState socket)
    → ((count : ℕ) → is_oversized (invalid_kind scenario.invalid count) ≡ false)
    → s.batch.events ≡ 0
    → IsBalanced
        (s.counters.sent_messages
          + s.counters.dropped_messages
          + generated socket scenario sender events s)
        (send_positions socket scenario sender events s)
send_positions-IsBalanced socket scenario sender events s no_oversized nothing_left =
    positions-IsBalanced scenario sender no_oversized events
      (s.counters.sent_messages + s.counters.dropped_messages) s (start-IsBalanced s nothing_left)
