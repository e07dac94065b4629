-- ===== src/Scenarios/Wire/Sent.antt =====
-- src/scenarios.rs: the sender keeps what is on the wire and what its ledger records in step.
use mathlib.Core.List.{append-nil, append_assoc, map-append}
use tak_bench.Prelude.{
  ℕ, ◌+◌, ◌%◌, ◌^◌, ◌≡◌, refl, sym, ◌∙◌, ap, true, false, ◌&&◌, List, [], ◌∷◌, ◌++◌, length, leb,
  ltb, max, none, inl, inr, Bool-cases, arith, length-append,
}
use tak_bench.Prelude.Bytes.{Str}
use tak_bench.Prelude.Time.{u64_mod}
use tak_bench.Config.Types.{ScenarioConfig}
use tak_bench.Scenarios.Batch.{
  Stage, going, ended, stopped, ◌and_then◌, SenderState, insert_all, invalid_kind,
  invalid_or_position, empty_batch,
}
use tak_bench.Scenarios.Ledger.{Uuid, Instant}
use tak_bench.Scenarios.Sender.{
  SenderEvent, tick, stop_changed, deadline_reached, frame_limit, finish, check_batch, abrupt_check,
  send_event, sender_step, send_positions, extend_batch,
}
use tak_bench.Scenarios.Writing.{Socket}
use tak_bench.Scenarios.Wire.{
  Transcript, Emitted, key, texts, emitted_by, emitted_after, emitted, IsOnWire, OnWire,
}
use tak_bench.Scenarios.Wire.Flush.{
  texts-append, and_then-OnWire, flush_batch-OnWire, dropped-IsOnWire,
}

module _ {socket : Socket} (t : Transcript socket) where
  open t use {transcript}

  module _ (scenario : ScenarioConfig) (sender : Str) (start : SenderState socket) where
    finish-OnWire :
        (events : List Emitted) (s : SenderState socket)
        → IsOnWire t sender start events s
        → OnWire t sender start events (finish socket scenario sender s)
    unfolding finish OnWire
    finish-OnWire events s h = elim (Bool-cases (ltb 0 s.batch.events)) [
      | inl some_left ↦ rw some_left (dropped-IsOnWire t sender start events s h)
      | inr none_left ↦ rw none_left h
    ]

    check_batch-OnWire :
        (events : List Emitted) (s : SenderState socket)
        → IsOnWire t sender start events s
        → OnWire t sender start events (check_batch socket scenario sender s)
    unfolding check_batch OnWire
    check_batch-OnWire events s h = elim (Bool-cases (ltb frame_limit (length s.batch.bytes))) [
      | inl too_large ↦ rw too_large (dropped-IsOnWire t sender start events s h).on_record
      | inr fits ↦
          elim (Bool-cases (leb (max scenario.fragmentation.events_per_write 1) s.batch.events)) [
            | inl full ↦
                rw (fits, full)
                  (flush_batch-OnWire t sender start scenario.fragmentation.chunk_sizes events s h)
            | inr grows ↦ rw (fits, grows) h
          ]
    ]

    abrupt_check-OnWire :
        (events : List Emitted) (s : SenderState socket)
        → IsOnWire t sender start events s
        → OnWire t sender start events (abrupt_check socket scenario sender s)
    unfolding abrupt_check OnWire
    abrupt_check-OnWire events s h =
        elim (Bool-cases (
          scenario.abrupt_disconnect.enabled
          && leb (max scenario.abrupt_disconnect.after_events 1) s.event_count)) [
            | inl leaves ↦ rw leaves (finish-OnWire events s h)
            | inr stays ↦ rw stays h
          ]

    extended-IsOnWire :
        (events : List Emitted) (id : Uuid) (now : Instant) (position : Str) (count : ℕ)
        (s : SenderState socket)
        → IsOnWire t sender start events s
        → IsOnWire t sender start (events ++ emitted_by (tick id now position)) (record s {
          event_count = count;
          batch = extend_batch socket scenario sender position true id now s.batch;
        })
    unfolding extend_batch
    extended-IsOnWire events id now position count s h =
        let e : Emitted = record { id = id; at = now; text = position } in
        let left = h.on_record.pending in
        record {
          on_record = record {
            delivered = h.on_record.delivered;
            pending = left ++ e ∷ [];
            split =
                ap (λ l. l ++ e ∷ []) h.on_record.split
                ∙ append_assoc h.on_record.delivered left (e ∷ []);
            recorded = h.on_record.recorded;
            counted = h.on_record.counted;
          };
          on_wire = h.on_wire;
          batched =
              ap (λ l. l ++ position) h.batched
              ∙ ap (λ l. texts left ++ l) (sym (append-nil position))
              ∙ sym (texts-append left (e ∷ []));
          keyed = ap (λ l. l ++ (id, now) ∷ []) h.keyed ∙ sym (map-append key left (e ∷ []));
          numbered = omega (arith, h.numbered, length-append left (e ∷ []));
        }

    module _ (valid : scenario.invalid.enabled ≡ false) where
      valid_kind : (count : ℕ) → invalid_kind scenario.invalid count ≡ none
      unfolding invalid_kind
      valid_kind count = rw valid refl

      valid_text : (count : ℕ) → invalid_or_position scenario.invalid count ≡ none
      unfolding invalid_or_position
      valid_text count = rw (valid_kind count) refl

      send_event-OnWire :
          (events : List Emitted) (id : Uuid) (now : Instant) (position : Str)
          (s : SenderState socket)
          → IsOnWire t sender start events s
          → OnWire t sender start
              (events ++ emitted_by (tick id now position))
              (send_event socket scenario sender id now position s)
      unfolding send_event
      send_event-OnWire events id now position s h =
          rw (valid_kind s.event_count, valid_text s.event_count)
            (check_batch-OnWire (events ++ emitted_by (tick id now position)) _
              (extended-IsOnWire events id now position ((s.event_count + 1) % 2 ^ 32) s h))

      sender_step-OnWire :
          (events : List Emitted) (event : SenderEvent) (s : SenderState socket)
          → IsOnWire t sender start events s
          → OnWire t sender start
              (events ++ emitted_by event)
              (sender_step socket scenario sender event s)
      unfolding sender_step OnWire
      sender_step-OnWire events (tick id now position) s h =
          let more = events ++ emitted_by (tick id now position) in
          and_then-OnWire t sender start more (send_event socket scenario sender id now position s)
            (abrupt_check socket scenario sender) (send_event-OnWire events id now position s h)
            (abrupt_check-OnWire more)
      sender_step-OnWire events (stop_changed true) s h =
          rw (append-nil events) (finish-OnWire events s h)
      sender_step-OnWire events (stop_changed false) s h = rw (append-nil events) h
      sender_step-OnWire events deadline_reached s h =
          rw (append-nil events) (finish-OnWire events s h)

      later-OnWire :
          (before now : List Emitted) (more : SenderState socket → List Emitted)
          (k : SenderState socket → Stage (SenderState socket)) (stage : Stage (SenderState socket))
          → OnWire t sender start (before ++ now) stage
          → ((s : SenderState socket)
              → IsOnWire t sender start (before ++ now) s
              → OnWire t sender start ((before ++ now) ++ more s) (k s))
          → OnWire t sender start (before ++ (now ++ emitted_after more stage)) (stage and_then k)
      unfolding OnWire
      later-OnWire before now more k (going s) h step =
          rw (sym (append_assoc before now (more s))) (step s h)
      later-OnWire before now more k (ended s) h step = rw (append-nil now) h
      later-OnWire before now more k (stopped e s) h step = rw (append-nil now) h

      positions-OnWire :
          (events : List SenderEvent) (before : List Emitted) (s : SenderState socket)
          → IsOnWire t sender start before s
          → OnWire t sender start
              (before ++ emitted socket scenario sender events s)
              (send_positions socket scenario sender events s)
      unfolding send_positions emitted OnWire
      positions-OnWire [] before s h = rw (append-nil before) h
      positions-OnWire (event ∷ rest) before s h =
          later-OnWire before (emitted_by event) (emitted socket scenario sender rest)
            (send_positions socket scenario sender rest)
            (sender_step socket scenario sender event s) (sender_step-OnWire before event s h)
            (positions-OnWire rest (before ++ emitted_by event))

    start-IsOnWire : start.batch ≡ empty_batch → IsOnWire t sender start [] start
    start-IsOnWire fresh = record {
      on_record = record {
        delivered = [];
        pending = [];
        split = refl;
        recorded = unfold insert_all in refl;
        counted = omega arith;
      };
      on_wire = sym (append-nil (transcript start.writer));
      batched = ap (λ b. b.bytes) fresh;
      keyed = ap (λ b. b.correlations) fresh;
      numbered = ap (λ b. b.events % u64_mod) fresh;
    }

  -- Where no invalid events are injected, the sender and its ledger are in step.
  pub send_positions-OnWire :
      (scenario : ScenarioConfig) (sender : Str) (events : List SenderEvent)
      (s : SenderState socket)
      → scenario.invalid.enabled ≡ false
      → s.batch ≡ empty_batch
      → OnWire t sender s
          (emitted socket scenario sender events s)
          (send_positions socket scenario sender events s)
  send_positions-OnWire scenario sender events s valid fresh =
      positions-OnWire scenario sender s valid events [] s (start-IsOnWire scenario sender s fresh)
