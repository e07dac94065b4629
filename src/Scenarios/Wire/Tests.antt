-- ===== src/Scenarios/Wire/Tests.antt =====
-- src/scenarios.rs, src/protocol.rs: what a concrete sender has put on the wire.
use mathlib.Core.List.{append-nil}
use tak_bench.Prelude.{◌≡◌, refl, sym, ◌∙◌, ap, true, List, [], ◌∷◌, ◌++◌, ok, ok-injective, arith}
use tak_bench.Prelude.Bytes.{Bytes, bytes}
use tak_bench.Config.Types.{ScenarioConfig}
use tak_bench.Config.Defaults.{default_scenario}
use tak_bench.Metrics.{no_counts}
use tak_bench.Protocol.Samples.{hostile_text}
use tak_bench.Protocol.Streams.{concat}
use tak_bench.Scenarios.Batch.{SenderState, empty_batch}
use tak_bench.Scenarios.Ledger.{empty}
use tak_bench.Scenarios.Samples.{log_write, log_socket}
use tak_bench.Scenarios.Sender.{SenderEvent, tick, stop_changed}
use tak_bench.Scenarios.Wire.{Transcript}
use tak_bench.Scenarios.Wire.Flush.{concat-append}
use tak_bench.Prelude.{
  Bool, ◌-◌, Result, err, none, some, Option, ltb, if◌then◌else◌, inl, inr, Bool-cases,
}
use tak_bench.Prelude.Time.{Duration, from_secs}
use tak_bench.Connection.Stream.{Awaited, after, never, Stream, timed_out, send, write_all}
use tak_bench.Metrics.{Counters}
use tak_bench.Scenarios.Batch.{Stage, flush_batch, write_events, after_write, record_write_failure}
use tak_bench.Scenarios.Stages.{state_of}
use tak_bench.Scenarios.Wire.Failed.{socket_of, Attempted, flush_batch-Attempted}
use tak_bench.Scenarios.Writing.{write_fragmented, write_chunks}

log_write-transcript :
    (slice : Bytes) (log log' : List Bytes)
    → log_write slice log ≡ ok log'
    → concat log' ≡ concat log ++ slice
log_write-transcript [] log log' h = ground arith
log_write-transcript (b ∷ slice) log log' h =
    ap concat (sym (ok-injective h))
    ∙ concat-append log ((b ∷ slice) ∷ [])
    ∙ ap (λ l. concat log ++ l) (append-nil (b ∷ slice))

abbrev log_transcript : Transcript log_socket
log_transcript = record { transcript = concat; writes = log_write-transcript }

-- Two events for each write, which is cut into pieces of 100 and 7 bytes in turn
abbrev in_pieces : ScenarioConfig
in_pieces = record default_scenario {
  fragmentation = record { chunk_sizes = 100 ∷ 7 ∷ []; events_per_write = 2 };
}

abbrev unsent : SenderState log_socket
unsent = record {
  writer = [];
  counters = no_counts;
  ledger = empty;
  batch = empty_batch;
  event_count = 0;
}

abbrev three_positions : List SenderEvent
three_positions =
    tick 1 10 hostile_text
    ∷ tick 2 20 hostile_text
    ∷ stop_changed true
    ∷ tick 3 30 hostile_text
    ∷ []

-- A stream that takes a second for each write, and never ends the flush behind its second one
abbrev stuck_flush : List Bytes → Awaited (Result Bool (List Bytes))
stuck_flush (first ∷ second ∷ log) = never
stuck_flush log = after 0 (ok log)

abbrev by_clock : {A : Type 0} → Duration → Awaited A → Option A
by_clock limit never = none
by_clock limit (after time a) = if ltb limit time then none else some a

by_clock-ReturnsEnd :
    (A : Type 0) (limit : Duration) (future : Awaited A) (a : A)
    → by_clock limit future ≡ some a
    → (time : Duration) × (future ≡ after time a)
by_clock-ReturnsEnd A limit never a h = cc
by_clock-ReturnsEnd A limit (after time b) a h = elim (Bool-cases (ltb limit time)) [
  | inl late ↦ ground (arith, late, h)
  | inr in_time ↦ (time, ground (arith, in_time, h))
]

abbrev stuck : Stream
stuck = record {
  Writer = List Bytes;
  write = λ slice log. after (from_secs 1) (ok (log ++ slice ∷ []));
  flush = stuck_flush;
  timeout = by_clock;
}

stuck-transcript :
    (slice : Bytes) (log log' : List Bytes)
    → write_all stuck (from_secs 5) slice log ≡ ok log'
    → concat log' ≡ concat log ++ slice
unfolding write_all send
stuck-transcript slice [] log' h = ap concat (sym (ok-injective h)) ∙ append-nil slice
stuck-transcript slice (first ∷ []) log' h = cc
stuck-transcript slice (first ∷ second ∷ log) log' h = cc

abbrev stuck_wire : Transcript (socket_of stuck (from_secs 5))
stuck_wire = record { transcript = concat; writes = stuck-transcript }

abbrev two_waiting : SenderState (socket_of stuck (from_secs 5))
two_waiting = record {
  writer = [];
  counters = no_counts;
  ledger = empty;
  batch = record {
    bytes = bytes "<event/><event/>";
    correlations = (1, 10) ∷ (2, 20) ∷ [];
    events = 2;
  };
  event_count = 2;
}

-- The counters of the state that a stage has
abbrev counters_of : Stage (SenderState (socket_of stuck (from_secs 5))) → Counters
counters_of stage = (state_of stage).counters

half_written :
    counters_of (flush_batch (socket_of stuck (from_secs 5)) (8 ∷ []) (bytes "a1") two_waiting)
    ≡ record no_counts { dropped_messages = 2; message_timeouts = 2 }
unfolding flush_batch write_events write_fragmented write_chunks write_all send after_write
    record_write_failure
half_written = refl

in_time : write_all stuck (from_secs 5) (bytes "<event/>") [] ≡ ok (bytes "<event/>" ∷ [])
unfolding write_all send
in_time = refl

too_slow : write_all stuck (from_secs 1 - 1) (bytes "<event/>") [] ≡ err timed_out
unfolding write_all send
too_slow = refl

flush_batch-Attempted_example :
    Attempted stuck
      (from_secs 5)
      stuck_wire
      two_waiting
      (flush_batch (socket_of stuck (from_secs 5)) (8 ∷ []) (bytes "a1") two_waiting)
flush_batch-Attempted_example =
    flush_batch-Attempted stuck (from_secs 5) stuck_wire by_clock-ReturnsEnd (8 ∷ []) (bytes "a1")
      two_waiting
