-- ===== src/Scenarios/Tests.antt =====
-- src/scenarios.rs: tests, and the theorems at concrete ledgers, sockets and senders.
use tak_bench.Prelude.{Any, ◌⊎◌, none, ℕ, ◌+◌, ◌≡◌, ◌↔◌, refl, true, false, List, [], ◌∷◌, ok, All}
use tak_bench.Prelude.Bytes.{Bytes, bytes}
use tak_bench.Prelude.Time.{from_secs}
use tak_bench.Config.Types.{RoutingAssertion, ScenarioConfig}
use tak_bench.Config.Defaults.{default_routing, default_scenario}
use tak_bench.Metrics.{no_counts}
use tak_bench.Scenarios.Ledger.{lookup_seen, CorrelationLedger, empty}
use tak_bench.Scenarios.Routing.{expected_result, forbidden_result}
use tak_bench.Scenarios.Routing.Verdicts.{IsSeenInTime, expected_passed_iff, forbidden_passed_iff}
use tak_bench.Scenarios.Writing.{
  Socket, IsCut, write_chunks, write_fragmented, write_each, write_fragmented-each,
}
use tak_bench.Scenarios.Samples.{log_socket}
use tak_bench.Scenarios.Batch.{SenderState, empty_batch, invalid_kind}
use tak_bench.Scenarios.Sender.{
  SenderEvent, tick, deadline_reached, is_oversized, send_positions, generated,
}
use tak_bench.Scenarios.Sender.Balance.{IsBalanced}
use tak_bench.Scenarios.Sender.Conserved.{send_positions-IsBalanced}

-- An event of a1 that b1 saw one second later
abbrev delivered : CorrelationLedger
delivered = record {
  sent = record { id = 7; sender = bytes "a1"; at = from_secs 1 } ∷ [];
  seen = record { receiver = bytes "b1"; id = 7; at = from_secs 2 } ∷ [];
}

abbrev a1_to_b1 : RoutingAssertion
a1_to_b1 = record default_routing { sender = bytes "a1"; receivers = bytes "b1" ∷ [] }

expected_passed_iff_example : ((expected_result delivered a1_to_b1 (bytes "b1")).passed ≡ true) ↔ (
    Any (λ s. s.sender ≡ a1_to_b1.sender) delivered.sent
    × All
        (λ s. ¬ (s.sender ≡ a1_to_b1.sender) ⊎ IsSeenInTime delivered a1_to_b1 (bytes "b1") s.id)
        delivered.sent)
expected_passed_iff_example = expected_passed_iff delivered a1_to_b1 (bytes "b1")

forbidden_passed_iff_example :
    ((forbidden_result delivered a1_to_b1 (bytes "b1")).passed ≡ true) ↔ (
      Any (λ s. s.sender ≡ a1_to_b1.sender) delivered.sent
      × All
          (λ s.
            ¬ (s.sender ≡ a1_to_b1.sender) ⊎ (lookup_seen (bytes "b1") s.id delivered.seen ≡ none))
          delivered.sent)
forbidden_passed_iff_example = forbidden_passed_iff delivered a1_to_b1 (bytes "b1")

write_fragmented-each_example :
    (slices : List Bytes) × IsCut (3 ∷ 0 ∷ []) (bytes "<event/>") slices
    × ((socket : Socket) (w : socket.Writer)
        → write_fragmented socket (3 ∷ 0 ∷ []) (bytes "<event/>") w ≡ write_each socket slices w)
write_fragmented-each_example = write_fragmented-each 3 (0 ∷ []) (bytes "<event/>")

cycled_chunks :
    write_fragmented log_socket (3 ∷ 0 ∷ []) (bytes "<event/>") []
    ≡ ok (bytes "<ev" ∷ bytes "e" ∷ bytes "nt/" ∷ bytes ">" ∷ [])
unfolding write_fragmented write_chunks
cycled_chunks = refl

abbrev batched : ScenarioConfig
batched = record default_scenario {
  fragmentation = record { chunk_sizes = []; events_per_write = 2 };
}

abbrev fresh : SenderState log_socket
fresh = record {
  writer = [];
  counters = no_counts;
  ledger = empty;
  batch = empty_batch;
  event_count = 0;
}

abbrev three_events : List SenderEvent
three_events =
    tick 1 0 (bytes "<event/>")
    ∷ tick 2 1 (bytes "<event/>")
    ∷ tick 3 2 (bytes "<event/>")
    ∷ deadline_reached
    ∷ []

no_injection : (count : ℕ) → is_oversized (invalid_kind batched.invalid count) ≡ false
unfolding invalid_kind
no_injection count = refl

send_positions-IsBalanced_example :
    IsBalanced
      (fresh.counters.sent_messages
        + fresh.counters.dropped_messages
        + generated log_socket batched (bytes "a1") three_events fresh)
      (send_positions log_socket batched (bytes "a1") three_events fresh)
send_positions-IsBalanced_example =
    send_positions-IsBalanced log_socket batched (bytes "a1") three_events fresh no_injection refl
