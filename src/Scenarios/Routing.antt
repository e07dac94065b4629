-- ===== src/Scenarios/Routing.antt =====
-- src/scenarios.rs: evaluate_routing.
pub mod Selected
pub mod Verdicts
use tak_bench.Prelude.{
  ℕ, ◌-◌, Bool, true, false, ◌&&◌, not, Option, none, some, List, [], ◌∷◌, ◌++◌, map, leb, ◌==◌,
  if◌then◌else◌, is_some, is_some_and, is_empty, unwrap_or, select, length,
}
use tak_bench.Prelude.Bytes.{Str, str_eq}
use tak_bench.Prelude.Time.{Duration, from_secs}
use tak_bench.Config.Types.{RoutingAssertion}
use tak_bench.Scenarios.Outcome.{AssertionResult, received, not_received}
use tak_bench.Scenarios.Ledger.{CorrelationLedger, Uuid, Sent, lookup_sent, lookup_seen}

-- `let correlations = ..`
unfoldable pub correlations : Str → List Sent → List Uuid
correlations sender [] = []
correlations sender (s ∷ rest) =
    let later = correlations sender rest in if str_eq s.sender sender then s.id ∷ later else later

-- Was the event seen by the receiver, within the timeout from when it was sent? A time before that
-- counts as zero.
unfoldable pub seen_in_time : CorrelationLedger → Duration → Str → Uuid → Bool
seen_in_time state timeout receiver id =
    is_some_and (lookup_seen receiver id state.seen)
      λ seen. is_some_and (lookup_sent id state.sent) λ sent. leb (seen.at - sent.at) timeout

unfoldable pub seen_ever : CorrelationLedger → Str → Uuid → Bool
seen_ever state receiver id = is_some (lookup_seen receiver id state.seen)

unfoldable pub expected_result : CorrelationLedger → RoutingAssertion → Str → AssertionResult
expected_result state assertion receiver =
    let sent = correlations assertion.sender state.sent in
    let timeout = unwrap_or assertion.timeout (from_secs 30) in
    let count = length (select (λ id. seen_in_time state timeout receiver id) sent) in
    record {
      sender = assertion.sender;
      receiver = receiver;
      expectation = received;
      passed = not (is_empty sent) && count == length sent;
      received_count = count;
    }

unfoldable pub forbidden_result : CorrelationLedger → RoutingAssertion → Str → AssertionResult
forbidden_result state assertion receiver =
    let sent = correlations assertion.sender state.sent in
    let count = length (select (λ id. seen_ever state receiver id) sent) in
    record {
      sender = assertion.sender;
      receiver = receiver;
      expectation = not_received;
      passed = not (is_empty sent) && count == 0;
      received_count = count;
    }

unfoldable pub assertion_results : CorrelationLedger → RoutingAssertion → List AssertionResult
assertion_results state assertion =
    map (λ receiver. expected_result state assertion receiver) assertion.receivers
    ++ map (λ receiver. forbidden_result state assertion receiver) assertion.forbidden_receivers

unfoldable pub evaluate_routing : List RoutingAssertion → CorrelationLedger → List AssertionResult
evaluate_routing [] state = []
evaluate_routing (assertion ∷ rest) state =
    assertion_results state assertion ++ evaluate_routing rest state
