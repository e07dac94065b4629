-- ===== src/Scenarios/Routing/Verdicts.antt =====
-- src/scenarios.rs: what a passed routing assertion says of the events that were sent and seen.
use tak_bench.Prelude.{
  ◌≤◌, ◌+◌, ◌⊎◌, some, none, Any, ◌≡◌, ◌≢◌, ◌↔◌, true, false, [], All, arith, unwrap_or,
}
use tak_bench.Prelude.Bytes.{Str}
use tak_bench.Prelude.Time.{Duration, from_secs}
use tak_bench.Config.Types.{RoutingAssertion}
use tak_bench.Scenarios.Ledger.{CorrelationLedger, Uuid, Sent, Seen, lookup_sent, lookup_seen}
use tak_bench.Scenarios.Routing.{
  correlations, seen_in_time, seen_ever, expected_result, forbidden_result,
}
use tak_bench.Scenarios.Routing.Selected.{
  select-All, All-select, select_none, none_select, nonempty, All-map, All-correlations,
  correlations-All, correlations-Any, in_time_iff, none_iff,
}

module _ (state : CorrelationLedger) (assertion : RoutingAssertion) (receiver : Str) where
  abbrev given_time : Duration
  given_time = unwrap_or assertion.timeout (from_secs 30)

  -- The receiver has seen the event, at most the assertion's timeout, or thirty seconds, after it was
  -- sent. An instant before that of sending counts as that one.
  abbrev pub IsSeenInTime : Uuid → Type 0
  IsSeenInTime id =
      (seen : Seen) × (sent : Sent) × (lookup_seen receiver id state.seen ≡ some seen)
      × (lookup_sent id state.sent ≡ some sent)
      × (seen.at ≤ sent.at + given_time)

  seen_in_time_iff :
      (id : Uuid) → (seen_in_time state given_time receiver id ≡ true) ↔ IsSeenInTime id
  unfolding seen_in_time
  seen_in_time_iff id =
      in_time_iff given_time (lookup_seen receiver id state.seen) (lookup_sent id state.sent)

  seen_ever_iff :
      (id : Uuid)
      → (seen_ever state receiver id ≡ false) ↔ (lookup_seen receiver id state.seen ≡ none)
  unfolding seen_ever
  seen_ever_iff id = none_iff (lookup_seen receiver id state.seen)

  expected_tests_iff : ((expected_result state assertion receiver).passed ≡ true) ↔ (
      (correlations assertion.sender state.sent ≢ [])
      × All
          (λ id. seen_in_time state given_time receiver id ≡ true)
          (correlations assertion.sender state.sent))
  unfolding expected_result
  expected_tests_iff =
      let sent = correlations assertion.sender state.sent in
      let test = λ (id : Uuid). seen_in_time state given_time receiver id in
      (
        λ h. ((nonempty sent).0 (ground (arith, h)), select-All test sent (ground (arith, h))),
        λ (some_sent, seen). ground (arith, (nonempty sent).1 some_sent, All-select test sent seen),
      )

  forbidden_tests_iff : ((forbidden_result state assertion receiver).passed ≡ true) ↔ (
      (correlations assertion.sender state.sent ≢ [])
      × All (λ id. seen_ever state receiver id ≡ false) (correlations assertion.sender state.sent))
  unfolding forbidden_result
  forbidden_tests_iff =
      let sent = correlations assertion.sender state.sent in
      let test = λ (id : Uuid). seen_ever state receiver id in
      (
        λ h. ((nonempty sent).0 (ground (arith, h)), select_none test sent (ground (arith, h))),
        λ (some_sent, seen).
            ground (arith, (nonempty sent).1 some_sent, none_select test sent seen),
      )

  -- A positive assertion passes exactly when its sender sent something and each event of the ledger that
  -- its sender sent has been seen by the receiver, at most the assertion's timeout, or thirty seconds
  -- where it has none, after it was sent.
  pub expected_passed_iff : ((expected_result state assertion receiver).passed ≡ true) ↔ (
      Any (λ s. s.sender ≡ assertion.sender) state.sent
      × All (λ s. ¬ (s.sender ≡ assertion.sender) ⊎ IsSeenInTime s.id) state.sent)
  expected_passed_iff =
      let something = correlations-Any assertion.sender state.sent in
      (
        λ h.
            let (sent, all_seen) = expected_tests_iff.0 h in
            (
              something.0 sent,
              All-correlations IsSeenInTime assertion.sender state.sent (
                  All-map (λ id. (seen_in_time_iff id).0) (correlations assertion.sender state.sent)
                    all_seen),
            ),
        λ (sent, all_seen). expected_tests_iff.1 (
          something.1 sent,
          All-map (λ id. (seen_in_time_iff id).1) (correlations assertion.sender state.sent)
              (correlations-All IsSeenInTime assertion.sender state.sent all_seen),
        ),
      )

  -- A negative assertion passes exactly when its sender sent something and the receiver has seen no event
  -- of the ledger that its sender sent.
  pub forbidden_passed_iff : ((forbidden_result state assertion receiver).passed ≡ true) ↔ (
      Any (λ s. s.sender ≡ assertion.sender) state.sent
      × All
          (λ s. ¬ (s.sender ≡ assertion.sender) ⊎ (lookup_seen receiver s.id state.seen ≡ none))
          state.sent)
  forbidden_passed_iff =
      let something = correlations-Any assertion.sender state.sent in
      let unseen = λ (id : Uuid). lookup_seen receiver id state.seen ≡ none in
      (
        λ h.
            let (sent, none_seen) = forbidden_tests_iff.0 h in
            (
              something.0 sent,
              All-correlations unseen assertion.sender state.sent (
                  All-map (λ id. (seen_ever_iff id).0) (correlations assertion.sender state.sent)
                    none_seen),
            ),
        λ (sent, none_seen). forbidden_tests_iff.1 (
          something.1 sent,
          All-map (λ id. (seen_ever_iff id).1) (correlations assertion.sender state.sent)
              (correlations-All unseen assertion.sender state.sent none_seen),
        ),
      )
