-- ===== src/Scenarios/Readiness/Tests.antt =====
-- src/scenarios.rs: the readiness barrier at concrete events.
use tak_bench.Prelude.{◌≡◌, ◌≢◌, refl, true, false, some, List, [], ◌∷◌}
use tak_bench.Prelude.Bytes.{bytes, str_eq}
use tak_bench.Prelude.Time.{from_secs}
use tak_bench.Scenarios.Readiness.{
  ReadinessBarrier, is_ready, timed_out, BarrierEvent, marked, deadline_reached, mark_ready,
  is_satisfied, missing, wait_from, wait,
}
use tak_bench.Scenarios.Readiness.Waiting.{wait-verdict}

abbrev for_b1 : ReadinessBarrier
for_b1 = record { required = bytes "b1" ∷ []; ready = []; deadline = from_secs 5 }

abbrev arrives : List BarrierEvent
arrives = marked (bytes "a1") true ∷ marked (bytes "b1") true ∷ deadline_reached ∷ []

opens_when_marked : (wait arrives for_b1).0 ≡ some is_ready
unfolding wait wait_from mark_ready is_satisfied str_eq
opens_when_marked = refl

-- A mark between the test and the call of `notified()` is not noticed: the barrier times out with
-- nobody missing.
unnoticed_mark :
    let r = wait (marked (bytes "b1") false ∷ deadline_reached ∷ []) for_b1 in
    (r.0 ≡ some timed_out) × (missing (λ names. names) r.1 ≡ [])
unfolding wait wait_from mark_ready is_satisfied missing str_eq
unnoticed_mark = (refl, refl)

wait-verdict_example :
    let r = wait arrives for_b1 in
    (r.0 ≡ some is_ready → missing (λ names. names) r.1 ≡ [])
    × (r.0 ≡ some timed_out → missing (λ names. names) r.1 ≢ [])
wait-verdict_example =
    wait-verdict (λ names. names) (λ names. refl) arrives for_b1 (refl, (refl, (tt, tt)))
