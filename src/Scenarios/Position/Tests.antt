-- ===== src/Scenarios/Position/Tests.antt =====
-- src/scenarios.rs: the time at which a position grows stale, at concrete intervals.
use tak_bench.Prelude.{◌≡◌, ◌^◌, refl}
use tak_bench.Prelude.Time.{from_secs}
use tak_bench.Scenarios.Position.{stale_seconds}

two_intervals : stale_seconds (from_secs 10) ≡ 20
unfolding stale_seconds
two_intervals = refl

-- An interval that is no `i64` counts as thirty seconds.
no_i64 : stale_seconds (from_secs (2 ^ 63)) ≡ 60
unfolding stale_seconds
no_i64 = refl
