-- ===== src/Scenarios/Timing/Tests.antt =====
-- src/scenarios.rs: the backoff at concrete bounds.
use tak_bench.Prelude.{◌≡◌, refl}
use tak_bench.Prelude.Float.{micros}
use tak_bench.Prelude.Time.{from_secs}
use tak_bench.Config.Defaults.{default_reconnect}
use tak_bench.Scenarios.Timing.{multiplier, base_delay, reconnect_delay}

third_backoff : base_delay default_reconnect 3 ≡ from_secs 1
unfolding base_delay multiplier
third_backoff = refl

-- The jitter is applied behind the bound, so a delay can be longer than the largest backoff.
jitter_passes_the_bound :
    reconnect_delay micros (λ low high. high) default_reconnect 9 ≡ from_secs 36
unfolding reconnect_delay base_delay multiplier
jitter_passes_the_bound = refl
