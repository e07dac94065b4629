-- ===== src/Prelude/Time.antt =====
-- `std::time::Duration` as a number of nanoseconds, at most `u64::MAX` seconds and 999999999 ns.
use Prim.Native.Nat.{ℕ, ◌+◌, ◌*◌, ◌/◌, min}
use mathlib.Core.Bool.{Bool}
use tak_bench.Prelude.Tests.{◌==◌}

abbrev pub Duration : Type 0
Duration = ℕ

abbrev pub u64_max : ℕ
u64_max = 18446744073709551615

abbrev pub u32_max : ℕ
u32_max = 4294967295

-- `Duration::MAX`
abbrev pub max_duration : ℕ
max_duration = u64_max * 1000000000 + 999999999

abbrev pub from_secs : ℕ → Duration
from_secs s = s * 1000000000

abbrev pub from_millis : ℕ → Duration
from_millis ms = ms * 1000000

abbrev pub as_secs : Duration → ℕ
as_secs d = d / 1000000000

abbrev pub is_zero : Duration → Bool
is_zero d = d == 0

-- `Duration::saturating_mul`
abbrev pub saturating_mul : Duration → ℕ → Duration
saturating_mul d n = min (d * n) max_duration

-- `u64::saturating_mul` and `u64::saturating_add`
abbrev pub saturating_mul_u64 : ℕ → ℕ → ℕ
saturating_mul_u64 a b = min (a * b) u64_max

abbrev pub saturating_add_u64 : ℕ → ℕ → ℕ
saturating_add_u64 a b = min (a + b) u64_max

-- `fetch_add` on an `AtomicU64` wraps.
abbrev pub u64_mod : ℕ
u64_mod = 18446744073709551616
