-- ===== src/Scenarios/Stop.antt =====
-- src/scenarios.rs: wait_for_stop and wait_for_delay.
use tak_bench.Prelude.{Bool, true, false, ◌||◌, Option, none, some, List, [], ◌∷◌, if◌then◌else◌}

-- The flag's changes while it is waited for: its new value, or `none` where its sender is gone.
-- Whether the wait has returned
unfoldable pub wait_for_stop : Bool → List (Option Bool) → Bool
wait_for_stop true changes = true
wait_for_stop false [] = false
wait_for_stop false (none ∷ rest) = true
wait_for_stop false (some raised ∷ rest) = wait_for_stop raised rest

-- What the `select!` of wait_for_delay sees first
pub data DelayEnd : Type 0 where
  slept stop_came deadline_came : DelayEnd

abbrev pub is_slept : DelayEnd → Bool
is_slept slept = true
is_slept other = false

-- `stopped` is the stop flag and `late` whether the deadline has passed when the wait begins.
unfoldable pub wait_for_delay : Bool → Bool → DelayEnd → Bool
wait_for_delay stopped late delay_end = if stopped || late then false else is_slept delay_end
