-- ===== src/Scenarios/Readiness.antt =====
-- src/scenarios.rs: ReadinessBarrier. A hash set is a list without repetitions; the names of missing
-- participants are sorted by the standard library, which is a parameter.
pub mod Waiting
pub mod Satisfied
mod Tests
use tak_bench.Prelude.{
  ℕ, ◌+◌, Bool, true, false, ◌&&◌, not, Option, none, some, List, [], ◌∷◌, any, all, select,
  if◌then◌else◌, unwrap_or,
}
use tak_bench.Prelude.Bytes.{Str, str_eq}
use tak_bench.Prelude.Time.{Duration}
use tak_bench.Config.Types.{SynchronizationConfig}
use tak_bench.Scenarios.Ledger.{Instant}

pub record ReadinessBarrier : Type 0 where
  pub required : List Str
  pub ready : List Str
  pub deadline : Instant

pub data BarrierResult : Type 0 where
  is_ready timed_out was_stopped : BarrierResult

abbrev pub contains_name : List Str → Str → Bool
contains_name names name = any (λ other. str_eq other name) names

-- `HashSet::insert`
abbrev pub insert_name : Str → List Str → List Str
insert_name name names = if contains_name names name then names else name ∷ names

unfoldable pub collect_names : List Str → List Str
collect_names [] = []
collect_names (name ∷ rest) = insert_name name (collect_names rest)

unfoldable pub new : SynchronizationConfig → Duration → Instant → ReadinessBarrier
new synchronization duration started = record {
  required = collect_names synchronization.wait_for_ready;
  ready = [];
  deadline = started + unwrap_or synchronization.timeout duration;
}

unfoldable pub mark_ready : Str → ReadinessBarrier → ReadinessBarrier
mark_ready participant b =
    if contains_name b.required participant
    then record b { ready = insert_name participant b.ready }
    else b

-- `self.required.is_subset(..)`
unfoldable pub is_satisfied : ReadinessBarrier → Bool
is_satisfied b = all (λ name. contains_name b.ready name) b.required

unfoldable pub missing : (List Str → List Str) → ReadinessBarrier → List Str
missing sort b = sort (select (λ name. not (contains_name b.ready name)) b.required)

-- What happens while `wait` waits: a participant is marked, and whether that wakes the waiter, which it
-- does unless it falls between the test of the condition and the call of `notified()`; the stop flag
-- changes, `true` also where its sender is gone; the deadline passes.
pub data BarrierEvent : Type 0 where
  marked : Str → Bool → BarrierEvent
  stop_changed : Bool → BarrierEvent
  deadline_reached : BarrierEvent

-- The `select!`, and the test at the head of the loop after a branch that does not return; `none` where
-- it still waits
unfoldable pub wait_from :
    List BarrierEvent → ReadinessBarrier → Option BarrierResult × ReadinessBarrier
wait_from [] b = (none, b)
wait_from (marked participant wakes ∷ rest) b =
    let b' = mark_ready participant b in
    let later = wait_from rest b' in
    if wakes && contains_name b.required participant && is_satisfied b'
    then (some is_ready, b')
    else later
wait_from (stop_changed true ∷ rest) b = (some was_stopped, b)
wait_from (stop_changed false ∷ rest) b =
    let later = wait_from rest b in if is_satisfied b then (some is_ready, b) else later
wait_from (deadline_reached ∷ rest) b = (some timed_out, b)

unfoldable pub wait : List BarrierEvent → ReadinessBarrier → Option BarrierResult × ReadinessBarrier
wait events b = if is_satisfied b then (some is_ready, b) else wait_from events b
