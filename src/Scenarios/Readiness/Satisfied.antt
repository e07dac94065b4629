-- ===== src/Scenarios/Readiness/Satisfied.antt =====
-- src/scenarios.rs: a readiness barrier that is satisfied stays so, and opens only where it is.
use tak_bench.Prelude.{
  ◌≡◌, refl, inl, inr, Bool, true, false, ◌&&◌, Option, none, some, List, [], ◌∷◌, all,
  if◌then◌else◌, Bool-cases, arith,
}
use tak_bench.Prelude.Bytes.{Str}
use tak_bench.Scenarios.Readiness.{
  ReadinessBarrier, BarrierResult, is_ready, timed_out, was_stopped, BarrierEvent, marked,
  stop_changed, deadline_reached, contains_name, insert_name, mark_ready, is_satisfied, wait,
  wait_from,
}

-- A barrier that is satisfied stays so.
insert_name-grows :
    (participant name : Str) (names : List Str)
    → contains_name names name ≡ true
    → contains_name (insert_name participant names) name ≡ true
insert_name-grows participant name names known = ground (arith, known)

all-grows :
    (test more : Str → Bool) (names : List Str)
    → ((name : Str) → test name ≡ true → more name ≡ true)
    → all test names ≡ true
    → all more names ≡ true
all-grows test more [] grows h = refl
all-grows test more (name ∷ names) grows h =
    ground (arith, h, grows name, all-grows test more names grows)

pub mark_ready-satisfied :
    (participant : Str) (b : ReadinessBarrier)
    → is_satisfied b ≡ true
    → is_satisfied (mark_ready participant b) ≡ true
unfolding is_satisfied mark_ready
mark_ready-satisfied participant b h = elim (Bool-cases (contains_name b.required participant)) [
  | inl named ↦ rw named (
      all-grows (contains_name b.ready) (contains_name (insert_name participant b.ready)) b.required
        (λ name. insert_name-grows participant name b.ready) h)
  | inr other ↦ rw other h
]

-- The answer and the barrier of a wait: satisfied if it was so before, or if the answer is ready
abbrev pub StaysSatisfied : ReadinessBarrier → Option BarrierResult × ReadinessBarrier → Type 0
StaysSatisfied b r =
    (is_satisfied b ≡ true → is_satisfied r.1 ≡ true)
    × (r.0 ≡ some is_ready → is_satisfied r.1 ≡ true)

none-ready : {A : Type 0} {a : A} → ¬ (none ≡ some a)
none-ready h = cc

other_answers : ¬ (some was_stopped ≡ some is_ready) × ¬ (some timed_out ≡ some is_ready)
other_answers = (λ h. cc, λ h. cc)

choice-StaysSatisfied :
    (b b' : ReadinessBarrier) (test : Bool) (y : Option BarrierResult × ReadinessBarrier)
    → (is_satisfied b ≡ true → is_satisfied b' ≡ true)
    → (test ≡ true → is_satisfied b' ≡ true)
    → StaysSatisfied b' y
    → StaysSatisfied b (if test then (some is_ready, b') else y)
choice-StaysSatisfied b b' true y keeps now later = (keeps, λ h. now refl)
choice-StaysSatisfied b b' false y keeps now later = (λ h. later.0 (keeps h), later.1)

pub wait_from-StaysSatisfied :
    (events : List BarrierEvent) (b : ReadinessBarrier) → StaysSatisfied b (wait_from events b)
unfolding wait_from
wait_from-StaysSatisfied [] b = (λ h. h, λ h. absurd (none-ready h))
wait_from-StaysSatisfied (marked participant wakes ∷ rest) b =
    let b' = mark_ready participant b in
    choice-StaysSatisfied b b' (wakes && contains_name b.required participant && is_satisfied b')
      (wait_from rest b') (mark_ready-satisfied participant b) (λ h. ground (arith, h))
      (wait_from-StaysSatisfied rest b')
wait_from-StaysSatisfied (stop_changed true ∷ rest) b = (λ h. h, λ h. absurd (other_answers.0 h))
wait_from-StaysSatisfied (stop_changed false ∷ rest) b =
    choice-StaysSatisfied b b (is_satisfied b) (wait_from rest b) (λ h. h) (λ h. h)
      (wait_from-StaysSatisfied rest b)
wait_from-StaysSatisfied (deadline_reached ∷ rest) b = (λ h. h, λ h. absurd (other_answers.1 h))

pub wait-StaysSatisfied :
    (events : List BarrierEvent) (b : ReadinessBarrier) → StaysSatisfied b (wait events b)
unfolding wait
wait-StaysSatisfied events b =
    choice-StaysSatisfied b b (is_satisfied b) (wait_from events b) (λ h. h) (λ h. h)
      (wait_from-StaysSatisfied events b)
