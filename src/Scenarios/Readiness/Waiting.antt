-- ===== src/Scenarios/Readiness/Waiting.antt =====
-- src/scenarios.rs: what the readiness barrier has seen when it opens or times out.
use tak_bench.Prelude.{
  ◌≡◌, ◌≢◌, refl, ap, sym, ◌∙◌, Bool, true, false, ◌&&◌, not, Option, none, some, List, [], ◌∷◌,
  all, select, length, if◌then◌else◌, All, arith, inl, inr, Bool-cases,
}
use tak_bench.Prelude.Bytes.{Str}
use tak_bench.Scenarios.Readiness.{
  ReadinessBarrier, BarrierResult, is_ready, timed_out, was_stopped, BarrierEvent, marked,
  stop_changed, deadline_reached, contains_name, mark_ready, is_satisfied, missing, wait_from, wait,
}

-- A mark wakes the waiter.
abbrev pub Wakes : BarrierEvent → Type 0
Wakes (marked participant wakes) = wakes ≡ true
Wakes (stop_changed raised) = Unit
Wakes deadline_reached = Unit

-- A barrier that opened is satisfied, and one that timed out is not.
abbrev pub IsSound : Option BarrierResult × ReadinessBarrier → Type 0
IsSound (none, b) = Unit
IsSound (some is_ready, b) = is_satisfied b ≡ true
IsSound (some timed_out, b) = is_satisfied b ≡ false
IsSound (some was_stopped, b) = Unit

mark_ready-other :
    (participant : Str) (b : ReadinessBarrier)
    → contains_name b.required participant ≡ false
    → mark_ready participant b ≡ b
unfolding mark_ready
mark_ready-other participant b h = rw h refl

choice-IsSound :
    (test : Bool) (x y : Option BarrierResult × ReadinessBarrier)
    → (test ≡ true → IsSound x)
    → (test ≡ false → IsSound y)
    → IsSound (if test then x else y)
choice-IsSound true x y hx hy = hx refl
choice-IsSound false x y hx hy = hy refl

still_pending :
    (participant : Str) (wakes : Bool) (b : ReadinessBarrier)
    → wakes ≡ true
    → is_satisfied b ≡ false
    → (wakes && contains_name b.required participant && is_satisfied (mark_ready participant b))
      ≡ false
    → is_satisfied (mark_ready participant b) ≡ false
still_pending participant wakes b woken pending h =
    elim (Bool-cases (contains_name b.required participant)) [
      | inl named ↦ ground (arith, woken, named, h)
      | inr other ↦ rw (mark_ready-other participant b other) pending
    ]

wait_from-IsSound :
    (events : List BarrierEvent) (b : ReadinessBarrier)
    → All Wakes events
    → is_satisfied b ≡ false
    → IsSound (wait_from events b)
unfolding wait_from
wait_from-IsSound [] b woken pending = tt
wait_from-IsSound (marked participant wakes ∷ rest) b woken pending =
    let b' = mark_ready participant b in
    let unready = still_pending participant wakes b woken.0 pending in
    choice-IsSound (wakes && contains_name b.required participant && is_satisfied b')
      (some is_ready, b') (wait_from rest b') (λ h. ground (arith, h))
      (λ h. wait_from-IsSound rest b' woken.1 (unready h))
wait_from-IsSound (stop_changed true ∷ rest) b woken pending = tt
wait_from-IsSound (stop_changed false ∷ rest) b woken pending =
    choice-IsSound (is_satisfied b) (some is_ready, b) (wait_from rest b) (λ h. h)
      (λ h. wait_from-IsSound rest b woken.1 h)
wait_from-IsSound (deadline_reached ∷ rest) b woken pending = pending

wait-IsSound :
    (events : List BarrierEvent) (b : ReadinessBarrier) → All Wakes events → IsSound (wait events b)
unfolding wait
wait-IsSound events b woken =
    choice-IsSound (is_satisfied b) (some is_ready, b) (wait_from events b) (λ h. h)
      (λ h. wait_from-IsSound events b woken h)

none-some : {r : BarrierResult} → ¬ (none ≡ some r)
none-some h = cc

results_differ : ¬ (some is_ready ≡ some timed_out) × ¬ (some timed_out ≡ some is_ready)
results_differ = (λ h. cc, λ h. cc)

stopped_differs : ¬ (some was_stopped ≡ some is_ready) × ¬ (some was_stopped ≡ some timed_out)
stopped_differs = (λ h. cc, λ h. cc)

true-false : {b : Bool} → b ≡ true → b ≡ false → ⊥
true-false h h' = cc

all-select :
    (test : Str → Bool) (names : List Str)
    → all test names ≡ true
    → select (λ name. not (test name)) names ≡ []
all-select test [] h = refl
all-select test (name ∷ names) h = ground (arith, h, all-select test names)

select-all :
    (test : Str → Bool) (names : List Str)
    → select (λ name. not (test name)) names ≡ []
    → all test names ≡ true
select-all test [] h = refl
select-all test (name ∷ names) h = ground (arith, h, select-all test names)

length-nil : (names : List Str) → length names ≡ 0 → names ≡ []
length-nil [] h = refl
length-nil (name ∷ names) h = absurd (omega (arith, h))

module _ (sort : List Str → List Str)
    (keeps : (names : List Str) → length (sort names) ≡ length names) where
  satisfied-missing : (b : ReadinessBarrier) → is_satisfied b ≡ true → missing sort b ≡ []
  unfolding is_satisfied missing
  satisfied-missing b h =
      length-nil (missing sort b)
        (keeps _ ∙ ap length (all-select (contains_name b.ready) b.required h))

  missing-satisfied : (b : ReadinessBarrier) → missing sort b ≡ [] → is_satisfied b ≡ true
  unfolding is_satisfied missing
  missing-satisfied b h =
      select-all (contains_name b.ready) b.required (length-nil _ (sym (keeps _) ∙ ap length h))

  sound-verdict :
      (r : Option BarrierResult × ReadinessBarrier)
      → IsSound r
      → (r.0 ≡ some is_ready → missing sort r.1 ≡ [])
        × (r.0 ≡ some timed_out → missing sort r.1 ≢ [])
  sound-verdict (none, b) sound = (λ h. absurd (none-some h), λ h. absurd (none-some h))
  sound-verdict (some is_ready, b) sound =
      (λ h. satisfied-missing b sound, λ h. absurd (results_differ.0 h))
  sound-verdict (some timed_out, b) sound =
      (λ h. absurd (results_differ.1 h), λ h e. absurd (true-false (missing-satisfied b e) sound))
  sound-verdict (some was_stopped, b) sound =
      (λ h. absurd (stopped_differs.0 h), λ h. absurd (stopped_differs.1 h))

  -- Where a mark that comes while the barrier waits wakes it, and sorting keeps the length of a list, a
  -- barrier that opens has no participant missing, and one that times out names at least one.
  pub wait-verdict :
      (events : List BarrierEvent) (b : ReadinessBarrier)
      → All Wakes events
      → let r = wait events b in
        (r.0 ≡ some is_ready → missing sort r.1 ≡ [])
        × (r.0 ≡ some timed_out → missing sort r.1 ≢ [])
  wait-verdict events b woken = sound-verdict (wait events b) (wait-IsSound events b woken)
