-- ===== src/Scenarios/Workload/Failures.antt =====
-- src/scenarios.rs: the failures of a run name those who failed.
use tak_bench.Prelude.{
  Option, none, some, true, false, ◌⊎◌, ◌≢◌, is_empty, is_empty-nil, ℕ, ◌≡◌, ◌↔◌, refl, sym, ◌∙◌,
  ap, List, [], ◌∷◌, ◌++◌, map, if◌then◌else◌, ok, err, inl, inr, Bool-cases, >>=-eq-ok,
  ok-injective, arith,
}
use mathlib.Core.List.{map-append}
use tak_bench.Prelude.Bytes.{Str, bytes}
use tak_bench.Prelude.Float.{Float}
use tak_bench.Prelude.Time.{Duration}
use tak_bench.Config.Types.{AppConfig, ParticipantConfig}
use tak_bench.Report.Types.{ParticipantFailure}
use tak_bench.Safety.Errors.{SafetyOptions}
use tak_bench.Scenarios.Errors.{AnyError, classify_runtime, classify_participant_error}
use tak_bench.Scenarios.Outcome.{ScenarioOutcome}
use tak_bench.Scenarios.Readiness
use tak_bench.Scenarios.Readiness.{
  ReadinessBarrier, BarrierResult, is_ready, timed_out, was_stopped, missing, wait,
}
use tak_bench.Scenarios.Start.{started}
use tak_bench.Scenarios.Workload.{
  TaskEnd, returned, panicked, failure_of_task, join_tasks, readiness_failure, Met, mark_all,
  is_timed_out, barrier_of, gives_up, still_missing, readiness_failures, outcome_of,
  run_fixed_positions_with_lifecycle,
}

classify_runtime-participant : (id : Str) (e : AnyError) → (classify_runtime id e).participant ≡ id
unfolding classify_runtime
classify_runtime-participant id e = ground arith

classify-participant :
    (id : Str) (e : AnyError) → (classify_participant_error id e).participant ≡ id
unfolding classify_participant_error
classify-participant id e = ground (arith, classify_runtime-participant id e)

map-nil : {A B : Type 0} (g : A → B) (xs : List A) → map g xs ≡ [] → xs ≡ []
map-nil g [] h = refl
map-nil g (x ∷ xs) h = cc

-- The participants whose tasks failed, in the order in which these ended
unfoldable pub failed_tasks : List TaskEnd → List Str
failed_tasks [] = []
failed_tasks (returned id (ok _) ∷ rest) = failed_tasks rest
failed_tasks (returned id (err e) ∷ rest) = id ∷ failed_tasks rest
failed_tasks (panicked ∷ rest) = bytes "unknown" ∷ failed_tasks rest

-- Who a failure is about
abbrev pub names : List ParticipantFailure → List Str
names failures = map (λ failure. failure.participant) failures

join_tasks-names : (ends : List TaskEnd) → names (join_tasks ends) ≡ failed_tasks ends
unfolding join_tasks failure_of_task failed_tasks
join_tasks-names [] = refl
join_tasks-names (returned id (ok _) ∷ rest) = join_tasks-names rest
join_tasks-names (returned id (err e) ∷ rest) =
    ap (λ first. first ∷ names (join_tasks rest)) (classify-participant id e)
    ∙ ap (λ later. id ∷ later) (join_tasks-names rest)
join_tasks-names (panicked ∷ rest) = ap (λ later. bytes "unknown" ∷ later) (join_tasks-names rest)

readiness-names : (missing : List Str) → names (map readiness_failure missing) ≡ missing
unfolding readiness_failure
readiness-names [] = refl
readiness-names (name ∷ rest) = ap (λ later. name ∷ later) (readiness-names rest)

some-injective : {A : Type 0} {a b : A} → some a ≡ some b → a ≡ b
some-injective h = cc

results_differ : ¬ (is_ready ≡ timed_out) × ¬ (was_stopped ≡ timed_out)
results_differ = (λ e. cc, λ e. cc)

timed_out-cases :
    (result : Option BarrierResult)
    → ((result ≡ some timed_out) × (is_timed_out result ≡ true))
      ⊎ ((result ≢ some timed_out) × (is_timed_out result ≡ false))
timed_out-cases none = inr (λ e. cc, refl)
timed_out-cases (some timed_out) = inl (refl, refl)
timed_out-cases (some is_ready) = inr (λ e. results_differ.0 (some-injective e), refl)
timed_out-cases (some was_stopped) = inr (λ e. results_differ.1 (some-injective e), refl)

module _ (f : Float) (shuffle : ℕ → List Duration → List Duration)
    (sort : List Str → List Str) where
  open f use {F64}

  -- How the wait for the barrier ends, and the barrier then
  abbrev pub waited : AppConfig F64 → Met → Option BarrierResult × ReadinessBarrier
  waited config met =
      wait met.waits (Readiness.new config.synchronization config.run.duration met.started_at)

  -- Who the barrier names: nobody where the run waits for nobody or the wait does not time out, or else
  -- those who are still missing after the marks that follow the wait
  pub data IsGivenUp (config : AppConfig F64) (met : Met) : List Str → Type 0 where
    waits_for_nobody : config.synchronization.wait_for_ready ≡ [] → IsGivenUp config met []
    in_time : (waited config met).0 ≢ some timed_out → IsGivenUp config met []
    in_vain :
        config.synchronization.wait_for_ready ≢ []
        → (waited config met).0 ≡ some timed_out
        → IsGivenUp config met (missing sort (mark_all met.marked_after (waited config met).1))

  -- The same, computed
  abbrev given_up : AppConfig F64 → Met → List Str
  given_up config met =
      if gives_up f shuffle sort config met then still_missing f shuffle sort config met else []

  given_up-IsGivenUp :
      (config : AppConfig F64) (met : Met) → IsGivenUp config met (given_up config met)
  unfolding gives_up still_missing barrier_of
  given_up-IsGivenUp config met =
      elim (Bool-cases (is_empty config.synchronization.wait_for_ready)) [
        | inl nobody ↦
            rw nobody (waits_for_nobody (is_empty-nil config.synchronization.wait_for_ready nobody))
        | inr somebody ↦ elim (timed_out-cases (waited config met).0) [
          | inl (late, test) ↦ rw (somebody, test) (in_vain (λ e. ground (arith, somebody, e)) late)
          | inr (ready, test) ↦ rw (somebody, test) (in_time ready)
        ]
      ]

  readiness_failures-names :
      (config : AppConfig F64) (met : Met)
      → names (readiness_failures f shuffle sort config met) ≡ given_up config met
  unfolding readiness_failures
  readiness_failures-names config met = elim (Bool-cases (gives_up f shuffle sort config met)) [
    | inl late ↦ rw late (readiness-names (still_missing f shuffle sort config met))
    | inr ready ↦ rw ready refl
  ]

  -- A run of the workload that started names, in its failures, first the participants that its barrier
  -- names, then, in the order in which their tasks ended, each participant whose task returned an error;
  -- a task that panicked is named `unknown` in its place. The barrier names nobody where the run waits for
  -- nobody or the wait does not time out, or else those who are missing after the marks that follow it.
  -- So the run reports no failure exactly where the barrier names nobody and every task returned without
  -- error.
  pub failures-named :
      (config : AppConfig F64) (options : SafetyOptions)
      (meet : List (ParticipantConfig × Duration) → Met) (outcome : ScenarioOutcome)
      → run_fixed_positions_with_lifecycle f shuffle sort config options meet ≡ ok outcome
      → (tasks : List (ParticipantConfig × Duration)) × (started f shuffle config options
          ≡ ok tasks)
        × (by_barrier : List Str) × IsGivenUp config (meet tasks) by_barrier
        × (names outcome.participant_failures ≡ by_barrier ++ failed_tasks (meet tasks).ends)
        × ((outcome.participant_failures ≡ [])
            ↔ (by_barrier ++ failed_tasks (meet tasks).ends ≡ []))
  unfolding run_fixed_positions_with_lifecycle outcome_of
  failures-named config options meet outcome h =
      let (tasks, begun, made) = >>=-eq-ok (started f shuffle config options) _ h in
      let met = meet tasks in
      let all_named : names (outcome_of f shuffle sort config met).participant_failures
          ≡ given_up config met ++ failed_tasks met.ends =
        map-append (λ failure. failure.participant) (readiness_failures f shuffle sort config met)
          (join_tasks met.ends)
        ∙ ap (λ first. first ++ names (join_tasks met.ends)) (readiness_failures-names config met)
        ∙ ap (λ later. given_up config met ++ later) (join_tasks-names met.ends) in
      let same : outcome_of f shuffle sort config met ≡ outcome = ok-injective made in
      let named : names outcome.participant_failures
          ≡ given_up config met ++ failed_tasks met.ends =
        ap (λ o. names o.participant_failures) (sym same) ∙ all_named in
      (
        tasks,
        begun,
        given_up config met,
        given_up-IsGivenUp config met,
        named,
        (
          λ none_failed. sym named ∙ ap names none_failed,
          λ nobody.
              map-nil (λ failure. failure.participant) outcome.participant_failures
                (named ∙ nobody),
        ),
      )
