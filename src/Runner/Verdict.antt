-- ===== src/Runner/Verdict.antt =====
-- src/runner.rs: when a run has passed, and what an aborted run returns.
use tak_bench.Prelude.{
  true, false, ◌≡◌, ◌↔◌, refl, ◌∙◌, Option, none, some, List, [], ◌∷◌, ok, err, All, any, not,
  arith, inl, inr, Option-cases, is_err, is_some, ◌&&◌, is_empty-nil,
}
use tak_bench.Prelude.Bytes.{Str}
use tak_bench.Prelude.Float.{Float}
use tak_bench.Config.Types.{AppConfig, AbortConfig}
use tak_bench.Lifecycle.{CompletionStatus, run_completed}
use tak_bench.Metrics.{MetricsSnapshot}
use tak_bench.Report.Types.{RunStatus, passed, failed, aborted}
use tak_bench.Report.RunReport
use tak_bench.Report.RunReport.{abort_reason_of}
use tak_bench.Scenarios.Errors.{AnyError}
use tak_bench.Scenarios.Outcome.{AssertionResult, ScenarioOutcome}
use tak_bench.Thresholds.Evaluate.{ThresholdViolation, evaluate}
use tak_bench.Runner.{
  first_reason, is_passed, Outcome, assertions_of, participant_failures_of, assertions_failed,
  participants_failed, is_clean, stop_reason_of, status_of, failure_of, completion_of, RunExecution,
  has_passed, into_result, monitor, Observed, complete,
}

ok-injective : (a b : ScenarioOutcome) → let left : Outcome = ok a in left ≡ ok b → a ≡ b
ok-injective a b h = cc

err-ok : (a : ScenarioOutcome) (e : AnyError) → let left : Outcome = err e in ¬ (left ≡ ok a)
err-ok a e h = cc

some≢none : {A : Type 0} {a : A} → ¬ (some a ≡ none)
some≢none h = cc

passed-All_to :
    (assertions : List AssertionResult)
    → any (λ a. not a.passed) assertions ≡ false
    → All (λ a. a.passed ≡ true) assertions
passed-All_to [] h = tt
passed-All_to (a ∷ rest) h = (ground (arith, h), passed-All_to rest (ground (arith, h)))

passed-All_from :
    (assertions : List AssertionResult)
    → All (λ a. a.passed ≡ true) assertions
    → any (λ a. not a.passed) assertions ≡ false
passed-All_from [] h = refl
passed-All_from (a ∷ rest) h = ground (arith, h.0, passed-All_from rest h.1)

-- A workload that did what was asked of it: every assertion passed, and no participant failed.
pub record IsClean (outcome : Outcome) : Type 0 where
  pub result : ScenarioOutcome
  pub returned : outcome ≡ ok result
  pub asserted : All (λ a. a.passed ≡ true) result.assertions
  pub unfailed : result.participant_failures ≡ []

is_clean-IsClean : (outcome : Outcome) → is_clean outcome ≡ true → IsClean outcome
unfolding is_clean assertions_failed participants_failed assertions_of participant_failures_of
is_clean-IsClean (err e) h = cc
is_clean-IsClean (ok result) h = record {
  result = result;
  returned = refl;
  asserted = passed-All_to result.assertions (ground (arith, h));
  unfailed = is_empty-nil result.participant_failures (ground (arith, h));
}

IsClean-is_clean : (outcome : Outcome) → IsClean outcome → is_clean outcome ≡ true
unfolding is_clean assertions_failed participants_failed assertions_of participant_failures_of
IsClean-is_clean (err e) clean = absurd (err-ok clean.result e clean.returned)
IsClean-is_clean (ok result) clean =
    let same : result ≡ clean.result = ok-injective result clean.result clean.returned in
    let asserted = passed-All_from clean.result.assertions clean.asserted in
    rw (same, asserted, clean.unfailed) refl

-- The verdict on a threshold's reason and an outcome
verdict_iff :
    (threshold : Option Str) (outcome : Outcome)
    → ((not (is_some (failure_of outcome)) && is_passed (status_of threshold outcome)) ≡ true)
      ↔ ((threshold ≡ none) × (is_clean outcome ≡ true))
unfolding failure_of status_of is_clean
verdict_iff (some reason) (ok result) = (λ h. ground arith, λ h. absurd (some≢none h.0))
verdict_iff (some reason) (err e) = (λ h. ground arith, λ h. absurd (some≢none h.0))
verdict_iff none (ok result) = (λ h. ground arith, λ h. ground arith)
verdict_iff none (err e) = (λ h. ground arith, λ h. ground arith)

clean_failure : (outcome : Outcome) → is_clean outcome ≡ true → failure_of outcome ≡ none
unfolding failure_of is_clean
clean_failure (ok result) h = ground arith
clean_failure (err e) h = ground arith

abort_reason_iff :
    (status : RunStatus) (reason : Str) → (abort_reason_of status reason ≡ none) ↔ (status ≡ passed)
abort_reason_iff passed reason = (λ h. refl, λ h. refl)
abort_reason_iff failed reason = (λ h. absurd (some≢none h), λ h. cc)
abort_reason_iff aborted reason = (λ h. absurd (some≢none h), λ h. cc)

into_result-is_err :
    {F64 Time : Type 0} (run : RunExecution F64 Time)
    → is_err (into_result run) ≡ is_some run.failure
unfolding into_result
into_result-is_err run = elim (Option-cases run.failure) [
  | inl clean ↦ rw clean refl
  | inr broken ↦ rw broken.1 refl
]

failed_failure :
    (threshold : Option Str) (outcome : Outcome)
    → status_of threshold outcome ≡ failed
    → is_some (failure_of outcome) ≡ true
unfolding failure_of is_clean status_of
failed_failure (some reason) outcome h = cc
failed_failure none (ok result) h = ground arith
failed_failure none (err e) h = refl

passed_completed :
    (status : RunStatus)
    → (status ≡ passed)
      ↔ (run_completed (completion_of status) ≡ run_completed CompletionStatus.passed)
passed_completed passed = (λ h. refl, λ h. refl)
passed_completed failed = (λ h. cc, λ h. cc)
passed_completed aborted = (λ h. cc, λ h. cc)

failed_completed :
    (status : RunStatus)
    → (status ≡ failed)
      ↔ (run_completed (completion_of status) ≡ run_completed CompletionStatus.failed)
failed_completed passed = (λ h. cc, λ h. cc)
failed_completed failed = (λ h. refl, λ h. refl)
failed_completed aborted = (λ h. cc, λ h. cc)

aborted_completed :
    (status : RunStatus)
    → (status ≡ aborted)
      ↔ (run_completed (completion_of status) ≡ run_completed CompletionStatus.aborted)
aborted_completed passed = (λ h. cc, λ h. cc)
aborted_completed failed = (λ h. cc, λ h. cc)
aborted_completed aborted = (λ h. refl, λ h. refl)

module _ (f : Float) (show_violation : ThresholdViolation f → Str) where
  open f use {F64}

  first_reason-none_iff :
      (v : Option (ThresholdViolation f)) (later : Option Str)
      → (first_reason f show_violation v later ≡ none) ↔ ((v ≡ none) × (later ≡ none))
  first_reason-none_iff none later = (λ h. (refl, h), λ h. h.1)
  first_reason-none_iff (some violation) later =
      (λ h. absurd (some≢none h), λ h. absurd (some≢none h.0))

  monitor-none_iff :
      (config : AbortConfig F64) (snapshots : List (MetricsSnapshot F64))
      → (monitor f show_violation config snapshots ≡ none)
        ↔ All (λ s. evaluate f config s ≡ none) snapshots
  unfolding monitor
  monitor-none_iff config [] = (λ h. tt, λ h. refl)
  monitor-none_iff config (s ∷ rest) =
      let first =
        first_reason-none_iff (evaluate f config s) (monitor f show_violation config rest) in
      let later = monitor-none_iff config rest in
      (λ h. ((first.0 h).0, later.0 (first.0 h).1), λ all. first.1 (all.0, later.1 all.1))

  module _ {Time : Type 0} where
    -- An execution counts as passed exactly when no snapshot of the monitor violated a threshold, the
    -- workload returned, every routing assertion passed and no participant failed.
    pub complete-passed_iff :
        (config : AppConfig F64) (seen : Observed f show_violation Time)
        → (has_passed (complete f show_violation config seen).0 ≡ true)
          ↔ (All (λ s. evaluate f config.abort s ≡ none) seen.snapshots × IsClean seen.outcome)
    unfolding complete has_passed RunReport.new
    complete-passed_iff config seen =
        let parts =
          verdict_iff (monitor f show_violation config.abort seen.snapshots) seen.outcome in
        let none_violated = monitor-none_iff config.abort seen.snapshots in
        (
          λ h. (none_violated.0 (parts.0 h).0, is_clean-IsClean seen.outcome (parts.0 h).1),
          λ (kept, clean). parts.1 (none_violated.1 kept, IsClean-is_clean seen.outcome clean),
        )

    -- A violated threshold in a run whose workload is otherwise clean: the execution has not passed, its
    -- report and its last event say that it was aborted, and yet its result is not an error.
    pub aborted-into_result :
        (config : AppConfig F64) (seen : Observed f show_violation Time)
        → IsClean seen.outcome
        → ¬ All (λ s. evaluate f config.abort s ≡ none) seen.snapshots
        → let run = complete f show_violation config seen in
          (has_passed run.0 ≡ false)
          × (run.0.report.status ≡ aborted)
          × (run.1 ≡ run_completed CompletionStatus.aborted)
          × (into_result run.0 ≡ ok run.0.report)
    unfolding complete has_passed into_result RunReport.new status_of
    aborted-into_result config seen clean violated =
        let threshold = monitor f show_violation config.abort seen.snapshots in
        elim (Option-cases threshold) [
          | inl kept ↦ absurd (violated ((monitor-none_iff config.abort seen.snapshots).0 kept))
          | inr reason ↦
              rw (reason.1, clean_failure seen.outcome (IsClean-is_clean seen.outcome clean))
                (refl, refl, refl, refl)
        ]

    -- What the three accounts of a run say together, whatever happened: the last event says that the run
    -- has passed, failed or was aborted exactly as the report's status does; an abort reason is given
    -- exactly when the status is not passed; and a run whose status is failed returns an error.
    pub accounts_agree :
        (config : AppConfig F64) (seen : Observed f show_violation Time)
        → let run = complete f show_violation config seen in
          ((run.0.report.status ≡ passed) ↔ (run.1 ≡ run_completed CompletionStatus.passed))
          × ((run.0.report.status ≡ failed) ↔ (run.1 ≡ run_completed CompletionStatus.failed))
          × ((run.0.report.status ≡ aborted) ↔ (run.1 ≡ run_completed CompletionStatus.aborted))
          × ((run.0.report.abort_reason ≡ none) ↔ (run.0.report.status ≡ passed))
          × (run.0.report.status ≡ failed → is_err (into_result run.0) ≡ true)
    unfolding complete RunReport.new
    accounts_agree config seen =
        let threshold = monitor f show_violation config.abort seen.snapshots in
        let run = complete f show_violation config seen in
        let status = status_of threshold seen.outcome in
        (
          passed_completed status,
          failed_completed status,
          aborted_completed status,
          abort_reason_iff status (stop_reason_of threshold seen.outcome),
          λ h. into_result-is_err run.0 ∙ failed_failure threshold seen.outcome h,
        )
