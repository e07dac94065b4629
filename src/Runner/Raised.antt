-- ===== src/Runner/Raised.antt =====
-- src/runner.rs: the workload's stop flag is up exactly when it was asked to stop or a threshold was
-- violated, in whatever order the tasks run.
use tak_bench.Prelude.{
  ◌≡◌, refl, ◌∙◌, ap, Bool, true, false, ◌&&◌, ◌||◌, not, Option, none, some, is_some,
  if◌then◌else◌, arith, List, [], ◌∷◌, any,
}
use tak_bench.Prelude.Bytes.{Str}
use tak_bench.Prelude.Float.{Float}
use tak_bench.Config.Types.{AbortConfig}
use tak_bench.Runner.{first_reason, monitor}
use tak_bench.Runner.Signals.{
  TaskEvent, changed, closed, sampled, Signals, is_stop, snapshots_of, forward, start_signals,
  raise, watch, task_step, run_tasks,
}
use tak_bench.Thresholds.Evaluate.{ThresholdViolation, evaluate}

-- What becomes of the flag, where `stops` and `found` are still to come
abbrev flag_after : Signals → Bool → Option Str → Bool
flag_after s stops found =
    s.flag || ((s.forwarding && stops) || (not (is_some s.reason) && is_some found))

abbrev reason_after : Option Str → Option Str → Option Str
reason_after none found = found
reason_after (some text) found = some text

abbrev signals : Bool → Bool → Option Str → Signals
signals up runs left = record { flag = up; forwarding = runs; reason = left }

forward-flag :
    (stop stops up runs : Bool) (left found : Option Str)
    → flag_after (forward stop (signals up runs left)) stops found
      ≡ flag_after (signals up runs left) (stop || stops) found
unfolding forward
forward-flag stop stops up false left found = refl
forward-flag false stops up true left found = refl
forward-flag true stops true true left found = refl
forward-flag true stops false true left found = refl

forward-reason : (stop : Bool) (s : Signals) → (forward stop s).reason ≡ s.reason
unfolding forward
forward-reason stop s = ground arith

nothing-flag :
    (up runs : Bool) (left : Option Str) → up ≡ flag_after (signals up runs left) false none
nothing-flag true runs left = refl
nothing-flag false runs left = ground arith

nothing-reason : (left : Option Str) → left ≡ reason_after left none
nothing-reason none = refl
nothing-reason (some text) = refl

start-flag :
    (raised stops : Bool) (found : Option Str)
    → flag_after (start_signals raised) stops found ≡ raised || (stops || is_some found)
unfolding forward
start-flag true stops found = refl
start-flag false stops found = refl

start-reason : (raised : Bool) → (start_signals raised).reason ≡ none
unfolding forward
start-reason true = refl
start-reason false = refl

module _ (f : Float) (show_violation : ThresholdViolation f → Str)
    (config : AbortConfig f.F64) where
  watch-flag :
      (violation : Option (ThresholdViolation f)) (stops up runs : Bool) (left found : Option Str)
      → let s = signals up runs left in
        flag_after (if is_some left then s else raise f show_violation violation s) stops found
        ≡ flag_after s stops (first_reason f show_violation violation found)
  watch-flag violation stops up runs (some text) found = refl
  watch-flag none stops up runs none found = refl
  watch-flag (some violation) stops true runs none found = refl
  watch-flag (some violation) stops false true none found = ground arith
  watch-flag (some violation) stops false false none found = refl

  watch-reason :
      (violation : Option (ThresholdViolation f)) (up runs : Bool) (left found : Option Str)
      → let s = signals up runs left in
        reason_after (if is_some left then s else raise f show_violation violation s).reason found
        ≡ reason_after left (first_reason f show_violation violation found)
  watch-reason violation up runs (some text) found = refl
  watch-reason none up runs none found = refl
  watch-reason (some violation) up runs none found = refl

  run_tasks-flag :
      (events : List (TaskEvent f.F64)) (s : Signals)
      → (run_tasks f show_violation config events s).flag
        ≡ flag_after s (any is_stop events) (monitor f show_violation config (snapshots_of events))
  unfolding run_tasks task_step watch monitor
  run_tasks-flag [] s = nothing-flag s.flag s.forwarding s.reason
  run_tasks-flag (changed raised ∷ rest) s =
      run_tasks-flag rest (forward raised s)
      ∙ forward-flag raised (any is_stop rest) s.flag s.forwarding s.reason
          (monitor f show_violation config (snapshots_of rest))
  run_tasks-flag (closed ∷ rest) s =
      run_tasks-flag rest (forward true s)
      ∙ forward-flag true (any is_stop rest) s.flag s.forwarding s.reason
          (monitor f show_violation config (snapshots_of rest))
  run_tasks-flag (sampled m ∷ rest) s =
      run_tasks-flag rest (watch f show_violation config m s)
      ∙ watch-flag (evaluate f config m) (any is_stop rest) s.flag s.forwarding s.reason
          (monitor f show_violation config (snapshots_of rest))

  run_tasks-reason :
      (events : List (TaskEvent f.F64)) (s : Signals)
      → (run_tasks f show_violation config events s).reason
        ≡ reason_after s.reason (monitor f show_violation config (snapshots_of events))
  unfolding run_tasks task_step watch monitor
  run_tasks-reason [] s = nothing-reason s.reason
  run_tasks-reason (changed raised ∷ rest) s =
      run_tasks-reason rest (forward raised s)
      ∙ ap (λ left. reason_after left (monitor f show_violation config (snapshots_of rest)))
          (forward-reason raised s)
  run_tasks-reason (closed ∷ rest) s =
      run_tasks-reason rest (forward true s)
      ∙ ap (λ left. reason_after left (monitor f show_violation config (snapshots_of rest)))
          (forward-reason true s)
  run_tasks-reason (sampled m ∷ rest) s =
      run_tasks-reason rest (watch f show_violation config m s)
      ∙ watch-reason (evaluate f config m) s.flag s.forwarding s.reason
          (monitor f show_violation config (snapshots_of rest))

  -- In whatever order the caller's flag changes, its sender is dropped and the monitor takes its
  -- snapshots: the workload is told to stop exactly where the caller's flag was up at first or has been
  -- raised, its sender is gone, or a snapshot has violated a threshold. The
  -- reason that the monitor leaves is that of the first snapshot that violates a threshold.
  pub run_tasks-told :
      (raised : Bool) (events : List (TaskEvent f.F64))
      → let found = monitor f show_violation config (snapshots_of events) in
        let end = run_tasks f show_violation config events (start_signals raised) in
        (end.flag ≡ raised || (any is_stop events || is_some found)) × (end.reason ≡ found)
  run_tasks-told raised events =
      let found = monitor f show_violation config (snapshots_of events) in
      (
        run_tasks-flag events (start_signals raised) ∙ start-flag raised (any is_stop events) found,
        run_tasks-reason events (start_signals raised)
            ∙ ap (λ left. reason_after left found) (start-reason raised),
      )
