-- ===== src/Runner/Signals.antt =====
-- src/runner.rs: the two tasks beside the workload, which raise its stop flag: one forwards the
-- caller's flag, the other is the monitor. Their turns come in any order.
use tak_bench.Prelude.{
  Bool, true, false, ◌&&◌, Option, none, some, is_some, List, [], ◌∷◌, if◌then◌else◌,
}
use tak_bench.Prelude.Bytes.{Str}
use tak_bench.Prelude.Float.{Float}
use tak_bench.Config.Types.{AbortConfig}
use tak_bench.Metrics.{MetricsSnapshot}
use tak_bench.Runner.{first_reason}
use tak_bench.Thresholds.Evaluate.{ThresholdViolation, evaluate}

-- The caller's flag has a new value; its sender is gone; the monitor's ticker is due
pub data TaskEvent (F64 : Type 0) : Type 0 where
  changed : Bool → TaskEvent F64
  closed : TaskEvent F64
  sampled : MetricsSnapshot F64 → TaskEvent F64

-- The flag that the workload sees, whether the forwarding task runs, and the reason that the monitor
-- has left when it ended
pub record Signals : Type 0 where
  pub flag : Bool
  pub forwarding : Bool
  pub reason : Option Str

abbrev pub is_stop : {F64 : Type 0} → TaskEvent F64 → Bool
is_stop (changed raised) = raised
is_stop closed = true
is_stop (sampled m) = false

abbrev pub snapshots_of : {F64 : Type 0} → List (TaskEvent F64) → List (MetricsSnapshot F64)
snapshots_of [] = []
snapshots_of (changed raised ∷ rest) = snapshots_of rest
snapshots_of (closed ∷ rest) = snapshots_of rest
snapshots_of (sampled m ∷ rest) = m ∷ snapshots_of rest

-- One turn of the forwarding task: `stop` says whether it leaves its loop.
unfoldable pub forward : Bool → Signals → Signals
forward stop s =
    if s.forwarding && stop
    then (record { flag = true; forwarding = false; reason = s.reason })
    else s

-- The channel starts with the caller's flag, which the forwarding task looks at first.
abbrev pub start_signals : Bool → Signals
start_signals raised = forward raised (record { flag = raised; forwarding = true; reason = none })

module _ (f : Float) (show_violation : ThresholdViolation f → Str) where
  open f use {F64}

  abbrev pub raise : Option (ThresholdViolation f) → Signals → Signals
  raise none s = s
  raise (some violation) s = record s {
    flag = true;
    reason = first_reason f show_violation (some violation) none;
  }

  -- One turn of the monitor, which ends with its first reason
  unfoldable pub watch : AbortConfig F64 → MetricsSnapshot F64 → Signals → Signals
  watch config m s = if is_some s.reason then s else raise (evaluate f config m) s

  unfoldable pub task_step : AbortConfig F64 → TaskEvent F64 → Signals → Signals
  task_step config (changed raised) s = forward raised s
  task_step config closed s = forward true s
  task_step config (sampled m) s = watch config m s

  unfoldable pub run_tasks : AbortConfig F64 → List (TaskEvent F64) → Signals → Signals
  run_tasks config [] s = s
  run_tasks config (event ∷ rest) s = run_tasks config rest (task_step config event s)
