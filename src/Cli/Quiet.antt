-- ===== src/Cli/Quiet.antt =====
-- src/main.rs: where the run command prints to.
use tak_bench.Prelude.{
  Bool, false, ◌≡◌, refl, Bool, true, ◌||◌, Option, none, some, Result, ok, err, All, arith, false,
}
use tak_bench.Prelude.Bytes.{Bytes, Str}
use tak_bench.Prelude.Float.{Float}
use tak_bench.Config.Enums.{Profile}
use tak_bench.Config.Types.{AppConfig}
use tak_bench.Lifecycle.{LifecycleEvent}
use tak_bench.Report.RunReport.{RunReport, terminal}
use tak_bench.Runner.{RunExecution, Observed, into_result}
use tak_bench.Safety.Errors.{SafetyError}
use tak_bench.Scenarios.Errors.{AnyError}
use tak_bench.Thresholds.Evaluate.{ThresholdViolation}
use tak_bench.Cli
use tak_bench.Cli.{RunArgs, Refusal, panic, apply_overrides}
use tak_bench.Cli.Errors.{CliError}
use tak_bench.Cli.Overrides.{apply_overrides-IsKept}
use tak_bench.Cli.Commands.{
  CliEffect, stdout, stderr, dial, write_report, authorization_banner, say, after_run, finish,
  after_writing, write_and_finish, after_execution, run_config, load_config, run_loaded, run,
}

-- Leaves stdout alone
abbrev pub IsQuiet : CliEffect → Type 0
IsQuiet (stdout text) = ⊥
IsQuiet (stderr text) = Unit
IsQuiet (dial target tls) = Unit
IsQuiet (write_report path) = Unit

module _ (f : Float) (read_file : Str → Result CliError Bytes)
    (from_yaml : Bytes → Result CliError (AppConfig f.F64)) {Time : Type 0}
    (show_violation : ThresholdViolation f → Str) (show_latency : f.F64 → Str)
    (observe : AppConfig f.F64 → Observed f show_violation Time)
    (write_json : Str → RunReport f.F64 Time → Result CliError Unit) where
  open f use {F64}

  say-IsQuiet :
      (flag : Bool) (text : Str)
      → flag ≡ true
      → IsQuiet (say f read_file from_yaml show_violation show_latency observe write_json flag text)
  say-IsQuiet true text h = tt
  say-IsQuiet false text h = cc

  after_run-IsQuiet :
      (r : Result AnyError (RunReport F64 Time))
      → All IsQuiet
          (after_run f read_file from_yaml show_violation show_latency observe write_json r).0
  unfolding after_run
  after_run-IsQuiet (ok report) = tt
  after_run-IsQuiet (err e) = tt

  finish-IsQuiet :
      (execution : RunExecution F64 Time)
      → All IsQuiet
          (finish f read_file from_yaml show_violation show_latency observe write_json execution).0
  unfolding finish
  finish-IsQuiet execution = after_run-IsQuiet (into_result execution)

  after_writing-IsQuiet :
      (execution : RunExecution F64 Time) (r : Result CliError Unit)
      → All IsQuiet
          (after_writing f read_file from_yaml show_violation show_latency observe write_json
            execution r).0
  unfolding after_writing
  after_writing-IsQuiet execution (err e) = tt
  after_writing-IsQuiet execution (ok _) = finish-IsQuiet execution

  write_and_finish-IsQuiet :
      (path : Option Str) (execution : RunExecution F64 Time)
      → All IsQuiet
          (write_and_finish f read_file from_yaml show_violation show_latency observe write_json
            path execution).0
  unfolding write_and_finish
  write_and_finish-IsQuiet none execution = finish-IsQuiet execution
  write_and_finish-IsQuiet (some path) execution =
      (tt, after_writing-IsQuiet execution (write_json path execution.report))

  after_execution-IsQuiet :
      (config : AppConfig F64) (r : Result SafetyError (RunExecution F64 Time × LifecycleEvent))
      → config.output.lifecycle_jsonl ≡ true
      → All IsQuiet
          (after_execution f read_file from_yaml show_violation show_latency observe write_json
            config r).0
  unfolding after_execution
  after_execution-IsQuiet config (err e) on = tt
  after_execution-IsQuiet config (ok (execution, event)) on = (
    say-IsQuiet config.output.lifecycle_jsonl (terminal show_latency execution.report) on,
    write_and_finish-IsQuiet config.output.json execution,
  )

  run_config-IsQuiet :
      (args : RunArgs F64) (r : Result Refusal (AppConfig F64))
      → ((config : AppConfig F64) → r ≡ ok config → config.output.lifecycle_jsonl ≡ true)
      → All IsQuiet
          (run_config f read_file from_yaml show_violation show_latency observe write_json args r).0
  unfolding run_config
  run_config-IsQuiet args (err panic) on = tt
  run_config-IsQuiet args (err (Cli.message text)) on = tt
  run_config-IsQuiet args (ok config) on = (
    say-IsQuiet config.output.lifecycle_jsonl authorization_banner (on config refl),
    after_execution-IsQuiet config _ (on config refl),
  )

  -- A configuration that raises the flag, or an argument that does
  raised-right : (before flag after : Bool) → flag ≡ true → after ≡ (before || flag) → after ≡ true
  raised-right before flag after on same = ground (arith, on, same)

  run_loaded-IsQuiet :
      (args : RunArgs F64) (forced : Option Profile) (r : Result CliError (AppConfig F64))
      → args.lifecycle_jsonl ≡ true
      → All IsQuiet
          (run_loaded f read_file from_yaml show_violation show_latency observe write_json args
            forced r).0
  unfolding run_loaded
  run_loaded-IsQuiet args forced (err e) on = tt
  run_loaded-IsQuiet args forced (ok before) on =
      run_config-IsQuiet args (apply_overrides false args forced before) (λ after same.
        raised-right before.output.lifecycle_jsonl args.lifecycle_jsonl after.output.lifecycle_jsonl
          on (apply_overrides-IsKept false args forced before after same).lifecycle_raised)

  -- Where the lifecycle lines are asked for on the command line, the run command prints nothing of its
  -- own to stdout, whether it succeeds, is refused or fails: the banner and the summary go to stderr.
  pub run-IsQuiet :
      (args : RunArgs F64) (forced : Option Profile)
      → args.lifecycle_jsonl ≡ true
      → All IsQuiet
          (run f read_file from_yaml show_violation show_latency observe write_json args forced).0
  unfolding run
  run-IsQuiet args forced on =
      run_loaded-IsQuiet args forced
        (load_config f read_file from_yaml show_violation show_latency observe write_json
          args.config)
        on
