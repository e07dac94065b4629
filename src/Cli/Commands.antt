-- ===== src/Cli/Commands.antt =====
-- src/main.rs: the commands validate and run (smoke is run with its profile), with what they print,
-- dial and write. Files, the reader of configurations and what a run observes are parameters.
use tak_bench.Prelude.{
  false, Bool, Option, none, some, List, [], ◌∷◌, ◌++◌, if◌then◌else◌, Result, ok, err, ◌>>=◌,
  map_err,
}
use tak_bench.Prelude.Bytes.{Bytes, Str, bytes}
use tak_bench.Prelude.Float.{Float}
use tak_bench.Config.Defaults.{default_config}
use tak_bench.Config.Enums.{Profile}
use tak_bench.Config.Tls.{TlsTemplateError, for_participant}
use tak_bench.Config.Types.{AppConfig, ParticipantConfig, TargetConfig, TlsConfig}
use tak_bench.Connection.Connect.{Network, connect}
use tak_bench.Connection.Errors.{ConnectError}
use tak_bench.Lifecycle.{LifecycleEvent}
use tak_bench.Report.RunReport.{RunReport, terminal}
use tak_bench.Runner.{RunExecution, Observed, into_result, execute_with_lifecycle}
use tak_bench.Safety.Errors.{SafetyError, SafetyOptions}
use tak_bench.Safety.Options.{structural_check}
use tak_bench.Safety.Policy.{validate_with_options}
use tak_bench.Scenarios.Errors.{AnyError, connect_cause, template_cause}
use tak_bench.Thresholds.Evaluate.{ThresholdViolation}
use tak_bench.Cli
use tak_bench.Cli.{RunArgs, Refusal, panic, apply_overrides}
use tak_bench.Cli.Errors.{CliError, safety_cause, other_cause, cli_error, message}

-- What a command does to its surroundings, in order
pub data CliEffect : Type 0 where
  stdout : Str → CliEffect
  stderr : Str → CliEffect
  dial : TargetConfig → TlsConfig → CliEffect
  write_report : Str → CliEffect

-- How it ends: with success, an error, or a panic
pub data CliEnd : Type 0 where
  done : CliEnd
  failed : CliError → CliEnd
  crashed : CliEnd

abbrev pub Ran : Type 0
Ran = List CliEffect × CliEnd

-- The effect first, then the rest
abbrev pub doing : CliEffect → Ran → Ran
doing effect ran = (effect ∷ ran.0, ran.1)

-- In UTF-8; the bytes from 195 on are the accented letters.
abbrev pub authorization_banner : Str
authorization_banner =
    bytes "Use somente contra servidores que voc"
    ++ (195 ∷ 170 ∷ bytes " administra ou possui autoriza")
    ++ (195 ∷ 167 ∷ 195 ∷ 163 ∷ bytes "o para testar.")

abbrev pub valid_text : Str
valid_text = bytes "Configuration is valid. Use --connect to perform a connection preflight."

abbrev pub end_of : {A : Type 0} → Result CliError A → CliEnd
end_of (ok a) = done
end_of (err e) = failed e

module _ (f : Float) (read_file : Str → Result CliError Bytes)
    (from_yaml : Bytes → Result CliError (AppConfig f.F64)) where
  open f use {F64}

  unfoldable pub read_config : Str → Result CliError (AppConfig F64)
  read_config path = do
    text ← map_err (λ e. message (bytes "reading " ++ path) ∷ e) (read_file path)
    map_err (λ e. message (bytes "parsing " ++ path) ∷ e) (from_yaml text)

  module _ (net : Network) where
    abbrev pub first_id : List ParticipantConfig → Str
    first_id [] = bytes "client-0"
    first_id (participant ∷ rest) = participant.id

    unfoldable pub after_connect : Result ConnectError net.Stream → Ran
    after_connect (err e) = ([], failed (other_cause (connect_cause e) ∷ []))
    after_connect (ok stream) = (stdout (bytes "Connection preflight succeeded.") ∷ [], done)

    unfoldable pub preflight : AppConfig F64 → Result TlsTemplateError TlsConfig → Ran
    preflight config (err e) = ([], failed (other_cause (template_cause e) ∷ []))
    preflight config (ok tls) =
        doing (dial config.target tls)
          (after_connect (connect net config.target tls config.timeouts))

    unfoldable pub after_policy : AppConfig F64 → Result SafetyError Unit → Ran
    after_policy config (err e) = ([], failed (safety_cause e ∷ []))
    after_policy config (ok _) =
        doing (stdout authorization_banner)
          (preflight config (for_participant config.tls (first_id config.participants)))

    unfoldable pub after_structure :
        Bool → SafetyOptions → AppConfig F64 → Result SafetyError Unit → Ran
    after_structure connects options config (err e) =
        ([], failed (message (bytes "configuration is unsafe or invalid") ∷ safety_cause e ∷ []))
    after_structure connects options config (ok _) =
        if connects
        then after_policy config (validate_with_options f config options)
        else (stdout valid_text ∷ [], done)

    unfoldable pub validate_config : Bool → SafetyOptions → Result CliError (AppConfig F64) → Ran
    validate_config connects options (err e) = ([], failed e)
    validate_config connects options (ok config) =
        after_structure connects options config (structural_check f config)

    unfoldable pub validate : Str → Bool → Bool → Bool → Ran
    validate path connects allow_production allow_invalid_events =
        validate_config connects
          (record {
            allow_production = allow_production;
            allow_invalid_events = allow_invalid_events;
          })
          (read_config path)

  module _ {Time : Type 0} (show_violation : ThresholdViolation f → Str) (show_latency : F64 → Str)
      (observe : AppConfig F64 → Observed f show_violation Time)
      (write_json : Str → RunReport F64 Time → Result CliError Unit) where
    -- On stderr where stdout is for the lifecycle lines
    abbrev pub say : Bool → Str → CliEffect
    say lifecycle_jsonl text = if lifecycle_jsonl then stderr text else stdout text

    -- `execution.into_result().map(|_| ())`
    unfoldable pub after_run : Result AnyError (RunReport F64 Time) → Ran
    after_run (ok report) = ([], done)
    after_run (err e) = ([], failed (cli_error e))

    unfoldable pub finish : RunExecution F64 Time → Ran
    finish execution = after_run (into_result execution)

    unfoldable pub after_writing : RunExecution F64 Time → Result CliError Unit → Ran
    after_writing execution (err e) = ([], failed e)
    after_writing execution (ok _) = finish execution

    unfoldable pub write_and_finish : Option Str → RunExecution F64 Time → Ran
    write_and_finish none execution = finish execution
    write_and_finish (some path) execution =
        doing (write_report path) (after_writing execution (write_json path execution.report))

    unfoldable pub after_execution :
        AppConfig F64 → Result SafetyError (RunExecution F64 Time × LifecycleEvent) → Ran
    after_execution config (err e) = ([], failed (safety_cause e ∷ []))
    after_execution config (ok (execution, event)) =
        doing (say config.output.lifecycle_jsonl (terminal show_latency execution.report))
          (write_and_finish config.output.json execution)

    unfoldable pub run_config : RunArgs F64 → Result Refusal (AppConfig F64) → Ran
    run_config args (err panic) = ([], crashed)
    run_config args (err (Cli.message text)) = ([], failed (message text ∷ []))
    run_config args (ok config) = doing (say config.output.lifecycle_jsonl authorization_banner) (
        after_execution config (
          execute_with_lifecycle f show_violation config
            (record {
              allow_production = args.allow_production;
              allow_invalid_events = args.allow_invalid_events;
            })
            (observe config)))

    unfoldable pub load_config : Option Str → Result CliError (AppConfig F64)
    load_config none = ok default_config
    load_config (some path) = read_config path

    -- In a release build, which does not check for overflow
    unfoldable pub run_loaded : RunArgs F64 → Option Profile → Result CliError (AppConfig F64) → Ran
    run_loaded args forced_profile (err e) = ([], failed e)
    run_loaded args forced_profile (ok config) =
        run_config args (apply_overrides false args forced_profile config)

    unfoldable pub run : RunArgs F64 → Option Profile → Ran
    run args forced_profile = run_loaded args forced_profile (load_config args.config)
