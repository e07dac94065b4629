-- ===== src/Cli/Main.antt =====
-- src/main.rs: command and main, from the parsed command line to what is printed and the exit code.
use tak_bench.Prelude.{ℕ, Bool, none, some, List, [], ◌∷◌, ◌++◌, Result, ok, err, map_err}
use tak_bench.Prelude.Bytes.{Bytes, Str, bytes}
use tak_bench.Prelude.Float.{Float}
use tak_bench.Config.Enums.{smoke}
use tak_bench.Config.Text.{decimal}
use tak_bench.Config.Types.{AppConfig}
use tak_bench.Connection.Connect.{Network}
use tak_bench.Report.RunReport.{RunReport}
use tak_bench.Runner.{Observed}
use tak_bench.Thresholds.Evaluate.{ThresholdViolation}
use tak_bench.Cli.{RunArgs}
use tak_bench.Cli.Errors.{CliError, message, sanitized_cli_error}
use tak_bench.Cli.Commands.{
  CliEffect, stdout, stderr, CliEnd, done, failed, crashed, Ran, validate, run,
}

pub data Command (F64 : Type 0) : Type 0 where
  validate_command : Str → Bool → Bool → Bool → Command F64
  smoke_run : RunArgs F64 → Command F64
  plain_run : RunArgs F64 → Command F64
  list_scenarios : Command F64
  inspect_ca : Str → Command F64
  render : Str → Command F64

unfoldable pub scenario_list : Str
scenario_list =
    bytes "position (fixed)\navailable controls: participants, routing assertions, fragmentation, "
    ++ bytes "reconnect, invalid inputs, slow-client, abrupt-disconnect\n"
    ++ bytes "future: marker, chat, route"

abbrev print_or : Result CliError Str → Ran
print_or (ok text) = (stdout text ∷ [], done)
print_or (err e) = ([], failed e)

abbrev reading : {A : Type 0} → Str → Result CliError A → Result CliError A
reading path r = map_err (λ e. message (bytes "reading " ++ path) ∷ e) r

abbrev size_text : Result CliError ℕ → Result CliError Str
size_text (err e) = err e
size_text (ok size) = ok (
    bytes "CA file is readable ("
    ++ decimal size
    ++ bytes " bytes). Full certificate inspection is planned with test-PKI support.")

-- `certs inspect`: the size of the file
unfoldable pub inspect_certificate : (Str → Result CliError ℕ) → Str → Ran
inspect_certificate file_size path = print_or (size_text (reading path (file_size path)))

-- `report render`: the file, as it is
unfoldable pub render_report : (Str → Result CliError Bytes) → Str → Ran
render_report read_file path = print_or (reading path (read_file path))

module _ (f : Float) (read_file : Str → Result CliError Bytes) (file_size : Str → Result CliError ℕ)
    (from_yaml : Bytes → Result CliError (AppConfig f.F64)) (net : Network) {Time : Type 0}
    (show_violation : ThresholdViolation f → Str) (show_latency : f.F64 → Str)
    (observe : AppConfig f.F64 → Observed f show_violation Time)
    (write_json : Str → RunReport f.F64 Time → Result CliError Unit) where
  open f use {F64}

  unfoldable pub command : Command F64 → Ran
  command (validate_command path connects allow_production allow_invalid_events) =
      validate f read_file from_yaml net path connects allow_production allow_invalid_events
  command (smoke_run args) =
      run f read_file from_yaml show_violation show_latency observe write_json args (some smoke)
  command (plain_run args) =
      run f read_file from_yaml show_violation show_latency observe write_json args none
  command list_scenarios = (stdout scenario_list ∷ [], done)
  command (inspect_ca path) = inspect_certificate file_size path
  command (render path) = render_report read_file path

  -- The effects and the exit code, which is 101 after a panic
  abbrev exit_with : (Str → Str) → List CliEffect → CliEnd → List CliEffect × ℕ
  exit_with debug effects done = (effects, 0)
  exit_with debug effects (failed e) = (effects ++ stderr (sanitized_cli_error debug e) ∷ [], 1)
  exit_with debug effects crashed = (effects, 101)

  unfoldable pub main : (Str → Str) → Command F64 → List CliEffect × ℕ
  main debug parsed = exit_with debug (command parsed).0 (command parsed).1
