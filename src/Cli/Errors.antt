-- ===== src/Cli/Errors.antt =====
-- src/main.rs: sanitized_cli_error, which chooses what the command line prints of an error.
use tak_bench.Prelude.{Option, none, some, List, [], ◌∷◌, ◌++◌, map, if◌then◌else◌}
use tak_bench.Prelude.Bytes.{Str, bytes, str_eq}
use tak_bench.Connection.Errors.{ConnectError, category, phase}
use tak_bench.Report.Names.{category_name, phase_name}
use tak_bench.Safety.Errors.{SafetyError}
use tak_bench.Safety.Messages.{safety_message}
use tak_bench.Scenarios.Errors.{AnyError, Cause, connect_cause, message_cause}

-- One error of a chain: a refusal of the safety policy, or any other
pub data CliCause : Type 0 where
  safety_cause : SafetyError → CliCause
  other_cause : Cause → CliCause

-- `anyhow::Error` by its `chain()`
abbrev pub CliError : Type 0
CliError = List CliCause

abbrev pub cli_error : AnyError → CliError
cli_error e = map other_cause e

abbrev pub message : Str → CliCause
message text = other_cause (message_cause text)

-- `find_map` with `downcast_ref`
unfoldable pub find_connect : CliError → Option ConnectError
find_connect [] = none
find_connect (other_cause (connect_cause e) ∷ rest) = some e
find_connect (cause ∷ rest) = find_connect rest

unfoldable pub find_safety : CliError → Option SafetyError
find_safety [] = none
find_safety (safety_cause e ∷ rest) = some e
find_safety (cause ∷ rest) = find_safety rest

abbrev pub run_failed : Str
run_failed = bytes "run failed; see the sanitized JSON report"

-- `error.to_string()` of an error that is neither of the connection nor of the safety policy: the
-- message at the head of its chain. The other errors of the program have no text in the model; none of
-- them reads like run_failed.
abbrev pub head_text : CliError → Str
head_text (other_cause (message_cause text) ∷ rest) = text
head_text other = []

unfoldable pub connect_json : ConnectError → Str
connect_json e =
    bytes "{\"category\":\""
    ++ category_name (category e)
    ++ bytes "\",\"phase\":\""
    ++ phase_name (phase e)
    ++ bytes "\"}"

abbrev pub command_failed : Str
command_failed = bytes "{\"category\":\"command_failed\"}"

unfoldable pub generic_text : CliError → Str
generic_text error = if str_eq (head_text error) run_failed then head_text error else command_failed

unfoldable pub safety_text : (Str → Str) → CliError → Option SafetyError → Str
safety_text debug error (some e) = safety_message debug e
safety_text debug error none = generic_text error

unfoldable pub connect_text : (Str → Str) → CliError → Option ConnectError → Str
connect_text debug error (some e) = connect_json e
connect_text debug error none = safety_text debug error (find_safety error)

unfoldable pub sanitized_cli_error : (Str → Str) → CliError → Str
sanitized_cli_error debug error = connect_text debug error (find_connect error)
