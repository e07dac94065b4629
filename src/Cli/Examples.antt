-- ===== src/Cli/Examples.antt =====
-- src/main.rs: the commands at a concrete configuration, network and run.
use tak_bench.Prelude.{
  ℕ, true, false, ◌≡◌, refl, none, some, List, [], ◌∷◌, ◌++◌, ok, Result, All, inl, inr, Bool-cases,
  if◌then◌else◌,
}
use tak_bench.Prelude.Bytes.{Str, Bytes, bytes, str_eq}
use tak_bench.Prelude.Float.{micros}
use tak_bench.Prelude.Time.{from_secs}
use tak_bench.Config.Defaults.{default_tls}
use tak_bench.Config.Types.{AppConfig}
use tak_bench.Config.Host.{host_from_server, is_loopback}
use tak_bench.Config.Tls.{is_safe_participant_id, resolve_templates, for_participant}
use tak_bench.Connection.Connect.{Network, connect}
use tak_bench.Report.RunReport.{RunReport}
use tak_bench.Metrics.{no_snapshot}
use tak_bench.Runner.{Observed}
use tak_bench.Safety.Errors.{default_options}
use tak_bench.Safety.Options.{structural_check}
use tak_bench.Safety.Participants.{
  has_bad_id, validate_routing, has_bad_alias, client_ids, validate_participants_and_routing,
  validate_synchronization, validate_tls_templates,
}
use tak_bench.Safety.Workload.{
  participant_count, is_bad_rate, has_invalid_bounds, is_disruptive, validate_environment_profile,
  production_limits, validate_production, validate_invalid_events, validate_counted,
  validate_workload,
}
use tak_bench.Safety.Policy.{is_allowed_target, permits_invalid_events, validate_with_options}
use tak_bench.Scenarios.Errors.{io_cause}
use tak_bench.Scenarios.Start.Sample.{two_clients}
use tak_bench.Thresholds.Evaluate.{ThresholdViolation}
use tak_bench.Cli.{RunArgs}
use tak_bench.Cli.Errors.{
  CliError, message, other_cause, find_connect, find_safety, run_failed, generic_text, safety_text,
  connect_text, sanitized_cli_error,
}
use tak_bench.Cli.Sanitized.{reword, sanitized-reword}
use tak_bench.Cli.Commands.{
  read_config, after_connect, preflight, after_policy, after_structure, validate_config, validate,
  run,
}
use tak_bench.Cli.Preflight.{Dials, IsAuthorized, validate-IsAuthorized}
use tak_bench.Cli.Quiet.{IsQuiet, run-IsQuiet}

-- An error that names a path, and the same with its messages blotted out
abbrev reading_failed : CliError
reading_failed = message (bytes "reading /etc/tak/secret.yaml") ∷ other_cause (io_cause false) ∷ []

abbrev blot : Str → Str
blot text = if str_eq text run_failed then text else bytes "***"

blot-same : (text : Str) → str_eq (blot text) run_failed ≡ str_eq text run_failed
unfolding str_eq
blot-same text = elim (Bool-cases (str_eq text run_failed)) [
  | inl same ↦ rw same same
  | inr other ↦ rw other refl
]

sanitized-reword_example :
    sanitized_cli_error (λ host. host) (reword blot reading_failed)
    ≡ sanitized_cli_error (λ host. host) reading_failed
sanitized-reword_example = sanitized-reword blot blot-same (λ host. host) reading_failed

nothing_leaks :
    sanitized_cli_error (λ host. host) reading_failed ≡ bytes "{\"category\":\"command_failed\"}"
unfolding str_eq find_connect find_safety generic_text safety_text connect_text sanitized_cli_error
nothing_leaks = refl

-- A network where everything answers: a socket is the name dialled.
abbrev answering : Network
answering = record {
  Tcp = Str;
  Stream = Str;
  Certificate = ℕ;
  PrivateKey = ℕ;
  ClientConfig = List ℕ;
  tcp_connect = λ server timeout. some server;
  set_nodelay = λ socket. true;
  plain = λ socket. socket;
  is_server_name = λ name. true;
  read_file = λ path. some path;
  certificates = λ pem. [];
  private_key = λ pem. some 0;
  add_root = λ roots certificate. some (roots ++ certificate ∷ []);
  no_client_auth = λ roots. roots;
  client_auth = λ roots certs key. some roots;
  tls_connect = λ config name socket timeout. some name;
}

abbrev read_any : Str → Result CliError Bytes
read_any path = ok path

abbrev two_from : Bytes → Result CliError (AppConfig ℕ)
two_from text = ok two_clients

has_dialled :
    Dials micros read_any two_from answering two_clients.target default_tls
      (validate micros read_any two_from answering (bytes "a.yaml") true false false).0
unfolding str_eq host_from_server is_loopback is_safe_participant_id resolve_templates
    for_participant has_bad_id validate_routing has_bad_alias client_ids
    validate_participants_and_routing validate_synchronization validate_tls_templates
    participant_count is_bad_rate has_invalid_bounds is_disruptive validate_environment_profile
    production_limits validate_production validate_invalid_events validate_counted validate_workload
    is_allowed_target permits_invalid_events validate_with_options structural_check connect
    read_config after_connect preflight after_policy after_structure validate_config validate
has_dialled = inr (inl refl)

validate-IsAuthorized_example :
    IsAuthorized micros read_any two_from answering
      (bytes "a.yaml")
      true
      default_options
      two_clients.target
      default_tls
      (validate micros read_any two_from answering (bytes "a.yaml") true false false).0
validate-IsAuthorized_example =
    validate-IsAuthorized micros read_any two_from answering (bytes "a.yaml") true false false
      two_clients.target default_tls has_dialled

abbrev no_name : ThresholdViolation micros → Str
no_name violation = bytes "Violation"

abbrev quick : Observed micros no_name ℕ
quick = record {
  version = bytes "0.1.0";
  started_at = 0;
  finished_at = 2;
  elapsed = from_secs 2;
  snapshots = [];
  final_snapshot = no_snapshot;
  outcome = ok (record { assertions = []; participant_failures = [] });
}

abbrev with_lines : RunArgs ℕ
with_lines = record {
  config = some (bytes "a.yaml");
  server = none;
  environment = none;
  profile = none;
  clients = none;
  max_clients = none;
  duration = none;
  gps_interval = none;
  max_rate = none;
  json = some (bytes "report.json");
  lifecycle_jsonl = true;
  acknowledge_authorization = true;
  allow_production = false;
  allow_invalid_events = false;
}

abbrev write_any : Str → RunReport ℕ ℕ → Result CliError Unit
write_any path report = ok tt

run-IsQuiet_example :
    All IsQuiet
      (run micros read_any two_from no_name
        (λ ms. bytes "1.00")
        (λ config. quick)
        write_any
        with_lines
        none).0
run-IsQuiet_example =
    run-IsQuiet micros read_any two_from no_name (λ ms. bytes "1.00") (λ config. quick) write_any
      with_lines none refl
