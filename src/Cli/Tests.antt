-- ===== src/Cli/Tests.antt =====
-- src/main.rs: the theorems at concrete arguments.
use tak_bench.Prelude.{true, ℕ, true, false, ◌≡◌, refl, none, some, ok}
use tak_bench.Prelude.Bytes.{bytes, str_eq}
use tak_bench.Prelude.Time.{from_secs}
use tak_bench.Config.Defaults.{default_config, default_run, default_target}
use tak_bench.Config.Enums.{staging, environment_from_str, smoke}
use tak_bench.Config.Text.{
  white_space, white_space_back, drop_chars, trim, find_non_digit, parse_digits, parse_u64,
}
use tak_bench.Config.Parse.{
  split_at, split_unit, product, cli_unit, cli_scaled, cli_value, parse_cli_duration,
}
use tak_bench.Config.Types.{AppConfig}
use tak_bench.Cli.{RunArgs, choose_profile, raise_flags, apply_overrides}
use tak_bench.Cli.Overrides.{IsKept, apply_overrides-IsKept}

abbrev two_minutes : RunArgs ℕ
two_minutes = record {
  config = none;
  server = some (bytes "tak.example.org:8089");
  environment = some (bytes "staging");
  profile = none;
  clients = some 2;
  max_clients = none;
  duration = some (bytes "2m");
  gps_interval = none;
  max_rate = none;
  json = none;
  lifecycle_jsonl = false;
  acknowledge_authorization = true;
  allow_production = false;
  allow_invalid_events = false;
}

abbrev overridden : AppConfig ℕ
overridden = record default_config {
  environment = staging;
  target = record default_target { server = bytes "tak.example.org:8089" };
  run = record default_run { clients = 2; duration = from_secs 120 };
  authorization = record { acknowledged = true };
}

smoke_overridden : apply_overrides true two_minutes (some smoke) default_config ≡ ok overridden
unfolding str_eq environment_from_str white_space white_space_back drop_chars trim find_non_digit
    parse_digits parse_u64 split_at split_unit product cli_unit cli_scaled cli_value
    parse_cli_duration choose_profile raise_flags apply_overrides
smoke_overridden = refl

apply_overrides-IsKept_example : IsKept two_minutes default_config overridden
apply_overrides-IsKept_example =
    apply_overrides-IsKept true two_minutes (some smoke) default_config overridden smoke_overridden
