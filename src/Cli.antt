-- ===== src/Cli.antt =====
-- src/main.rs: the overrides of the command line, the structural check, and the errors it prints.
-- Reading files and writing JSON are parameters.
pub mod Overrides
pub mod Errors
pub mod Sanitized
pub mod Commands
pub mod Preflight
pub mod Quiet
pub mod Main
mod Examples
mod Tests
use tak_bench.Prelude.{
  ℕ, Bool, true, false, ◌||◌, Option, none, some, List, [], ◌∷◌, ◌++◌, Result, ok, err, ◌>>=◌,
  map_err,
}
use tak_bench.Prelude.Bytes.{Str, bytes, str_eq}
use tak_bench.Prelude.Time.{Duration}
use tak_bench.Config.Enums.{Environment, Profile, environment_from_str, profile_from_str}
use tak_bench.Config.Parse.{Parsed, parsed, rejected, panicked, parse_cli_duration}
use tak_bench.Config.Types.{AppConfig}

pub record RunArgs (F64 : Type 0) : Type 0 where
  pub config : Option Str
  pub server : Option Str
  pub environment : Option Str
  pub profile : Option Str
  pub clients : Option ℕ
  pub max_clients : Option ℕ
  pub duration : Option Str
  pub gps_interval : Option Str
  pub max_rate : Option F64
  pub json : Option Str
  pub lifecycle_jsonl : Bool
  pub acknowledge_authorization : Bool
  pub allow_production : Bool
  pub allow_invalid_events : Bool

-- An error message, or the panic of `split_at`
pub data Refusal : Type 0 where
  message : Str → Refusal
  panic : Refusal

abbrev pub duration_result : Parsed → Result Refusal Duration
duration_result (parsed d) = ok d
duration_result (rejected raw) = err (message raw)
duration_result panicked = err panic

module _ {F64 : Type 0} where
  -- `if let Some(value) = ..` with an assignment, or with one that can fail
  abbrev pub assign :
      {A : Type 0} → Option A → (A → AppConfig F64 → AppConfig F64) → AppConfig F64 → AppConfig F64
  assign none set config = config
  assign (some value) set config = set value config

  abbrev pub try_assign :
      {A : Type 0}
      → Option Str
      → (Str → Result Refusal A)
      → (A → AppConfig F64 → AppConfig F64)
      → AppConfig F64
      → Result Refusal (AppConfig F64)
  try_assign none read set config = ok config
  try_assign (some text) read set config = read text >>= λ value. ok (set value config)

  abbrev pub set_server : Str → AppConfig F64 → AppConfig F64
  set_server server config = record config { target = record config.target { server = server } }

  abbrev pub set_environment : Environment → AppConfig F64 → AppConfig F64
  set_environment environment config = record config { environment = environment }

  abbrev pub set_profile : Profile → AppConfig F64 → AppConfig F64
  set_profile profile config = record config { run = record config.run { profile = profile } }

  abbrev pub set_clients : ℕ → AppConfig F64 → AppConfig F64
  set_clients clients config = record config { run = record config.run { clients = clients } }

  abbrev pub set_max_clients : ℕ → AppConfig F64 → AppConfig F64
  set_max_clients clients config = record config {
    run = record config.run { max_clients = clients };
  }

  abbrev pub set_duration : Duration → AppConfig F64 → AppConfig F64
  set_duration duration config = record config { run = record config.run { duration = duration } }

  abbrev pub set_gps_interval : Duration → AppConfig F64 → AppConfig F64
  set_gps_interval interval config = record config {
    run = record config.run { gps_interval = interval };
  }

  abbrev pub set_max_rate : F64 → AppConfig F64 → AppConfig F64
  set_max_rate rate config = record config { run = record config.run { max_rate = some rate } }

  abbrev pub set_json : Str → AppConfig F64 → AppConfig F64
  set_json path config = record config { output = record config.output { json = some path } }

  -- The forced profile of `smoke`, or else the one of the arguments
  unfoldable pub choose_profile :
      Option Profile → Option Str → AppConfig F64 → Result Refusal (AppConfig F64)
  choose_profile (some profile) argument config = ok (set_profile profile config)
  choose_profile none argument config =
      try_assign argument (λ text. map_err message (profile_from_str text)) set_profile config

  -- `|=` for the two flags
  unfoldable pub raise_flags : RunArgs F64 → AppConfig F64 → AppConfig F64
  raise_flags args config = record config {
    output = record config.output {
      lifecycle_jsonl = config.output.lifecycle_jsonl || args.lifecycle_jsonl;
    };
    authorization = record {
      acknowledged = config.authorization.acknowledged || args.acknowledge_authorization;
    };
  }

  -- With or without checks of overflow in the products of durations
  unfoldable pub apply_overrides :
      Bool → RunArgs F64 → Option Profile → AppConfig F64 → Result Refusal (AppConfig F64)
  apply_overrides checks args forced_profile config = do
    c1 ←
        try_assign args.environment (λ text. map_err message (environment_from_str text))
          set_environment (assign args.server set_server config)
    c2 ← choose_profile forced_profile args.profile c1
    c3 ←
        try_assign args.duration (λ text. duration_result (parse_cli_duration checks text))
          set_duration
          (assign args.max_clients set_max_clients (assign args.clients set_clients c2))
    c4 ←
        try_assign args.gps_interval (λ text. duration_result (parse_cli_duration checks text))
          set_gps_interval c3
    ok (raise_flags args (assign args.json set_json (assign args.max_rate set_max_rate c4)))
