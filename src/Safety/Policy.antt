-- ===== src/Safety/Policy.antt =====
-- src/safety.rs: validate_with_options and validate.
use tak_bench.Prelude.{Bool, false, ◌&&◌, ◌||◌, not, any, Result, fail_if, ◌>>◌}
use tak_bench.Prelude.Bytes.{str_eq}
use tak_bench.Prelude.Float.{Float}
use tak_bench.Config.Enums.{local, staging, production, environment_eq}
use tak_bench.Config.Types.{AppConfig}
use tak_bench.Config.Host.{host_from_server, is_loopback}
use tak_bench.Safety.Errors.{
  SafetyError, SafetyOptions, authorization_required, host_not_allowed, production_not_allowed,
  invalid_events_not_allowed,
}
use tak_bench.Safety.Workload.{is_local_or_temporary, validate_workload}

module _ (f : Float) where
  open f use {F64}

  -- The allowlist test on the host of the target
  unfoldable pub is_allowed_target : AppConfig F64 → Bool
  is_allowed_target config =
      let host = host_from_server config.target.server in
      environment_eq config.environment local && is_loopback host
      || any (λ allowed. str_eq allowed host) config.allow_hosts

  unfoldable pub permits_invalid_events : AppConfig F64 → SafetyOptions → Bool
  permits_invalid_events config options =
      is_local_or_temporary config.environment
      || environment_eq config.environment staging && options.allow_invalid_events

  unfoldable pub validate_with_options : AppConfig F64 → SafetyOptions → Result SafetyError Unit
  validate_with_options config options = do
    fail_if (not config.authorization.acknowledged) authorization_required
    fail_if (not (is_allowed_target config))
        (host_not_allowed (host_from_server config.target.server))
    validate_workload f config
    fail_if (environment_eq config.environment production && not options.allow_production)
        production_not_allowed
    fail_if (config.scenario.invalid.enabled && not (permits_invalid_events config options))
        invalid_events_not_allowed

  unfoldable pub validate : AppConfig F64 → Bool → Result SafetyError Unit
  validate config allow_production =
      validate_with_options config
        (record { allow_production = allow_production; allow_invalid_events = false })
