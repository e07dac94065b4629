-- ===== src/Safety/Errors.antt =====
-- src/safety.rs: the errors and the options.
use tak_bench.Prelude.{Bool}
use tak_bench.Prelude.Bytes.{Str}
use tak_bench.Config.Enums.{Profile}

pub data SafetyError : Type 0 where
  authorization_required : SafetyError
  host_not_allowed : Str → SafetyError
  production_not_allowed : SafetyError
  production_profile : Profile → SafetyError
  production_clients : SafetyError
  production_duration : SafetyError
  production_rate : SafetyError
  client_limit : SafetyError
  participant_count_mismatch : SafetyError
  no_participants : SafetyError
  invalid_participant_id : SafetyError
  invalid_routing_assertion : SafetyError
  invalid_synchronization : SafetyError
  unsupported_workload : SafetyError
  unsupported_option : SafetyError
  invalid_tls_templates : SafetyError
  invalid_bounds : SafetyError
  environment_profile_not_allowed : SafetyError
  invalid_events_not_allowed : SafetyError
  invalid_event_limit : SafetyError
  slow_client_not_allowed : SafetyError

pub record SafetyOptions : Type 0 where
  pub allow_production : Bool
  pub allow_invalid_events : Bool

abbrev pub default_options : SafetyOptions
default_options = record { allow_production = Bool.false; allow_invalid_events = Bool.false }
