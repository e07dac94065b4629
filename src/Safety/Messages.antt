-- ===== src/Safety/Messages.antt =====
-- src/safety.rs: how the errors are displayed. How Rust quotes a text is a parameter.
use tak_bench.Prelude.{◌++◌}
use tak_bench.Prelude.Bytes.{Str, bytes}
use tak_bench.Config.Enums.{Profile, smoke, functional, load, stress, spike, soak, reconnect}
use tak_bench.Safety.Errors.{
  SafetyError, authorization_required, host_not_allowed, production_not_allowed, production_profile,
  production_clients, production_duration, production_rate, client_limit,
  participant_count_mismatch, no_participants, invalid_participant_id, invalid_routing_assertion,
  invalid_synchronization, unsupported_workload, unsupported_option, invalid_tls_templates,
  invalid_bounds, environment_profile_not_allowed, invalid_events_not_allowed, invalid_event_limit,
  slow_client_not_allowed,
}

-- The derived `Debug` of a profile
abbrev pub debug_profile : Profile → Str
debug_profile smoke = bytes "Smoke"
debug_profile functional = bytes "Functional"
debug_profile load = bytes "Load"
debug_profile stress = bytes "Stress"
debug_profile spike = bytes "Spike"
debug_profile soak = bytes "Soak"
debug_profile reconnect = bytes "Reconnect"

unfoldable pub safety_message : (Str → Str) → SafetyError → Str
safety_message debug authorization_required =
    bytes "explicit authorization is required: use --acknowledge-authorization or "
    ++ bytes "authorization.acknowledged: true"
safety_message debug (host_not_allowed host) =
    bytes "target host " ++ debug host ++ bytes " is not in allow_hosts"
safety_message debug production_not_allowed = bytes "production requires --allow-production"
safety_message debug (production_profile profile) =
    bytes "profile " ++ debug_profile profile ++ bytes " is not permitted in production"
safety_message debug production_clients = bytes "production permits at most three clients"
safety_message debug production_duration = bytes "production runs may not exceed 15 minutes"
safety_message debug production_rate =
    bytes "production position interval must be at least 30 seconds"
safety_message debug client_limit = bytes "clients cannot exceed max_clients"
safety_message debug participant_count_mismatch =
    bytes "run.clients must match the number of explicit participants"
safety_message debug no_participants = bytes "at least one participant is required"
safety_message debug invalid_participant_id =
    bytes "participant aliases must be unique path-safe ASCII identifiers"
safety_message debug invalid_routing_assertion =
    bytes "routing assertions must reference participants with compatible roles"
safety_message debug invalid_synchronization =
    bytes "readiness synchronization must reference unique configured participants"
safety_message debug unsupported_workload =
    bytes "only fixed position workloads are currently implemented"
safety_message debug unsupported_option =
    bytes "the configured option is not implemented by the current runner"
safety_message debug invalid_tls_templates =
    bytes "participant TLS certificate templates are invalid"
safety_message debug invalid_bounds =
    bytes "durations, timeouts, rates, and reconnect bounds must be finite and positive"
safety_message debug environment_profile_not_allowed =
    bytes "stress, spike, soak, and disruptive scenarios are local or temporary only"
safety_message debug invalid_events_not_allowed =
    bytes "invalid event scenarios require explicit opt-in outside local or temporary "
    ++ bytes "environments"
safety_message debug invalid_event_limit =
    bytes "invalid event scenarios require max_events and are limited to one event per second"
safety_message debug slow_client_not_allowed =
    bytes "slow-client, slow-connect, and abrupt-disconnect scenarios are not permitted in "
    ++ bytes "production"
