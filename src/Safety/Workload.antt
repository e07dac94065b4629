-- ===== src/Safety/Workload.antt =====
-- src/safety.rs: validate_workload, in the order of its early returns.
use tak_bench.Prelude.{
  ℕ, ◌*◌, Bool, true, false, ◌&&◌, ◌||◌, not, is_some, is_some_and, is_none_or, is_empty, any,
  length, ltb, ◌==◌, if◌then◌else◌, Result, ok, err, fail_if, ◌>>◌, ◌>>=◌,
}
use tak_bench.Prelude.Float.{Float}
use tak_bench.Prelude.Time.{u32_max, max_duration, from_secs, is_zero}
use tak_bench.Config.Enums.{
  Environment, local, staging, temporary, production, environment_eq, Profile, smoke, stress, spike,
  soak, profile_eq, kind_eq, position, movement_eq, fixed,
}
use tak_bench.Config.Types.{AppConfig}
use tak_bench.Safety.Errors.{
  SafetyError, production_profile, production_clients, production_duration, production_rate,
  client_limit, participant_count_mismatch, no_participants, unsupported_workload,
  unsupported_option, invalid_bounds, environment_profile_not_allowed, invalid_event_limit,
  slow_client_not_allowed,
}
use tak_bench.Safety.Participants.{
  validate_participants_and_routing, validate_synchronization, validate_tls_templates,
}

abbrev pub is_local_or_temporary : Environment → Bool
is_local_or_temporary local = true
is_local_or_temporary temporary = true
is_local_or_temporary _ = false

abbrev pub is_stressful : Profile → Bool
is_stressful stress = true
is_stressful spike = true
is_stressful soak = true
is_stressful _ = false

module _ (f : Float) where
  open f use {F64, literal, gt, le, is_finite, div, as_secs}

  -- `let participant_count = ..`
  unfoldable pub participant_count : AppConfig F64 → Result SafetyError ℕ
  participant_count config =
      if is_empty config.participants
      then ok config.run.clients
      else if ltb u32_max (length config.participants)
      then err client_limit
      else if not (length config.participants == config.run.clients)
      then err participant_count_mismatch
      else ok (length config.participants)

  -- The closure on `max_rate`
  unfoldable pub is_bad_rate : F64 → Bool
  is_bad_rate rate =
      let interval = div (literal 1 1) rate in
      not (is_finite rate)
      || le rate (literal 0 1)
      || not (is_finite interval)
      || gt interval (as_secs max_duration)

  unfoldable pub has_invalid_bounds : AppConfig F64 → Bool
  has_invalid_bounds config =
      is_zero config.run.duration
      || is_zero config.run.gps_interval
      || is_zero config.timeouts.connect
      || is_zero config.timeouts.tls_handshake
      || is_zero config.timeouts.read
      || is_zero config.timeouts.write
      || is_some_and config.synchronization.timeout is_zero
      || is_some_and config.run.max_rate is_bad_rate
      || config.reconnect.enabled
        && (is_zero config.reconnect.min_backoff
            || is_zero config.reconnect.max_backoff
            || ltb config.reconnect.max_backoff config.reconnect.min_backoff)

  -- `let disruptive = ..`
  unfoldable pub is_disruptive : AppConfig F64 → Bool
  is_disruptive config =
      config.scenario.slow_connect.enabled
      || config.scenario.abrupt_disconnect.enabled
      || any (λ participant. is_some participant.read_delay || is_some participant.pause_read_for)
          config.participants

  unfoldable pub validate_environment_profile : AppConfig F64 → Result SafetyError Unit
  validate_environment_profile config =
      fail_if
        (not (is_local_or_temporary config.environment) && is_stressful config.run.profile
          || environment_eq config.environment staging && is_disruptive config)
        environment_profile_not_allowed

  -- The body of `if config.environment == Environment::Production`
  unfoldable pub production_limits : AppConfig F64 → ℕ → Result SafetyError Unit
  production_limits config count = do
    fail_if (not (profile_eq config.run.profile smoke)) (production_profile config.run.profile)
    fail_if (ltb 3 count || ltb 3 config.run.max_clients) production_clients
    fail_if (ltb (from_secs (15 * 60)) config.run.duration) production_duration
    fail_if
        (ltb config.run.gps_interval (from_secs 30)
          || is_some_and config.run.max_rate (λ rate. gt rate (literal 1 10)))
        production_rate
    fail_if (is_disruptive config) slow_client_not_allowed

  unfoldable pub validate_production : AppConfig F64 → ℕ → Result SafetyError Unit
  validate_production config count =
      if environment_eq config.environment production then production_limits config count else ok tt

  unfoldable pub validate_invalid_events : AppConfig F64 → Result SafetyError Unit
  validate_invalid_events config =
      fail_if
        (config.scenario.invalid.enabled
          && (is_none_or config.scenario.invalid.max_events (λ events. events == 0)
              || is_some_and config.run.max_rate (λ rate. gt rate (literal 1 1))
              || ltb config.run.gps_interval (from_secs 1)))
        invalid_event_limit

  unfoldable pub validate_counted : AppConfig F64 → ℕ → Result SafetyError Unit
  validate_counted config count = do
    fail_if (count == 0) no_participants
    fail_if (ltb config.run.max_clients count) client_limit
    validate_participants_and_routing config
    validate_synchronization config
    fail_if (has_invalid_bounds config) invalid_bounds
    fail_if
        (not (kind_eq config.scenario.kind position)
          || not (movement_eq config.scenario.movement fixed))
        unsupported_workload
    fail_if (not (is_zero config.scheduler.ramp_down)) unsupported_option
    validate_tls_templates config
    validate_environment_profile config
    validate_production config count
    validate_invalid_events config

  unfoldable pub validate_workload : AppConfig F64 → Result SafetyError Unit
  validate_workload config = participant_count config >>= validate_counted config
