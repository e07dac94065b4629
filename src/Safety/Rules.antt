-- ===== src/Safety/Rules.antt =====
-- src/safety.rs: the authorization, environment and invalid-event rules of an accepted run.
use tak_bench.Prelude.{
  ℕ, zero, suc, ◌≤◌, ◌≡◌, refl, true, false, Option, none, some, is_some_and, is_none_or, ◌==◌, Any,
  any-Any, any, arith, ok, ◌⊎◌, inl, inr, Bool-cases,
}
use tak_bench.Prelude.Bytes.{str_eq, str_eq→eq}
use tak_bench.Prelude.Float.{Float}
use tak_bench.Prelude.Time.{from_secs}
use tak_bench.Config.Enums.{local, staging, temporary}
use tak_bench.Config.Types.{AppConfig}
use tak_bench.Config.Host.{host_from_server, is_loopback}
use tak_bench.Safety.Errors.{SafetyOptions}
use tak_bench.Safety.Workload.{
  is_stressful, is_disruptive, production_limits, validate_environment_profile, validate_production,
  validate_invalid_events,
}
use tak_bench.Safety.Policy.{is_allowed_target, permits_invalid_events, validate_with_options}
use tak_bench.Safety.Accepted.{validate_with_options-IsAccepted}

positive_events :
    (events : Option ℕ)
    → is_none_or events (λ n. n == 0) ≡ false
    → (n : ℕ) × (events ≡ some (suc n))
positive_events none h = cc
positive_events (some zero) h = cc
positive_events (some (suc n)) h = (n, refl)

module _ (f : Float) where
  open f use {F64, literal, gt}

  -- A run is accepted only with an acknowledgement, and against a listed host or a local loopback.
  pub accepted_target :
      (config : AppConfig F64) (options : SafetyOptions)
      → validate_with_options f config options ≡ ok tt
      → (config.authorization.acknowledged ≡ true)
        × ((config.environment ≡ local)
              × (is_loopback (host_from_server config.target.server) ≡ true)
            ⊎ Any (λ allowed. allowed ≡ host_from_server config.target.server) config.allow_hosts)
  unfolding is_allowed_target
  accepted_target config options h =
      let accepted = validate_with_options-IsAccepted f config options h in
      let host = host_from_server config.target.server in
      (
        accepted.acknowledged,
        elim (Bool-cases (any (λ allowed. str_eq allowed host) config.allow_hosts)) [
          | inl listed ↦ inr (
              any-Any _ (λ allowed. str_eq allowed host) config.allow_hosts
                (λ x e. str_eq→eq x host e) listed)
          | inr unlisted ↦ inl (ground arith, ground arith)
        ],
      )

  abbrev IsDisruptiveRun : AppConfig F64 → Type 0
  IsDisruptiveRun config =
      (is_stressful config.run.profile ≡ true) ⊎ (is_disruptive f config ≡ true)

  local_only :
      (config : AppConfig F64)
      → validate_environment_profile f config ≡ ok tt
      → validate_production f config config.run.clients ≡ ok tt
      → IsDisruptiveRun config
      → (config.environment ≡ local) ⊎ (config.environment ≡ temporary)
  unfolding validate_environment_profile validate_production production_limits
  local_only config e p d = ground arith

  -- Stressful profiles and disruptive controls are accepted in local and temporary environments only.
  pub disruption_is_local :
      (config : AppConfig F64) (options : SafetyOptions)
      → validate_with_options f config options ≡ ok tt
      → (is_stressful config.run.profile ≡ true) ⊎ (is_disruptive f config ≡ true)
      → (config.environment ≡ local) ⊎ (config.environment ≡ temporary)
  disruption_is_local config options h d =
      let workload = (validate_with_options-IsAccepted f config options h).workload in
      local_only config workload.environment_ok workload.production_ok d

  -- Accepted invalid events are bounded in number and rate.
  pub invalid_events_bounded :
      (config : AppConfig F64) (options : SafetyOptions)
      → validate_with_options f config options ≡ ok tt
      → config.scenario.invalid.enabled ≡ true
      → ((n : ℕ) × (config.scenario.invalid.max_events ≡ some (suc n)))
        × (from_secs 1 ≤ config.run.gps_interval)
        × (is_some_and config.run.max_rate (λ rate. gt rate (literal 1 1)) ≡ false)
        × ((config.environment ≡ local)
            ⊎ (config.environment ≡ temporary)
            ⊎ (config.environment ≡ staging) × (options.allow_invalid_events ≡ true))
  unfolding permits_invalid_events validate_invalid_events
  invalid_events_bounded config options h on =
      let accepted = validate_with_options-IsAccepted f config options h in
      let valid = accepted.workload.invalid_events_ok in
      let allowed = accepted.invalid_allowed in
      (
        positive_events config.scenario.invalid.max_events (ground arith),
        ground arith,
        ground arith,
        ground arith,
      )
