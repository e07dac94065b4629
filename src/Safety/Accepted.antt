-- ===== src/Safety/Accepted.antt =====
-- src/safety.rs: the parts of a validation that succeeds.
use tak_bench.Prelude.{
  ℕ, ◌≤◌, ◌<◌, ◌≡◌, true, false, ◌&&◌, not, length, arith, ok, ◌⊎◌, inl, inr, List, Result-cases,
}
use tak_bench.Prelude.Float.{Float}
use tak_bench.Config.Enums.{environment_eq, production}
use tak_bench.Config.Types.{AppConfig}
use tak_bench.Safety.Errors.{SafetyOptions}
use tak_bench.Safety.Participants.{
  validate_participants_and_routing, validate_synchronization, validate_tls_templates,
}
use tak_bench.Safety.Workload.{
  participant_count, has_invalid_bounds, validate_environment_profile, validate_production,
  validate_invalid_events, validate_counted, validate_workload,
}
use tak_bench.Safety.Policy.{is_allowed_target, permits_invalid_events, validate_with_options}

module _ (f : Float) where
  open f use {F64}

  -- The checks of an accepted workload of `clients` participants
  pub record IsWorkload (config : AppConfig F64) : Type 0 where
    pub some_clients : 0 < config.run.clients
    pub few_clients : config.run.clients ≤ config.run.max_clients
    pub counted :
        (config.participants ≡ List.[]) ⊎ (length config.participants ≡ config.run.clients)
    pub participants_ok : validate_participants_and_routing config ≡ ok tt
    pub synchronization_ok : validate_synchronization config ≡ ok tt
    pub bounds_ok : has_invalid_bounds f config ≡ false
    pub templates_ok : validate_tls_templates config ≡ ok tt
    pub environment_ok : validate_environment_profile f config ≡ ok tt
    pub production_ok : validate_production f config config.run.clients ≡ ok tt
    pub invalid_events_ok : validate_invalid_events f config ≡ ok tt

  participant_count-eq :
      (config : AppConfig F64) (n : ℕ)
      → participant_count f config ≡ ok n
      → (n ≡ config.run.clients)
        × ((config.participants ≡ List.[]) ⊎ (length config.participants ≡ n))
  unfolding participant_count
  participant_count-eq config n h = ground arith

  validate_counted-IsWorkload :
      (config : AppConfig F64) (n : ℕ)
      → n ≡ config.run.clients
      → (config.participants ≡ List.[]) ⊎ (length config.participants ≡ n)
      → validate_counted f config n ≡ ok tt
      → IsWorkload config
  unfolding validate_counted
  validate_counted-IsWorkload config n e c h = ground arith

  pub validate_workload-IsWorkload :
      (config : AppConfig F64) → validate_workload f config ≡ ok tt → IsWorkload config
  unfolding validate_workload
  validate_workload-IsWorkload config h = elim (Result-cases (participant_count f config)) [
    | inl (n, counted) ↦
        let (same, shape) = participant_count-eq config n counted in
        validate_counted-IsWorkload config n same shape (rw counted at h)
    | inr (e, failed) ↦ cc
  ]

  pub record IsAccepted (config : AppConfig F64) (options : SafetyOptions) : Type 0 where
    pub acknowledged : config.authorization.acknowledged ≡ true
    pub target_allowed : is_allowed_target f config ≡ true
    pub workload : IsWorkload config
    pub production_allowed :
        (environment_eq config.environment production && not options.allow_production) ≡ false
    pub invalid_allowed :
        (config.scenario.invalid.enabled && not (permits_invalid_events f config options)) ≡ false

  pub validate_with_options-IsAccepted :
      (config : AppConfig F64) (options : SafetyOptions)
      → validate_with_options f config options ≡ ok tt
      → IsAccepted config options
  unfolding validate_with_options
  validate_with_options-IsAccepted config options h =
      ground (arith, validate_workload-IsWorkload config)
