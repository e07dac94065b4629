-- ===== src/Safety/Production.antt =====
-- src/safety.rs: what an accepted run in production is held to.
use tak_bench.Prelude.{ℕ, ◌≤◌, ◌≡◌, true, false, is_some_and, arith, ok}
use tak_bench.Prelude.Float.{Float}
use tak_bench.Prelude.Time.{from_secs}
use tak_bench.Config.Enums.{production, smoke}
use tak_bench.Config.Types.{AppConfig}
use tak_bench.Safety.Errors.{SafetyOptions}
use tak_bench.Safety.Workload.{is_disruptive, production_limits, validate_production}
use tak_bench.Safety.Policy.{permits_invalid_events, validate_with_options}
use tak_bench.Safety.Accepted.{validate_with_options-IsAccepted}

module _ (f : Float) where
  open f use {F64, literal, gt}

  pub record IsProductionSafe (config : AppConfig F64) (count : ℕ) : Type 0 where
    pub only_smoke : config.run.profile ≡ smoke
    pub few_participants : count ≤ 3
    pub few_clients : config.run.max_clients ≤ 3
    pub short : config.run.duration ≤ from_secs 900
    pub slow : from_secs 30 ≤ config.run.gps_interval
    pub low_rate : is_some_and config.run.max_rate (λ rate. gt rate (literal 1 10)) ≡ false
    pub undisturbed : is_disruptive f config ≡ false

  production_limits-IsProductionSafe :
      (config : AppConfig F64) (count : ℕ)
      → production_limits f config count ≡ ok tt
      → IsProductionSafe config count
  unfolding production_limits
  production_limits-IsProductionSafe config count h = ground arith

  validate_production-IsProductionSafe :
      (config : AppConfig F64) (count : ℕ)
      → validate_production f config count ≡ ok tt
      → config.environment ≡ production
      → IsProductionSafe config count
  unfolding validate_production
  validate_production-IsProductionSafe config count h p =
      production_limits-IsProductionSafe config count (ground arith)

  -- A run that is accepted in production was opted in, sends no invalid events, has the smoke profile
  -- and nothing disruptive, at most three clients and for at most fifteen minutes, and sends at most
  -- one position in thirty seconds and at most a tenth of an event per second.
  pub production_run_limits :
      (config : AppConfig F64) (options : SafetyOptions)
      → validate_with_options f config options ≡ ok tt
      → config.environment ≡ production
      → (options.allow_production ≡ true)
        × (config.scenario.invalid.enabled ≡ false)
        × IsProductionSafe config config.run.clients
  unfolding permits_invalid_events
  production_run_limits config options h p =
      let accepted = validate_with_options-IsAccepted f config options h in
      let safe =
        validate_production-IsProductionSafe config config.run.clients
          accepted.workload.production_ok p in
      (ground arith, ground arith, safe)
