-- ===== src/Safety/Options.antt =====
-- src/safety.rs and src/main.rs (validate): what an opt-in or an acknowledgement can change.
use tak_bench.Prelude.{
  Bool, true, ◌&&◌, ◌||◌, ◌↔◌, not, ◌≡◌, refl, Result, ok, arith, fail_if, ◌>>◌,
}
use tak_bench.Prelude.Bytes.{Str}
use tak_bench.Prelude.Float.{Float}
use tak_bench.Config.Enums.{Environment, local, staging, temporary, production, environment_eq}
use tak_bench.Config.Host.{host_from_server}
use tak_bench.Config.Types.{AppConfig}
use tak_bench.Safety.Errors.{
  SafetyError, SafetyOptions, authorization_required, host_not_allowed, production_not_allowed,
  invalid_events_not_allowed,
}
use tak_bench.Safety.Participants.{
  validate_participants_and_routing, validate_synchronization, validate_tls_templates, client_ids,
}
use tak_bench.Safety.Workload.{
  participant_count, has_invalid_bounds, validate_environment_profile, validate_production,
  production_limits, is_disruptive, validate_invalid_events, validate_counted, validate_workload,
  is_local_or_temporary,
}
use tak_bench.Safety.Policy.{is_allowed_target, permits_invalid_events, validate_with_options}

-- The guards of `validate_with_options`, on the values they look at
abbrev guards :
    Bool
    → Bool
    → Str
    → Result SafetyError Unit
    → Environment
    → Bool
    → SafetyOptions
    → Result SafetyError Unit
guards acknowledged allowed host workload environment invalid options =
    fail_if (not acknowledged) authorization_required
    >> (fail_if (not allowed) (host_not_allowed host)
        >> (workload
            >> (fail_if (environment_eq environment production && not options.allow_production)
                  production_not_allowed
                >> fail_if
                    (invalid
                      && not (
                          is_local_or_temporary environment
                          || environment_eq environment staging && options.allow_invalid_events))
                    invalid_events_not_allowed)))

abbrev pub all_options : SafetyOptions
all_options = record { allow_production = true; allow_invalid_events = true }

NeedsMet : Bool → Environment → Bool → SafetyOptions → Type 0
NeedsMet acknowledged environment invalid options =
    (acknowledged ≡ true)
    × (environment ≡ production → options.allow_production ≡ true)
    × (environment ≡ staging → invalid ≡ true → options.allow_invalid_events ≡ true)

guards_to :
    (acknowledged allowed : Bool) (host : Str) (workload : Result SafetyError Unit)
    (environment : Environment) (invalid : Bool) (options : SafetyOptions)
    → guards acknowledged allowed host workload environment invalid options ≡ ok tt
    → (guards true allowed host workload environment invalid all_options ≡ ok tt)
      × NeedsMet acknowledged environment invalid options
unfolding NeedsMet
guards_to acknowledged allowed host workload environment invalid options h = (
  ground (arith, h),
  (ground (arith, h), λ e. ground (arith, h, e), λ e e'. ground (arith, h, e, e')),
)

guards_from :
    (acknowledged allowed : Bool) (host : Str) (workload : Result SafetyError Unit)
    (environment : Environment) (invalid : Bool) (options : SafetyOptions)
    → guards true allowed host workload environment invalid all_options ≡ ok tt
    → NeedsMet acknowledged environment invalid options
    → guards acknowledged allowed host workload environment invalid options ≡ ok tt
unfolding NeedsMet
guards_from acknowledged allowed host workload local invalid options h needs =
    ground (arith, h, needs.0)
guards_from acknowledged allowed host workload temporary invalid options h needs =
    ground (arith, h, needs.0)
guards_from acknowledged allowed host workload staging invalid options h needs =
    ground (arith, h, needs.0, needs.2 refl)
guards_from acknowledged allowed host workload production invalid options h needs =
    ground (arith, h, needs.0, needs.1 refl)

module _ (f : Float) where
  open f use {F64}

  -- The structural check of `tak_bench validate`
  unfoldable pub structural_check : AppConfig F64 → Result SafetyError Unit
  structural_check config =
      validate_with_options f (record config { authorization = record { acknowledged = true } })
        all_options

  same_workload :
      (config : AppConfig F64)
      → validate_workload f (record config { authorization = record { acknowledged = true } })
        ≡ validate_workload f config
  unfolding validate_workload participant_count validate_counted has_invalid_bounds
      validate_environment_profile validate_production production_limits is_disruptive
      validate_invalid_events validate_participants_and_routing validate_synchronization
      validate_tls_templates client_ids
  same_workload config = refl

  -- The two opt-ins of the command line, where the configuration needs them
  pub record IsOptedIn (config : AppConfig F64) (options : SafetyOptions) : Type 0 where
    pub acknowledged : config.authorization.acknowledged ≡ true
    pub production_allowed : config.environment ≡ production → options.allow_production ≡ true
    pub invalid_allowed :
        config.environment ≡ staging
        → config.scenario.invalid.enabled ≡ true
        → options.allow_invalid_events ≡ true

  -- A run is accepted exactly when the structural check of `tak_bench validate` accepts the
  -- configuration, authorization is acknowledged, and the opt-ins are given that production and, in
  -- staging, invalid events need: no option turns an acceptance into a rejection, and a configuration
  -- that only needs opt-ins passes the structural check.
  pub accepted_iff :
      (config : AppConfig F64) (options : SafetyOptions)
      → (validate_with_options f config options ≡ ok tt)
        ↔ ((structural_check config ≡ ok tt) × IsOptedIn config options)
  unfolding structural_check validate_with_options permits_invalid_events is_allowed_target NeedsMet
  accepted_iff config options =
      let target = is_allowed_target f config in
      let host = host_from_server config.target.server in
      let workload = validate_workload f config in
      let invalid = config.scenario.invalid.enabled in
      rw (same_workload config) (
        λ h.
            let met =
              guards_to config.authorization.acknowledged target host workload config.environment
                invalid options h in
            (
              met.0,
              record {
                acknowledged = met.1.0;
                production_allowed = met.1.1;
                invalid_allowed = met.1.2;
              },
            ),
        λ (structural, needs).
            guards_from config.authorization.acknowledged target host workload config.environment
              invalid options structural
              (needs.acknowledged, needs.production_allowed, needs.invalid_allowed),
      )
