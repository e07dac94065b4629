-- ===== src/Safety/Tests.antt =====
-- src/safety.rs: its tests, and the theorems at concrete configurations.
use tak_bench.Prelude.{
  ℕ, suc, ◌≤◌, ◌<◌, ◌≡◌, refl, true, false, none, some, [], ◌∷◌, ok, err, All, Any, is_some_and,
  length, ◌⊎◌, ◌↔◌, inl,
}
use tak_bench.Prelude.Bytes.{Str, bytes, str_eq}
use tak_bench.Prelude.Float.{micros}
use tak_bench.Prelude.Time.{from_secs, from_millis}
use tak_bench.Config.Enums.{
  local, staging, temporary, production, stress, functional, send_only, receive_only, chat,
}
use tak_bench.Config.Types.{AppConfig, ParticipantConfig}
use tak_bench.Config.Defaults.{
  default_config, default_run, default_scenario, default_participant, default_routing,
}
use tak_bench.Config.Host.{host_from_server, is_loopback}
use tak_bench.Config.Tls.{is_safe_participant_id, for_participant}
use tak_bench.Safety.Errors.{
  SafetyOptions, default_options, production_not_allowed, invalid_event_limit,
  slow_client_not_allowed, participant_count_mismatch, client_limit, invalid_participant_id,
  unsupported_workload,
}
use tak_bench.Safety.Participants.{
  has_bad_id, find_participant, is_bad_assertion, validate_routing, has_bad_alias, client_ids,
  validate_participants_and_routing, validate_synchronization, validate_tls_templates,
}
use tak_bench.Safety.Workload.{
  participant_count, is_bad_rate, has_invalid_bounds, is_disruptive, validate_environment_profile,
  production_limits, validate_production, validate_invalid_events, validate_counted,
  validate_workload,
}
use tak_bench.Safety.Policy.{
  is_allowed_target, permits_invalid_events, validate_with_options, validate,
}
use tak_bench.Safety.Production.{production_run_limits, IsProductionSafe}
use tak_bench.Safety.Rules.{accepted_target, disruption_is_local, invalid_events_bounded}
use tak_bench.Safety.Options.{structural_check, IsOptedIn, accepted_iff}
use tak_bench.Safety.Identity.{
  participants_distinct, routing-IsObservable, AllNew, ids, IsObservable, IsSynchronized,
}

abbrev acknowledged : AppConfig ℕ
acknowledged = record default_config { authorization = record { acknowledged = true } }

abbrev in_production : AppConfig ℕ
in_production = record acknowledged {
  environment = production;
  allow_hosts = bytes "example.test" ∷ [];
  target = record { server = bytes "example.test:8089"; sni = none };
}

-- All that a validation computes with
validation : ℕ
unfolding str_eq host_from_server is_loopback is_safe_participant_id for_participant has_bad_id
    find_participant is_bad_assertion validate_routing has_bad_alias client_ids
    validate_participants_and_routing validate_synchronization validate_tls_templates
    participant_count is_bad_rate has_invalid_bounds is_disruptive validate_environment_profile
    production_limits validate_production validate_invalid_events validate_counted validate_workload
    is_allowed_target permits_invalid_events validate_with_options validate
validation = 0

-- The crate's tests
production_needs_explicit_opt_in : validate micros in_production false ≡ err production_not_allowed
unfolding validation
production_needs_explicit_opt_in = refl

abbrev opted_in : SafetyOptions
opted_in = record { allow_production = true; allow_invalid_events = false }

production_accepted : validate_with_options micros in_production opted_in ≡ ok tt
unfolding validation
production_accepted = refl

production_run_limits_example :
    (opted_in.allow_production ≡ true)
    × (in_production.scenario.invalid.enabled ≡ false)
    × IsProductionSafe micros in_production 1
production_run_limits_example =
    production_run_limits micros in_production opted_in production_accepted refl

accepted_target_example :
    (in_production.authorization.acknowledged ≡ true)
    × ((in_production.environment ≡ local)
          × (is_loopback (host_from_server in_production.target.server) ≡ true)
        ⊎ Any
            (λ allowed. allowed ≡ host_from_server in_production.target.server)
            in_production.allow_hosts)
accepted_target_example = accepted_target micros in_production opted_in production_accepted

abbrev invalid_half_second : AppConfig ℕ
invalid_half_second = record acknowledged {
  scenario = record default_scenario {
    invalid = record { enabled = true; kind = none; max_events = some 1 };
  };
  run = record default_run { gps_interval = from_millis 500 };
}

invalid_events_need_a_bounded_rate :
    validate micros invalid_half_second false ≡ err invalid_event_limit
unfolding validation
invalid_events_need_a_bounded_rate = refl

abbrev invalid_in_staging : AppConfig ℕ
invalid_in_staging = record invalid_half_second {
  environment = staging;
  allow_hosts = bytes "127.0.0.1" ∷ [];
  run = default_run;
}

abbrev invalid_opted_in : SafetyOptions
invalid_opted_in = record { allow_production = false; allow_invalid_events = true }

staging_accepted : validate_with_options micros invalid_in_staging invalid_opted_in ≡ ok tt
unfolding validation
staging_accepted = refl

invalid_events_bounded_example :
    ((n : ℕ) × (invalid_in_staging.scenario.invalid.max_events ≡ some (suc n)))
    × (from_secs 1 ≤ invalid_in_staging.run.gps_interval)
    × (is_some_and invalid_in_staging.run.max_rate (λ rate. micros.gt rate (micros.literal 1 1))
        ≡ false)
    × ((invalid_in_staging.environment ≡ local)
        ⊎ (invalid_in_staging.environment ≡ temporary)
        ⊎ (invalid_in_staging.environment ≡ staging)
          × (invalid_opted_in.allow_invalid_events ≡ true))
invalid_events_bounded_example =
    invalid_events_bounded micros invalid_in_staging invalid_opted_in staging_accepted refl

abbrev slow_in_production : AppConfig ℕ
slow_in_production = record in_production {
  scenario = record default_scenario {
    abrupt_disconnect = record { enabled = true; after_events = 1 };
  };
}

abrupt_disconnect_is_blocked_in_production :
    validate_with_options micros slow_in_production opted_in ≡ err slow_client_not_allowed
unfolding validation
abrupt_disconnect_is_blocked_in_production = refl

abbrev stressing : AppConfig ℕ
stressing = record acknowledged { run = record default_run { profile = stress } }

stressing_accepted : validate_with_options micros stressing default_options ≡ ok tt
unfolding validation
stressing_accepted = refl

disruption_is_local_example : (stressing.environment ≡ local) ⊎ (stressing.environment ≡ temporary)
disruption_is_local_example =
    disruption_is_local micros stressing default_options stressing_accepted (inl refl)

abbrev participant : Str → ParticipantConfig
participant id = record default_participant { id = id }

abbrev mismatched : AppConfig ℕ
mismatched = record default_config {
  participants =
      participant (bytes "participant-0")
      ∷ participant (bytes "participant-1")
      ∷ participant (bytes "participant-2")
      ∷ participant (bytes "participant-3")
      ∷ [];
}

participants_cannot_bypass_the_count :
    validate_workload micros mismatched ≡ err participant_count_mismatch
unfolding validation
participants_cannot_bypass_the_count = refl

participants_cannot_bypass_the_limit :
    validate_workload micros (record mismatched { run = record default_run { clients = 4 } })
    ≡ err client_limit
unfolding validation
participants_cannot_bypass_the_limit = refl

duplicates_are_refused :
    validate_workload micros (record default_config {
      run = record default_run { clients = 2 };
      participants = participant (bytes "duplicate") ∷ participant (bytes "duplicate") ∷ [];
    })
    ≡ err invalid_participant_id
unfolding validation
duplicates_are_refused = refl

chat_is_not_implemented :
    validate_workload micros
      (record default_config { scenario = record default_scenario { kind = chat } })
    ≡ err unsupported_workload
unfolding validation
chat_is_not_implemented = refl

abbrev routed : AppConfig ℕ
routed = record acknowledged {
  run = record default_run { clients = 2; profile = functional };
  participants =
      record default_participant { id = bytes "a1"; role = send_only }
      ∷ record default_participant { id = bytes "b1"; role = receive_only }
      ∷ [];
  synchronization = record { wait_for_ready = bytes "b1" ∷ []; timeout = some (from_secs 5) };
  scenario = record default_scenario {
    routing = record default_routing { sender = bytes "a1"; receivers = bytes "b1" ∷ [] } ∷ [];
  };
}

routed_accepted : validate_with_options micros routed default_options ≡ ok tt
unfolding validation
routed_accepted = refl

participants_distinct_example :
    All (λ p. is_safe_participant_id p.id ≡ true) routed.participants
    × AllNew [] (ids routed.participants)
    × ((routed.participants ≡ []) ⊎ (length routed.participants ≡ routed.run.clients))
    × (0 < routed.run.clients)
    × (routed.run.clients ≤ routed.run.max_clients)
participants_distinct_example = participants_distinct micros routed default_options routed_accepted

routing-IsObservable_example :
    All (IsObservable routed.participants) routed.scenario.routing × IsSynchronized routed
routing-IsObservable_example = routing-IsObservable micros routed default_options routed_accepted

accepted_iff_example :
    (validate_with_options micros invalid_in_staging invalid_opted_in ≡ ok tt) ↔ (
      (structural_check micros invalid_in_staging ≡ ok tt)
      × IsOptedIn micros invalid_in_staging invalid_opted_in)
accepted_iff_example = accepted_iff micros invalid_in_staging invalid_opted_in
