-- ===== src/Scenarios/Start/Sample.antt =====
-- src/scenarios.rs: a run with two clients, for the tests.
use tak_bench.Prelude.{ℕ, ◌≡◌, refl, true, List, [], ◌∷◌, ◌++◌, length, length-append, ok, arith}
use tak_bench.Prelude.Bytes.{Str, bytes, str_eq}
use tak_bench.Prelude.Float.{micros}
use tak_bench.Prelude.Time.{Duration, from_secs}
use tak_bench.Config.Defaults.{default_config, default_run, default_participant, default_scheduler}
use tak_bench.Config.Enums.{linear}
use tak_bench.Config.Host.{host_from_server, is_loopback}
use tak_bench.Config.Text.{decimal, decimal_from}
use tak_bench.Config.Tls.{is_safe_participant_id, for_participant}
use tak_bench.Config.Types.{AppConfig, ParticipantConfig}
use tak_bench.Safety.Errors.{default_options}
use tak_bench.Safety.Participants.{
  has_bad_id, validate_routing, has_bad_alias, client_ids, validate_participants_and_routing,
  validate_synchronization, validate_tls_templates,
}
use tak_bench.Safety.Workload.{
  participant_count, is_bad_rate, has_invalid_bounds, is_disruptive, validate_environment_profile,
  production_limits, validate_production, validate_invalid_events, validate_counted,
  validate_workload,
}
use tak_bench.Safety.Policy.{is_allowed_target, permits_invalid_events, validate_with_options}
use tak_bench.Scheduler.Delays.{linear_delays, delays_of, start_delays}
use tak_bench.Scenarios.Start.{client_participants, zip, participants, started}

abbrev pub turn : ℕ → List Duration → List Duration
turn seed [] = []
turn seed (d ∷ ds) = ds ++ d ∷ []

pub length-turn : (seed : ℕ) (ds : List Duration) → length (turn seed ds) ≡ length ds
length-turn seed [] = refl
length-turn seed (d ∷ ds) = omega (arith, length-append ds (d ∷ []))

abbrev pub two_clients : AppConfig ℕ
two_clients = record default_config {
  authorization = record { acknowledged = true };
  run = record default_run { clients = 2 };
  scheduler = record default_scheduler { strategy = linear; ramp_up = from_secs 10 };
}

abbrev pub client : Str → ParticipantConfig
client id = record default_participant { id = id }

abbrev pub tasks : List (ParticipantConfig × Duration)
tasks = (client (bytes "client-0"), 0) ∷ (client (bytes "client-1"), from_secs 5) ∷ []

pub two_started : started micros turn two_clients default_options ≡ ok tasks
unfolding str_eq host_from_server is_loopback is_safe_participant_id for_participant decimal
    decimal_from has_bad_id validate_routing has_bad_alias client_ids
    validate_participants_and_routing validate_synchronization validate_tls_templates
    participant_count is_bad_rate has_invalid_bounds is_disruptive validate_environment_profile
    production_limits validate_production validate_invalid_events validate_counted validate_workload
    is_allowed_target permits_invalid_events validate_with_options linear_delays delays_of
    start_delays client_participants zip participants started
two_started = refl
