-- ===== src/Scenarios/Start.antt =====
-- src/scenarios.rs: participants, and the start of their tasks in run_fixed_positions_with_lifecycle.
pub mod Everyone
pub mod Sample
mod Tests
use tak_bench.Prelude.{
  ℕ, zero, suc, ◌+◌, Bool, List, [], ◌∷◌, ◌++◌, length, ltb, is_empty, if◌then◌else◌, Result, ok,
  err, ◌>>=◌, ◌>>◌, fail_if, map_err,
}
use tak_bench.Prelude.Bytes.{Str, bytes}
use tak_bench.Prelude.Float.{Float}
use tak_bench.Prelude.Time.{Duration, u32_max}
use tak_bench.Config.Defaults.{default_participant}
use tak_bench.Config.Text.{decimal}
use tak_bench.Config.Types.{AppConfig, ParticipantConfig}
use tak_bench.Safety.Errors.{SafetyError, SafetyOptions}
use tak_bench.Safety.Policy.{validate_with_options}
use tak_bench.Scheduler.Delays.{SchedulerError, start_delays}

-- `(0..clients).map(..)` from an index on, for `n` clients more
unfoldable pub client_participants : ℕ → ℕ → List ParticipantConfig
client_participants index zero = []
client_participants index (suc n) =
    record default_participant { id = bytes "client-" ++ decimal index }
    ∷ client_participants (index + 1) n

-- `zip`
unfoldable pub zip : {A B : Type 0} → List A → List B → List (A × B)
zip [] ys = []
zip (x ∷ xs) [] = []
zip (x ∷ xs) (y ∷ ys) = (x, y) ∷ zip xs ys

-- Why no task is started
pub data StartError : Type 0 where
  unsafe : SafetyError → StartError
  too_many_participants : StartError
  bad_schedule : SchedulerError → StartError

module _ (f : Float) (shuffle : ℕ → List Duration → List Duration) where
  open f use {F64}

  unfoldable pub participants : AppConfig F64 → List ParticipantConfig
  participants config =
      if is_empty config.participants
      then client_participants 0 config.run.clients
      else config.participants

  -- The participants that are started, each with its delay
  unfoldable pub started :
      AppConfig F64 → SafetyOptions → Result StartError (List (ParticipantConfig × Duration))
  started config options = do
    map_err unsafe (validate_with_options f config options)
    fail_if (ltb u32_max (length (participants config))) too_many_participants
    delays ←
        map_err bad_schedule
          (start_delays f shuffle (length (participants config)) config.scheduler)
    ok (zip (participants config) delays)
