-- ===== src/Scheduler/Delays.antt =====
-- src/scheduler.rs: start_delays and step_delays. The seeded shuffle is a parameter.
use tak_bench.Prelude.{
  ℕ, zero, suc, ◌+◌, ◌-◌, Bool, ◌||◌, List, [], ◌∷◌, ◌++◌, ltb, max, replicate, if◌then◌else◌,
  unwrap_or, Result, ok, err, ◌>>=◌,
}
use tak_bench.Prelude.Float.{Float}
use tak_bench.Prelude.Time.{Duration}
use tak_bench.Config.Enums.{RampStrategy, immediate, linear, step, randomized, strategy_eq}
use tak_bench.Config.Types.{RampStep, SchedulerConfig}

pub data SchedulerError : Type 0 where
  invalid_steps : SchedulerError

-- One step's condition, against the step before it
abbrev pub is_bad_step : ℕ → Duration → ℕ → RampStep → Bool
is_bad_step clients previous_at previous_clients s =
    ltb s.at previous_at || ltb s.clients previous_clients || ltb clients s.clients

-- The loop over the steps, and the clients that are left for the last of them
unfoldable pub step_delays_from :
    ℕ → Duration → ℕ → List RampStep → Result SchedulerError (List Duration)
step_delays_from clients previous_at previous_clients [] =
    ok (replicate (clients - previous_clients) previous_at)
step_delays_from clients previous_at previous_clients (s ∷ rest) =
    if is_bad_step clients previous_at previous_clients s
    then err invalid_steps
    else (step_delays_from clients s.at s.clients rest >>= λ later.
        ok (replicate (s.clients - previous_clients) s.at ++ later))

unfoldable pub step_delays : ℕ → SchedulerConfig → Result SchedulerError (List Duration)
step_delays clients scheduler = step_delays_from clients 0 0 scheduler.steps

module _ (f : Float) (shuffle : ℕ → List Duration → List Duration) where
  open f use {F64, from_u32, div, mul_duration}

  -- `(0..clients).map(..)` from an index on, for `n` clients more
  unfoldable pub linear_delays : ℕ → Duration → ℕ → ℕ → List Duration
  linear_delays clients ramp_up index zero = []
  linear_delays clients ramp_up index (suc n) =
      mul_duration ramp_up (div (from_u32 index) (from_u32 (max clients 1)))
      ∷ linear_delays clients ramp_up (index + 1) n

  unfoldable pub delays_of :
      ℕ → SchedulerConfig → RampStrategy → Result SchedulerError (List Duration)
  delays_of clients scheduler immediate = ok (replicate clients 0)
  delays_of clients scheduler linear = ok (linear_delays clients scheduler.ramp_up 0 clients)
  delays_of clients scheduler randomized = ok (linear_delays clients scheduler.ramp_up 0 clients)
  delays_of clients scheduler step = step_delays clients scheduler

  unfoldable pub start_delays : ℕ → SchedulerConfig → Result SchedulerError (List Duration)
  start_delays clients scheduler = delays_of clients scheduler scheduler.strategy >>= λ delays. ok (
      if strategy_eq scheduler.strategy randomized
      then shuffle (unwrap_or scheduler.seed 0) delays
      else delays)
