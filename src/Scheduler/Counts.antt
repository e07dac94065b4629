-- ===== src/Scheduler/Counts.antt =====
-- src/scheduler.rs: every strategy gives every client one delay.
use tak_bench.Prelude.{
  ℕ, zero, suc, ◌+◌, ◌≡◌, refl, ap, List, length, length-replicate, unwrap_or, ok, arith, inl, inr,
  Result-cases,
}
use tak_bench.Prelude.Float.{Float}
use tak_bench.Prelude.Time.{Duration}
use tak_bench.Config.Enums.{RampStrategy, immediate, linear, step, randomized}
use tak_bench.Config.Types.{SchedulerConfig}
use tak_bench.Scheduler.Delays.{linear_delays, delays_of, start_delays}
use tak_bench.Scheduler.Steps.{step_delays-IsSchedule}

module _ (f : Float) (shuffle : ℕ → List Duration → List Duration) where
  length-linear_delays :
      (clients : ℕ) (ramp_up : Duration) (index n : ℕ)
      → length (linear_delays f shuffle clients ramp_up index n) ≡ n
  unfolding linear_delays
  length-linear_delays clients ramp_up index zero = refl
  length-linear_delays clients ramp_up index (suc n) =
      ap suc (length-linear_delays clients ramp_up (index + 1) n)

  length-delays_of :
      (clients : ℕ) (scheduler : SchedulerConfig) (strategy : RampStrategy) (delays : List Duration)
      → delays_of f shuffle clients scheduler strategy ≡ ok delays
      → length delays ≡ clients
  unfolding delays_of
  length-delays_of clients scheduler immediate delays h =
      ground (arith, h, length-replicate {A = Duration} clients 0)
  length-delays_of clients scheduler linear delays h =
      ground (arith, h, length-linear_delays clients scheduler.ramp_up 0 clients)
  length-delays_of clients scheduler randomized delays h =
      ground (arith, h, length-linear_delays clients scheduler.ramp_up 0 clients)
  length-delays_of clients scheduler step delays h =
      omega (arith, (step_delays-IsSchedule clients scheduler delays h).counted)

  -- Where the shuffle keeps the length of a list, an accepted schedule has exactly one delay for each
  -- client, whatever the strategy: no client is left out and none is started twice.
  pub length-start_delays :
      (clients : ℕ) (scheduler : SchedulerConfig) (delays : List Duration)
      → ((seed : ℕ) (ds : List Duration) → length (shuffle seed ds) ≡ length ds)
      → start_delays f shuffle clients scheduler ≡ ok delays
      → length delays ≡ clients
  unfolding start_delays
  length-start_delays clients scheduler delays keeps h =
      elim (Result-cases (delays_of f shuffle clients scheduler scheduler.strategy)) [
        | inl (ds, planned) ↦ ground (
          arith,
          h,
          planned,
          length-delays_of clients scheduler scheduler.strategy ds planned,
          keeps (unwrap_or scheduler.seed 0) ds,
        )
        | inr (e, failed) ↦ ground (arith, h, failed)
      ]
