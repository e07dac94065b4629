-- ===== src/Scheduler/Tests.antt =====
-- src/scheduler.rs: its test, and the theorems at concrete schedules.
use tak_bench.Prelude.{ℕ, ◌≡◌, refl, List, [], ◌∷◌, ◌++◌, length, length-append, ok, err, arith}
use tak_bench.Prelude.Float.{micros}
use tak_bench.Prelude.Time.{Duration, from_secs, from_millis}
use tak_bench.Config.Enums.{linear, step, randomized}
use tak_bench.Config.Types.{SchedulerConfig}
use tak_bench.Config.Defaults.{default_scheduler}
use tak_bench.Scheduler.Delays.{
  invalid_steps, step_delays_from, step_delays, linear_delays, delays_of, start_delays,
}
use tak_bench.Scheduler.Steps.{IsSchedule, step_delays-IsSchedule}

-- A shuffle that turns the list by one place
abbrev turn : ℕ → List Duration → List Duration
turn seed [] = []
turn seed (d ∷ ds) = ds ++ d ∷ []

length-turn : (seed : ℕ) (ds : List Duration) → length (turn seed ds) ≡ length ds
length-turn seed [] = refl
length-turn seed (d ∷ ds) = omega (arith, length-append ds (d ∷ []))

abbrev spread : SchedulerConfig
spread = record default_scheduler { strategy = linear; ramp_up = from_secs 10 }

linear_spreads_clients :
    start_delays micros turn 4 spread
    ≡ ok (0 ∷ from_millis 2500 ∷ from_secs 5 ∷ from_millis 7500 ∷ [])
unfolding start_delays delays_of linear_delays
linear_spreads_clients = refl

abbrev stepped : SchedulerConfig
stepped = record default_scheduler {
  strategy = step;
  steps = record { at = from_secs 1; clients = 2 } ∷ record { at = from_secs 3; clients = 3 } ∷ [];
}

abbrev stepped_delays : List Duration
stepped_delays = from_secs 1 ∷ from_secs 1 ∷ from_secs 3 ∷ from_secs 3 ∷ []

stepped_schedule : step_delays 4 stepped ≡ ok stepped_delays
unfolding step_delays step_delays_from
stepped_schedule = refl

step_delays-IsSchedule_example : IsSchedule 4 0 0 stepped.steps stepped_delays
step_delays-IsSchedule_example = step_delays-IsSchedule 4 stepped stepped_delays stepped_schedule

too_many_clients : step_delays 2 stepped ≡ err invalid_steps
unfolding step_delays step_delays_from
too_many_clients = refl

abbrev shuffled : SchedulerConfig
shuffled = record spread { strategy = randomized }

shuffled_schedule : start_delays micros turn 3 shuffled ≡ ok (3333330000 ∷ 6666660000 ∷ 0 ∷ [])
unfolding start_delays delays_of linear_delays
shuffled_schedule = refl
