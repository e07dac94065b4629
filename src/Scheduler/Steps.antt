-- ===== src/Scheduler/Steps.antt =====
-- src/scheduler.rs: which step ramps are accepted, and what they schedule.
use tak_bench.Prelude.{
  ℕ, zero, suc, ◌+◌, ◌-◌, ◌≤◌, ◌<◌, ◌≡◌, refl, false, ltb, tests, List, [], ◌∷◌, ◌++◌, leb,
  replicate, length, length-append, length-replicate, if◌then◌else◌, ok, arith, All, inl, inr,
  Bool-cases, Result-cases,
}
use tak_bench.Prelude.Time.{Duration}
use tak_bench.Config.Types.{RampStep, SchedulerConfig}
use tak_bench.Scheduler.Delays.{is_bad_step, step_delays_from, step_delays}

-- The steps are ordered by time and by clients, and never pass the client count.
abbrev pub IsRamp : ℕ → Duration → ℕ → List RampStep → Type 0
IsRamp clients at count [] = Unit
IsRamp clients at count (s ∷ rest) =
    (at ≤ s.at) × (count ≤ s.clients) × (s.clients ≤ clients) × IsRamp clients s.at s.clients rest

-- Each client starts no earlier than the one before it.
abbrev pub Ascends : Duration → List Duration → Type 0
Ascends from [] = Unit
Ascends from (d ∷ rest) = (from ≤ d) × Ascends d rest

Ascends-weaken :
    (from earlier : Duration) (ds : List Duration)
    → earlier ≤ from
    → Ascends from ds
    → Ascends earlier ds
Ascends-weaken from earlier [] h a = tt
Ascends-weaken from earlier (d ∷ ds) h a = (omega (arith, a.0), a.1)

Ascends-replicate :
    (from at : Duration) (n : ℕ) (ds : List Duration)
    → from ≤ at
    → Ascends at ds
    → Ascends from (replicate n at ++ ds)
Ascends-replicate from at zero ds h a = Ascends-weaken at from ds h a
Ascends-replicate from at (suc n) ds h a = (h, Ascends-replicate at at n ds (omega arith) a)

-- How many clients have started by a time
abbrev pub started : Duration → List Duration → ℕ
started t [] = 0
started t (d ∷ rest) = if leb d t then suc (started t rest) else started t rest

started-append :
    (t : Duration) (xs ys : List Duration) → started t (xs ++ ys) ≡ started t xs + started t ys
started-append t [] ys = omega arith
started-append t (d ∷ xs) ys = ground (arith, started-append t xs ys)

started-replicate : (t at : Duration) (n : ℕ) → at ≤ t → started t (replicate n at) ≡ n
started-replicate t at zero h = refl
started-replicate t at (suc n) h = ground (arith, started-replicate t at n h)

Ascends-replicate_self : (at : Duration) (n : ℕ) → Ascends at (replicate n at)
Ascends-replicate_self at zero = tt
Ascends-replicate_self at (suc n) = (omega arith, Ascends-replicate_self at n)

-- By the time of a step, as many clients as it asks for have started; `earlier` are not listed.
abbrev pub Reached : List Duration → ℕ → RampStep → Type 0
Reached delays earlier s = s.clients ≤ earlier + started s.at delays

-- Clients that start before every one of these steps
Reached-later :
    (at : Duration) (n earlier clients count : ℕ) (from : Duration) (later : List Duration)
    (steps : List RampStep)
    → at ≤ from
    → IsRamp clients from count steps
    → All (Reached later (earlier + n)) steps
    → All (Reached (replicate n at ++ later) earlier) steps
Reached-later at n earlier clients count from later [] le ramp h = tt
Reached-later at n earlier clients count from later (s ∷ rest) le ramp h = (
  omega (
    arith,
    h.0,
    started-append s.at (replicate n at) later,
    started-replicate s.at at n (omega arith),
  ),
  Reached-later at n earlier clients s.clients s.at later rest (omega arith) ramp.3 h.1,
)

-- How many clients shall have started at a time: as many as the last step asks for whose time has come,
-- and all of them once the last step's has
abbrev pub planned : Duration → ℕ → ℕ → List RampStep → ℕ
planned t clients count [] = clients
planned t clients count (s ∷ rest) = if ltb t s.at then count else planned t clients s.clients rest

-- Nobody has started before the first delay.
started-Ascends :
    (t from : Duration) (ds : List Duration) → t < from → Ascends from ds → started t ds ≡ 0
started-Ascends t from [] h a = refl
started-Ascends t from (d ∷ ds) h a =
    let later = started-Ascends t d ds (omega (arith, h, a.0)) a.1 in
    let early : leb d t ≡ false = ground (arith, h, a.0) in rw early later

started-early : (t at : Duration) (n : ℕ) → t < at → started t (replicate n at) ≡ 0
started-early t at zero h = refl
started-early t at (suc n) h =
    let early : leb at t ≡ false = ground (arith, h) in rw early (started-early t at n h)

pub record IsSchedule (clients : ℕ) (at : Duration) (count : ℕ) (steps : List RampStep)
    (delays : List Duration) : Type 0 where
  pub ramp : IsRamp clients at count steps
  pub counted : count + length delays ≡ clients
  pub ascends : Ascends at delays
  -- At any time from `at` on, exactly as many clients have started as are planned.
  pub staircase : (t : Duration) → at ≤ t → count + started t delays ≡ planned t clients count steps
  pub reached : All (Reached delays count) steps

good_step :
    (clients : ℕ) (at : Duration) (count : ℕ) (s : RampStep)
    → is_bad_step clients at count s ≡ false
    → (at ≤ s.at) × (count ≤ s.clients) × (s.clients ≤ clients)
good_step clients at count s h = ground arith

step_delays_from-IsSchedule :
    (clients : ℕ) (at : Duration) (count : ℕ) (steps : List RampStep) (delays : List Duration)
    → count ≤ clients
    → step_delays_from clients at count steps ≡ ok delays
    → IsSchedule clients at count steps delays
unfolding step_delays_from
step_delays_from-IsSchedule clients at count [] delays le h =
    let e : replicate (clients - count) at ≡ delays = ground (arith, h) in
    rw (← e) (record {
      ramp = tt;
      counted = omega (arith, length-replicate (clients - count) at);
      ascends = Ascends-replicate_self at (clients - count);
      staircase = λ t from. omega (arith, started-replicate t at (clients - count) from);
      reached = tt;
    })
step_delays_from-IsSchedule clients at count (s ∷ rest) delays le h =
    elim (Bool-cases (is_bad_step clients at count s)) [
      | inl bad ↦ ground (arith, h, bad)
      | inr good ↦ elim (Result-cases (step_delays_from clients s.at s.clients rest)) [
        | inr (e, failed) ↦ ground (arith, h, good, failed)
        | inl (later, next) ↦
            let (timed, grown, bounded) = good_step clients at count s good in
            let n = s.clients - count in
            let e : replicate n s.at ++ later ≡ delays = ground (arith, h, good, next) in
            let later_ok =
              step_delays_from-IsSchedule clients s.at s.clients rest later bounded next in
            let all_before : count + n ≡ s.clients = omega (arith, grown) in
            rw (← e) (record {
              ramp = (timed, grown, bounded, later_ok.ramp);
              counted = omega (
                arith,
                length-append (replicate n s.at) later,
                length-replicate n s.at,
                later_ok.counted,
                grown,
              );
              ascends = Ascends-replicate at s.at n later timed later_ok.ascends;
              staircase = λ t from. elim (Bool-cases (ltb t s.at)) [
                | inl before ↦ rw before (
                    omega (
                      arith,
                      started-append t (replicate n s.at) later,
                      started-early t s.at n (omega (tests, before)),
                      started-Ascends t s.at later (omega (tests, before)) later_ok.ascends,
                    ))
                | inr due ↦ rw due (
                    omega (
                      arith,
                      started-append t (replicate n s.at) later,
                      started-replicate t s.at n (omega (tests, due)),
                      later_ok.staircase t (omega (tests, due)),
                      all_before,
                    ))
              ];
              reached = (
                omega (
                  arith,
                  started-append s.at (replicate n s.at) later,
                  started-replicate s.at s.at n (omega arith),
                  all_before,
                ),
                Reached-later s.at n count clients s.clients s.at later rest (omega arith)
                    later_ok.ramp (rw all_before later_ok.reached),
              );
            })
      ]
    ]

-- Accepted steps are ordered by time and by clients within the client count. Their schedule has one
-- delay for each client, in ascending order, and at any time exactly as many clients have started as the
-- last step asks for whose time has come: none before the first step, and all of them from the last on.
pub step_delays-IsSchedule :
    (clients : ℕ) (scheduler : SchedulerConfig) (delays : List Duration)
    → step_delays clients scheduler ≡ ok delays
    → IsSchedule clients 0 0 scheduler.steps delays
unfolding step_delays
step_delays-IsSchedule clients scheduler delays h =
    step_delays_from-IsSchedule clients 0 0 scheduler.steps delays (omega arith) h

ramp_accepted :
    (clients : ℕ) (at : Duration) (count : ℕ) (steps : List RampStep)
    → IsRamp clients at count steps
    → (delays : List Duration) × (step_delays_from clients at count steps ≡ ok delays)
unfolding step_delays_from
ramp_accepted clients at count [] ramp = (replicate (clients - count) at, refl)
ramp_accepted clients at count (s ∷ rest) (timed, grown, bounded, ramp) =
    let (later, next) = ramp_accepted clients s.at s.clients rest ramp in
    let good : is_bad_step clients at count s ≡ false = ground (arith, timed, grown, bounded) in
    (replicate (s.clients - count) s.at ++ later, rw (good, next))

-- Every ordered ramp is accepted.
pub step_ramp_accepted :
    (clients : ℕ) (scheduler : SchedulerConfig)
    → IsRamp clients 0 0 scheduler.steps
    → (delays : List Duration) × (step_delays clients scheduler ≡ ok delays)
unfolding step_delays
step_ramp_accepted clients scheduler ramp = ramp_accepted clients 0 0 scheduler.steps ramp
