-- ===== src/Scenarios/Start/Everyone.antt =====
-- src/scenarios.rs: every participant of an accepted run is started.
use tak_bench.Prelude.{
  ℕ, zero, suc, ◌+◌, ◌≡◌, refl, sym, ◌∙◌, ap, List, [], ◌∷◌, map, length, is_empty, length-map,
  Result, ok, err, >>-eq-ok, >>=-eq-ok, ok-injective, map_err, fail_if, ltb, inl, inr, Bool-cases,
  ◌⊎◌, arith,
}
use tak_bench.Prelude.Float.{Float}
use tak_bench.Prelude.Time.{Duration, u32_max}
use tak_bench.Config.Types.{AppConfig, ParticipantConfig}
use tak_bench.Safety.Errors.{SafetyOptions}
use tak_bench.Safety.Policy.{validate_with_options}
use tak_bench.Safety.Identity.{participants_distinct}
use tak_bench.Scheduler.Delays.{start_delays}
use tak_bench.Scheduler.Counts.{length-start_delays}
use tak_bench.Scenarios.Start.{
  client_participants, zip, unsafe, too_many_participants, bad_schedule, participants, started,
}

length-client_participants : (index n : ℕ) → length (client_participants index n) ≡ n
unfolding client_participants
length-client_participants index zero = refl
length-client_participants index (suc n) = ap suc (length-client_participants (index + 1) n)

map-zip :
    {A B : Type 0} (xs : List A) (ys : List B)
    → length ys ≡ length xs
    → map (λ pair. pair.0) (zip xs ys) ≡ xs
unfolding zip
map-zip [] ys h = refl
map-zip (x ∷ xs) [] h = absurd (omega (arith, h))
map-zip (x ∷ xs) (y ∷ ys) h = ap (λ l. x ∷ l) (map-zip xs ys (omega (arith, h)))

map_err-eq-ok :
    {E F A : Type 0} (f : E → F) (r : Result E A) {a : A} → map_err f r ≡ ok a → r ≡ ok a
map_err-eq-ok f (ok a) h = cc
map_err-eq-ok f (err e) h = cc

module _ (f : Float) (shuffle : ℕ → List Duration → List Duration) where
  open f use {F64}

  length-participants :
      (config : AppConfig F64)
      → (config.participants ≡ []) ⊎ (length config.participants ≡ config.run.clients)
      → length (participants f shuffle config) ≡ config.run.clients
  unfolding participants
  length-participants config listed = elim (Bool-cases (is_empty config.participants)) [
    | inl nobody ↦ rw nobody (length-client_participants 0 config.run.clients)
    | inr somebody ↦ rw somebody (elim listed [
      | inl nobody ↦ absurd (ground (arith, nobody, somebody))
      | inr counted ↦ counted
    ])
  ]

  -- Where the shuffle keeps the length of a list, the tasks of a run that starts are its participants, in
  -- their order, each with a delay: as many as the configured clients, and none is left out.
  pub started-everyone :
      (config : AppConfig F64) (options : SafetyOptions)
      (tasks : List (ParticipantConfig × Duration))
      → ((seed : ℕ) (ds : List Duration) → length (shuffle seed ds) ≡ length ds)
      → started f shuffle config options ≡ ok tasks
      → (map (λ task. task.0) tasks ≡ participants f shuffle config)
        × (length tasks ≡ config.run.clients)
  unfolding started
  started-everyone config options tasks keeps h =
      let (valid, h1) = >>-eq-ok (map_err unsafe (validate_with_options f config options)) _ h in
      let (_, h2) =
        >>-eq-ok
          (fail_if (ltb u32_max (length (participants f shuffle config))) too_many_participants) _
          h1 in
      let (delays, planned, h3) =
        >>=-eq-ok
          (map_err bad_schedule
            (start_delays f shuffle (length (participants f shuffle config)) config.scheduler))
          _ h2 in
      let count =
        length-start_delays f shuffle (length (participants f shuffle config)) config.scheduler
          delays keeps (map_err-eq-ok bad_schedule _ planned) in
      let accepted = participants_distinct f config options (map_err-eq-ok unsafe _ valid) in
      let everyone : map (λ task. task.0) tasks ≡ participants f shuffle config =
        ap (map (λ task. task.0)) (sym (ok-injective h3))
        ∙ map-zip (participants f shuffle config) delays count in
      (
        everyone,
        sym (length-map (λ task. task.0) tasks)
            ∙ ap length everyone
            ∙ length-participants config accepted.2,
      )
