-- ===== src/Scenarios/Participant/Bound.antt =====
-- src/scenarios.rs: the reconnect loop ends within its budget of rounds.
use tak_bench.Prelude.{
  ℕ, suc, ◌+◌, ◌≤◌, ◌<◌, ◌≡◌, refl, Bool, true, false, ◌||◌, not, List, [], ◌∷◌, leb, length,
  if◌then◌else◌, Result, ok, err, arith, inl, inr, Bool-cases,
}
use tak_bench.Prelude.Bytes.{Str}
use tak_bench.Config.Tls.{TlsTemplateError, for_participant}
use tak_bench.Config.Types.{ReconnectConfig, TlsConfig}
use tak_bench.Metrics.{Histograms}
use tak_bench.Scenarios.Batch.{Stage, going, ended, stopped, ◌and_then◌}
use tak_bench.Scenarios.Stages.{IsOver}
use tak_bench.Scenarios.Errors.{AnyError, connect_cause}
use tak_bench.Connection.Errors.{is_tls}
use tak_bench.Scenarios.Participant.{
  Round, Answer, interrupted, refused, connected, ParticipantState, counting, next_attempt,
  after_session, after_answer, participant_round, participant_rounds, run_participant,
  after_template, count_attempt, count_failure, open_session, close_session,
}

-- How many rounds a participant may dial: one, and as many more as there are reconnect attempts
unfoldable pub budget : ReconnectConfig → ℕ
budget reconnect = if reconnect.enabled then reconnect.max_attempts + 1 else 1

budget-positive : (reconnect : ReconnectConfig) → 0 < budget reconnect
unfolding budget
budget-positive reconnect = ground arith

module _ (h : Histograms) (id : Str) (reconnect : ReconnectConfig) (tls_enabled : Bool) where
  -- A round that goes on has used an attempt that was left.
  abbrev GoesOn : ℕ → Stage (ParticipantState h) → Type 0
  GoesOn attempt (going s) =
      (s.attempt ≡ attempt + 1) × (reconnect.enabled ≡ true) × (attempt < reconnect.max_attempts)
  GoesOn attempt (ended s) = Unit
  GoesOn attempt (stopped e s) = Unit

  choice-GoesOn :
      (attempt : ℕ) (test : Bool) (x y : Stage (ParticipantState h))
      → (test ≡ true → GoesOn attempt x)
      → (test ≡ false → GoesOn attempt y)
      → GoesOn attempt (if test then x else y)
  choice-GoesOn attempt true x y hx hy = hx refl
  choice-GoesOn attempt false x y hx hy = hy refl

  next_attempt-GoesOn :
      (waited stop_raised : Bool) (e : AnyError) (s : ParticipantState h)
      → reconnect.enabled ≡ true
      → GoesOn s.attempt (next_attempt h id reconnect tls_enabled waited stop_raised e s)
  unfolding next_attempt
  next_attempt-GoesOn waited stop_raised e s on =
      elim (Bool-cases (leb reconnect.max_attempts s.attempt)) [
        | inl spent ↦ rw spent tt
        | inr left ↦ elim (Bool-cases waited) [
          | inl waits ↦ rw (left, waits) (refl, on, ground (arith, left))
          | inr cut ↦ elim (Bool-cases stop_raised) [
            | inl raised ↦ rw (left, cut, raised) tt
            | inr lowered ↦ rw (left, cut, lowered) tt
          ]
        ]
      ]

  after_session-GoesOn :
      (round : Round h) (late : Bool) (result : Result AnyError Unit) (s : ParticipantState h)
      → GoesOn s.attempt (after_session h id reconnect tls_enabled round late result s)
  unfolding after_session counting
  after_session-GoesOn round late (ok _) s = tt
  after_session-GoesOn round late (err e) s = elim (Bool-cases (not reconnect.enabled || late)) [
    | inl final ↦ rw final tt
    | inr retried ↦
        rw retried
          (next_attempt-GoesOn round.waited round.stop_raised e _ (ground (arith, retried)))
  ]

  after_answer-GoesOn :
      (round : Round h) (answer : Answer h) (s : ParticipantState h)
      → GoesOn s.attempt (after_answer h id reconnect tls_enabled round answer s)
  unfolding after_answer counting open_session close_session
  after_answer-GoesOn round interrupted s = tt
  after_answer-GoesOn round (refused e) s =
      choice-GoesOn s.attempt (not reconnect.enabled)
        (stopped (connect_cause e ∷ []) (counting h (count_failure h (is_tls e) false) s))
        (next_attempt h id reconnect tls_enabled round.waited round.stop_raised
          (connect_cause e ∷ []) (counting h (count_failure h (is_tls e) true) s))
        (λ off. tt)
        (λ on.
          next_attempt-GoesOn round.waited round.stop_raised (connect_cause e ∷ [])
            (counting h (count_failure h (is_tls e) true) s) (ground (arith, on)))
  after_answer-GoesOn round (connected session) s = after_session-GoesOn round session.late _ _

  participant_round-GoesOn :
      (round : Round h) (s : ParticipantState h)
      → GoesOn s.attempt (participant_round h id reconnect tls_enabled round s)
  unfolding participant_round counting
  participant_round-GoesOn round s =
      choice-GoesOn s.attempt round.halted (ended s)
        (after_answer h id reconnect tls_enabled round round.answer
          (counting h (count_attempt h) s))
        (λ halted. tt)
        (λ runs. after_answer-GoesOn round round.answer (counting h (count_attempt h) s))

  after_round-IsOver :
      (rest : List (Round h)) (attempt : ℕ) (stage : Stage (ParticipantState h))
      → budget reconnect ≤ attempt + suc (length rest)
      → GoesOn attempt stage
      → ((s : ParticipantState h)
          → budget reconnect ≤ s.attempt + length rest
          → s.attempt < budget reconnect
          → IsOver (participant_rounds h id reconnect tls_enabled rest s))
      → IsOver (stage and_then λ s. participant_rounds h id reconnect tls_enabled rest s)
  unfolding IsOver budget
  after_round-IsOver rest attempt (going s) enough on step =
      step s (omega (arith, on.0, enough)) (rw on.1 (omega (arith, on.0, on.2)))
  after_round-IsOver rest attempt (ended s) enough on step = tt
  after_round-IsOver rest attempt (stopped e s) enough on step = tt

  rounds-IsOver :
      (rounds : List (Round h)) (s : ParticipantState h)
      → budget reconnect ≤ s.attempt + length rounds
      → s.attempt < budget reconnect
      → IsOver (participant_rounds h id reconnect tls_enabled rounds s)
  unfolding participant_rounds
  rounds-IsOver [] s enough left = absurd (omega arith)
  rounds-IsOver (round ∷ rest) s enough left =
      after_round-IsOver rest s.attempt (participant_round h id reconnect tls_enabled round s)
        enough (participant_round-GoesOn round s)
        (λ s' enough' left'. rounds-IsOver rest s' enough' left')

after_template-IsOver :
    (h : Histograms) (id : Str) (reconnect : ReconnectConfig) (rounds : List (Round h))
    (s : ParticipantState h) (resolved : Result TlsTemplateError TlsConfig)
    → budget reconnect ≤ length rounds
    → IsOver (after_template h id reconnect rounds s resolved)
unfolding after_template IsOver
after_template-IsOver h id reconnect rounds s (err e) enough = tt
after_template-IsOver h id reconnect rounds s (ok tls) enough =
    rounds-IsOver h id reconnect tls.enabled rounds (record s { attempt = 0 })
      (omega (arith, enough)) (budget-positive reconnect)

-- Whatever the network does, a participant's loop has returned after as many rounds as its budget: one
-- where reconnecting is off, and one more than the reconnect attempts where it is on. A round dials at
-- most once, so no participant dials more often.
pub run_participant-IsOver :
    (h : Histograms) (id : Str) (reconnect : ReconnectConfig) (tls : TlsConfig)
    (rounds : List (Round h)) (s : ParticipantState h)
    → budget reconnect ≤ length rounds
    → IsOver (run_participant h id reconnect tls rounds s)
unfolding run_participant
run_participant-IsOver h id reconnect tls rounds s enough =
    after_template-IsOver h id reconnect rounds s (for_participant tls id) enough
