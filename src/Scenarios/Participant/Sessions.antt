-- ===== src/Scenarios/Participant/Sessions.antt =====
-- src/scenarios.rs: what a participant's rounds do to the lifecycle events and the active connections.
use mathlib.Core.List.{append_assoc}
use tak_bench.Prelude.{
  ◌≡◌, ◌<◌, refl, ◌∙◌, ap, Bool, true, false, ◌&&◌, ◌||◌, not, List, [], ◌∷◌, ltb, if◌then◌else◌,
  Result, ok, err, All, arith,
}
use tak_bench.Prelude.Bytes.{Str}
use tak_bench.Prelude.Time.{u64_mod}
use tak_bench.Config.Tls.{TlsTemplateError, for_participant}
use tak_bench.Config.Types.{ReconnectConfig, TlsConfig}
use tak_bench.Connection.Errors.{is_tls}
use tak_bench.Metrics.{Histograms, record_handshake, record_recovery, fetch_add, fetch_sub}
use tak_bench.Scenarios.Batch.{Stage, going, ended, stopped, ◌and_then◌}
use tak_bench.Scenarios.Errors.{AnyError, connect_cause, is_tls_failure, disconnect_reason}
use tak_bench.Scenarios.Participant.{
  Session, Round, Answer, interrupted, refused, connected, ParticipantState, counting,
  count_attempt, count_connected, count_disconnected, count_failure, next_attempt, after_session,
  after_answer, participant_round, participant_rounds, after_template, run_participant,
  open_session, close_session, shared_of,
}
use tak_bench.Scenarios.Participant.Settled.{
  sessions, sub-add, KeepsActive, IsSettled, IsSettled-same, IsSettled-trans,
}
use tak_bench.Scenarios.Stages.{state_of}

module _ (h : Histograms) where
  module _ (id : Str) (reconnect : ReconnectConfig) (tls_enabled : Bool) where
    choice-IsSettled :
        (s : ParticipantState h) (test : Bool) (x y : Stage (ParticipantState h))
        → IsSettled h id s (state_of x)
        → IsSettled h id s (state_of y)
        → IsSettled h id s (state_of (if test then x else y))
    choice-IsSettled s true x y hx hy = hx
    choice-IsSettled s false x y hx hy = hy

    counted :
        (tls again : Bool) (s : ParticipantState h)
        → IsSettled h id s (counting h (count_failure h tls again) s)
    unfolding counting count_failure
    counted tls again s = IsSettled-same h id s _ refl refl

    attempted : (s : ParticipantState h) → IsSettled h id s (counting h (count_attempt h) s)
    unfolding counting count_attempt
    attempted s = IsSettled-same h id s _ refl refl

    next_attempt-IsSettled :
        (waited stop_raised : Bool) (e : AnyError) (s s' : ParticipantState h)
        → IsSettled h id s s'
        → IsSettled h id s
            (state_of (next_attempt h id reconnect tls_enabled waited stop_raised e s'))
    unfolding next_attempt
    next_attempt-IsSettled waited stop_raised e s s' settled =
        IsSettled-trans h id s s' _ settled (IsSettled-same h id s' _ (ground arith) (ground arith))

    opened :
        (session : Session h) (s : ParticipantState h)
        → (open_session h id reconnect tls_enabled session s).metrics.counters.active_connections
          ≡ fetch_add s.metrics.counters.active_connections 1
    unfolding open_session counting count_connected record_handshake record_recovery
    opened session s = ground arith

    session-IsSettled :
        (session : Session h) (s : ParticipantState h)
        → KeepsActive h (connected session)
        → s.metrics.counters.active_connections < u64_mod
        → IsSettled h id s (
            close_session h id reconnect tls_enabled session
              (open_session h id reconnect tls_enabled session s))
    unfolding close_session open_session counting count_connected count_disconnected KeepsActive
        record_handshake record_recovery sessions
    session-IsSettled session s keeps small = record {
      reasons =
          disconnect_reason
            (session.run (shared_of h (open_session h id reconnect tls_enabled session s))).0
            session.stop_raised session.late
          ∷ [];
      logged = append_assoc s.events _ _;
      active_kept =
          ap (λ n. fetch_sub n 1)
            (keeps (shared_of h (open_session h id reconnect tls_enabled session s))
              ∙ opened session s)
          ∙ sub-add s.metrics.counters.active_connections small;
    }

    after_session-IsSettled :
        (round : Round h) (late : Bool) (result : Result AnyError Unit) (s s' : ParticipantState h)
        → IsSettled h id s s'
        → IsSettled h id s
            (state_of (after_session h id reconnect tls_enabled round late result s'))
    unfolding after_session
    after_session-IsSettled round late (ok _) s s' settled = settled
    after_session-IsSettled round late (err e) s s' settled =
        let again = ltb 0 s'.attempt in
        let failed = counting h (count_failure h (tls_enabled && is_tls_failure e) again) s' in
        let settled' =
          IsSettled-trans h id s s' failed settled
            (counted (tls_enabled && is_tls_failure e) again s') in
        choice-IsSettled s (not reconnect.enabled || late) (stopped e failed)
          (next_attempt h id reconnect tls_enabled round.waited round.stop_raised e failed) settled'
          (next_attempt-IsSettled round.waited round.stop_raised e s failed settled')

    after_answer-IsSettled :
        (round : Round h) (answer : Answer h) (s : ParticipantState h)
        → KeepsActive h answer
        → s.metrics.counters.active_connections < u64_mod
        → IsSettled h id s (state_of (after_answer h id reconnect tls_enabled round answer s))
    unfolding after_answer
    after_answer-IsSettled round interrupted s keeps small = IsSettled-same h id s s refl refl
    after_answer-IsSettled round (refused e) s keeps small =
        choice-IsSettled s (not reconnect.enabled)
          (stopped (connect_cause e ∷ []) (counting h (count_failure h (is_tls e) false) s))
          (next_attempt h id reconnect tls_enabled round.waited round.stop_raised
            (connect_cause e ∷ []) (counting h (count_failure h (is_tls e) true) s))
          (counted (is_tls e) false s)
          (next_attempt-IsSettled round.waited round.stop_raised (connect_cause e ∷ []) s
            (counting h (count_failure h (is_tls e) true) s) (counted (is_tls e) true s))
    after_answer-IsSettled round (connected session) s keeps small =
        after_session-IsSettled round session.late _ s _ (session-IsSettled session s keeps small)

    participant_round-IsSettled :
        (round : Round h) (s : ParticipantState h)
        → KeepsActive h round.answer
        → s.metrics.counters.active_connections < u64_mod
        → IsSettled h id s (state_of (participant_round h id reconnect tls_enabled round s))
    unfolding participant_round
    participant_round-IsSettled round s keeps small =
        let dialled = counting h (count_attempt h) s in
        choice-IsSettled s round.halted (ended s)
          (after_answer h id reconnect tls_enabled round round.answer dialled)
          (IsSettled-same h id s s refl refl)
          (IsSettled-trans h id s dialled _ (attempted s) (
            after_answer-IsSettled round round.answer dialled keeps
              (rw (attempted s).active_kept small)))

    after_round-IsSettled :
        (rest : List (Round h)) (s : ParticipantState h) (stage : Stage (ParticipantState h))
        → IsSettled h id s (state_of stage)
        → ((s' : ParticipantState h)
            → s'.metrics.counters.active_connections ≡ s.metrics.counters.active_connections
            → IsSettled h id s' (state_of (participant_rounds h id reconnect tls_enabled rest s')))
        → IsSettled h id s
            (state_of (stage and_then λ s'. participant_rounds h id reconnect tls_enabled rest s'))
    after_round-IsSettled rest s (going s') settled step =
        IsSettled-trans h id s s' _ settled (step s' settled.active_kept)
    after_round-IsSettled rest s (ended s') settled step = settled
    after_round-IsSettled rest s (stopped e s') settled step = settled

    participant_rounds-IsSettled :
        (rounds : List (Round h)) (s : ParticipantState h)
        → All (λ round. KeepsActive h round.answer) rounds
        → s.metrics.counters.active_connections < u64_mod
        → IsSettled h id s (state_of (participant_rounds h id reconnect tls_enabled rounds s))
    unfolding participant_rounds
    participant_rounds-IsSettled [] s keeps small = IsSettled-same h id s s refl refl
    participant_rounds-IsSettled (round ∷ rest) s keeps small =
        after_round-IsSettled rest s (participant_round h id reconnect tls_enabled round s)
          (participant_round-IsSettled round s keeps.0 small)
          (λ s' same. participant_rounds-IsSettled rest s' keeps.1 (rw same small))

  after_template-IsSettled :
      (id : Str) (reconnect : ReconnectConfig) (rounds : List (Round h)) (s : ParticipantState h)
      (resolved : Result TlsTemplateError TlsConfig)
      → All (λ round. KeepsActive h round.answer) rounds
      → s.metrics.counters.active_connections < u64_mod
      → IsSettled h id s (state_of (after_template h id reconnect rounds s resolved))
  unfolding after_template
  after_template-IsSettled id reconnect rounds s (err e) keeps small =
      IsSettled-same h id s s refl refl
  after_template-IsSettled id reconnect rounds s (ok tls) keeps small =
      let start : ParticipantState h = record s { attempt = 0 } in
      IsSettled-trans h id s start _ (IsSettled-same h id s start refl refl)
        (participant_rounds-IsSettled id reconnect tls.enabled rounds start keeps small)

-- Where what run_connected records leaves the number of active connections alone, a participant leaves
-- it as it was, however its rounds go and wherever they stop; and its lifecycle events are whole
-- sessions: connected, ready, and disconnected with a reason, in this order.
pub run_participant-IsSettled :
    (h : Histograms) (id : Str) (reconnect : ReconnectConfig) (tls : TlsConfig)
    (rounds : List (Round h)) (s : ParticipantState h)
    → All (λ round. KeepsActive h round.answer) rounds
    → s.metrics.counters.active_connections < u64_mod
    → IsSettled h id s (state_of (run_participant h id reconnect tls rounds s))
unfolding run_participant
run_participant-IsSettled h id reconnect tls rounds s keeps small =
    after_template-IsSettled h id reconnect rounds s (for_participant tls id) keeps small
