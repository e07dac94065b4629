-- ===== src/Scenarios/Participant.antt =====
-- src/scenarios.rs: run_participant, one round of its reconnect loop at a time. What the network, the
-- clock, the stop flag and run_connected do in a round is given with the round.
pub mod Bound
pub mod Settled
pub mod Sessions
mod Tests
use tak_bench.Prelude.{
  ℕ, ◌+◌, Bool, true, false, ◌&&◌, ◌||◌, not, List, [], ◌∷◌, ◌++◌, ltb, leb, if◌then◌else◌, Result,
  ok, err, is_err,
}
use tak_bench.Prelude.Bytes.{Str}
use tak_bench.Prelude.Time.{Duration}
use tak_bench.Config.Tls.{TlsTemplateError, for_participant}
use tak_bench.Config.Types.{ReconnectConfig, TlsConfig}
use tak_bench.Connection.Errors.{ConnectError, is_tls}
use tak_bench.Lifecycle.{
  LifecycleEvent, participant_connected, participant_ready, participant_disconnected,
}
use tak_bench.Metrics.{
  Histograms, Metrics, Counters, fetch_add, fetch_sub, record_handshake, record_recovery,
}
use tak_bench.Scenarios.Batch.{Stage, going, ended, stopped, ◌and_then◌}
use tak_bench.Scenarios.Errors.{
  AnyError, connect_cause, template_cause, runtime_cause, ParticipantRuntimeError, is_tls_failure,
  disconnect_reason,
}
use tak_bench.Scenarios.Ledger.{CorrelationLedger}
use tak_bench.Scenarios.Readiness.{ReadinessBarrier, mark_ready}

module _ (h : Histograms) where
  -- What the participants of a run share
  pub record Shared : Type 0 where
    pub metrics : Metrics h
    pub ledger : CorrelationLedger
    pub barrier : ReadinessBarrier

  -- A session: the times measured, what run_connected returns and does to what is shared, and whether
  -- the stop flag is up and the deadline past when it is over
  pub record Session : Type 0 where
    pub handshake_time : Duration
    pub recovery : Duration
    pub run : Shared → Result AnyError Unit × Shared
    pub stop_raised : Bool
    pub late : Bool

  -- How the `select!` around `connect` ends
  pub data Answer : Type 0 where
    interrupted : Answer
    refused : ConnectError → Answer
    connected : Session → Answer

  -- One round: whether it starts at all, its answer, whether the delay before the next passes, and the
  -- stop flag where it does not
  pub record Round : Type 0 where
    pub halted : Bool
    pub answer : Answer
    pub waited : Bool
    pub stop_raised : Bool

  pub record ParticipantState : Type 0 where
    pub metrics : Metrics h
    pub ledger : CorrelationLedger
    pub barrier : ReadinessBarrier
    pub events : List LifecycleEvent
    pub attempt : ℕ

  -- The part of the state that run_connected is given
  abbrev pub shared_of : ParticipantState → Shared
  shared_of s = record { metrics = s.metrics; ledger = s.ledger; barrier = s.barrier }

  abbrev pub put_shared : Shared → ParticipantState → ParticipantState
  put_shared shared s = record s {
    metrics = shared.metrics;
    ledger = shared.ledger;
    barrier = shared.barrier;
  }

  -- A change of the counters
  unfoldable pub counting : (Counters → Counters) → ParticipantState → ParticipantState
  counting change s = record s {
    metrics = record s.metrics { counters = change s.metrics.counters };
  }

  unfoldable pub count_attempt : Counters → Counters
  count_attempt c = record c { connection_attempts = fetch_add c.connection_attempts 1 }

  unfoldable pub count_connected : Bool → Counters → Counters
  count_connected again c = record c {
    connection_successes = fetch_add c.connection_successes 1;
    active_connections = fetch_add c.active_connections 1;
    reconnects = if again then fetch_add c.reconnects 1 else c.reconnects;
  }

  unfoldable pub count_disconnected : Counters → Counters
  count_disconnected c = record c { active_connections = fetch_sub c.active_connections 1 }

  unfoldable pub count_failure : Bool → Bool → Counters → Counters
  count_failure tls again c = record c {
    connection_failures = fetch_add c.connection_failures 1;
    tls_failures = if tls then fetch_add c.tls_failures 1 else c.tls_failures;
    reconnect_failures = if again then fetch_add c.reconnect_failures 1 else c.reconnect_failures;
  }

  module _ (id : Str) (reconnect : ReconnectConfig) (tls_enabled : Bool) where
    -- From the successful connection to the call of run_connected
    unfoldable pub open_session : Session → ParticipantState → ParticipantState
    open_session session s =
        let again = ltb 0 s.attempt in
        let counted = counting (count_connected again) s in
        let timed = record_handshake h session.handshake_time counted.metrics in
        record counted {
          metrics = if again then record_recovery h session.recovery timed else timed;
          events = s.events ++ participant_connected id ∷ participant_ready id ∷ [];
          barrier = mark_ready id s.barrier;
        }

    -- The call of run_connected, to the look at its result
    unfoldable pub close_session : Session → ParticipantState → ParticipantState
    close_session session s =
        let ran = session.run (shared_of s) in
        let reason = disconnect_reason ran.0 session.stop_raised session.late in
        record (counting count_disconnected (put_shared ran.1 s)) {
          events = s.events ++ participant_disconnected id reason ∷ [];
        }

    -- The end of a round that failed: no attempt is left, or the next round after a delay
    unfoldable pub next_attempt : Bool → Bool → AnyError → ParticipantState → Stage ParticipantState
    next_attempt waited stop_raised failure s =
        if leb reconnect.max_attempts s.attempt
        then stopped (runtime_cause ParticipantRuntimeError.reconnect_exhausted ∷ []) s
        else if waited
        then going (record s { attempt = s.attempt + 1 })
        else if stop_raised
        then ended (record s { attempt = s.attempt + 1 })
        else stopped failure (record s { attempt = s.attempt + 1 })

    -- `result` of a session that is closed
    unfoldable pub after_session :
        Round → Bool → Result AnyError Unit → ParticipantState → Stage ParticipantState
    after_session round late (ok _) s = ended s
    after_session round late (err e) s =
        let failed =
          counting (count_failure (tls_enabled && is_tls_failure e) (ltb 0 s.attempt)) s in
        if not reconnect.enabled || late
        then stopped e failed
        else next_attempt round.waited round.stop_raised e failed

    unfoldable pub after_answer : Round → Answer → ParticipantState → Stage ParticipantState
    after_answer round interrupted s = ended s
    after_answer round (refused e) s =
        if not reconnect.enabled
        then stopped (connect_cause e ∷ []) (counting (count_failure (is_tls e) false) s)
        else next_attempt round.waited round.stop_raised (connect_cause e ∷ [])
            (counting (count_failure (is_tls e) true) s)
    after_answer round (connected session) s =
        let opened = open_session session s in
        after_session round session.late (session.run (shared_of opened)).0
          (close_session session opened)

    unfoldable pub participant_round : Round → ParticipantState → Stage ParticipantState
    participant_round round s =
        if round.halted then ended s else after_answer round round.answer (counting count_attempt s)

    unfoldable pub participant_rounds : List Round → ParticipantState → Stage ParticipantState
    participant_rounds [] s = going s
    participant_rounds (round ∷ rest) s =
        participant_round round s and_then λ s'. participant_rounds rest s'

  -- Where the participant's TLS settings do not resolve, it fails before its first round. Otherwise the
  -- loop starts at attempt 0.
  unfoldable pub after_template :
      Str
      → ReconnectConfig
      → List Round
      → ParticipantState
      → Result TlsTemplateError TlsConfig
      → Stage ParticipantState
  after_template id reconnect rounds s (err e) = stopped (template_cause e ∷ []) s
  after_template id reconnect rounds s (ok tls) =
      participant_rounds id reconnect tls.enabled rounds (record s { attempt = 0 })

  unfoldable pub run_participant :
      Str → ReconnectConfig → TlsConfig → List Round → ParticipantState → Stage ParticipantState
  run_participant id reconnect tls rounds s =
      after_template id reconnect rounds s (for_participant tls id)
