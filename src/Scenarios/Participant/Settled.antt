-- ===== src/Scenarios/Participant/Settled.antt =====
-- src/scenarios.rs: the sessions between two states of a participant.
use mathlib.Core.List.{append-nil, append_assoc}
use tak_bench.Prelude.{ℕ, ◌≡◌, ◌<◌, refl, sym, ◌∙◌, ap, List, [], ◌∷◌, ◌++◌, arith}
use tak_bench.Prelude.Bytes.{Str}
use tak_bench.Prelude.Time.{u64_mod}
use tak_bench.Lifecycle.{
  LifecycleEvent, participant_connected, participant_ready, participant_disconnected,
  DisconnectReason,
}
use tak_bench.Metrics.{Histograms, fetch_add, fetch_sub}
use tak_bench.Scenarios.Participant.{
  Shared, Answer, interrupted, refused, connected, ParticipantState,
}

-- The events of sessions that ended for these reasons
unfoldable pub sessions : Str → List DisconnectReason → List LifecycleEvent
sessions id [] = []
sessions id (reason ∷ rest) =
    participant_connected id
    ∷ participant_ready id
    ∷ participant_disconnected id reason
    ∷ sessions id rest

pub sessions-append :
    (id : Str) (first second : List DisconnectReason)
    → sessions id (first ++ second) ≡ sessions id first ++ sessions id second
unfolding sessions
sessions-append id [] second = refl
sessions-append id (reason ∷ first) second = rw (sessions-append id first second) refl

pub sub-add : (n : ℕ) → n < u64_mod → fetch_sub (fetch_add n 1) 1 ≡ n
sub-add n small = omega (arith, small)

module _ (h : Histograms) where
  -- What run_connected does leaves the number of active connections alone.
  unfoldable pub KeepsActive : Answer h → Type 0
  KeepsActive interrupted = Unit
  KeepsActive (refused e) = Unit
  KeepsActive (connected session) =
      (shared : Shared h)
      → (session.run shared).1.metrics.counters.active_connections
        ≡ shared.metrics.counters.active_connections

  -- From one state to another: whole sessions, and no connection more or less that is active
  pub record IsSettled (id : Str) (s s' : ParticipantState h) : Type 0 where
    pub reasons : List DisconnectReason
    pub logged : s'.events ≡ s.events ++ sessions id reasons
    pub active_kept : s'.metrics.counters.active_connections ≡ s.metrics.counters.active_connections

  pub IsSettled-same :
      (id : Str) (s s' : ParticipantState h)
      → s'.events ≡ s.events
      → s'.metrics.counters.active_connections ≡ s.metrics.counters.active_connections
      → IsSettled id s s'
  unfolding sessions
  IsSettled-same id s s' events active = record {
    reasons = [];
    logged = events ∙ sym (append-nil s.events);
    active_kept = active;
  }

  pub IsSettled-trans :
      (id : Str) (s s' s'' : ParticipantState h)
      → IsSettled id s s'
      → IsSettled id s' s''
      → IsSettled id s s''
  IsSettled-trans id s s' s'' first second = record {
    reasons = first.reasons ++ second.reasons;
    logged =
        second.logged
        ∙ ap (λ events. events ++ sessions id second.reasons) first.logged
        ∙ append_assoc s.events (sessions id first.reasons) (sessions id second.reasons)
        ∙ ap (λ events. s.events ++ events) (sym (sessions-append id first.reasons second.reasons));
    active_kept = second.active_kept ∙ first.active_kept;
  }
