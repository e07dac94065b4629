-- ===== src/Scenarios/Connected/Roles.antt =====
-- src/scenarios.rs: what run_connected does in each role.
use tak_bench.Prelude.{
  ◌≡◌, ◌⊎◌, refl, ap, ◌∙◌, inl, inr, true, ◌&&◌, not, Option, none, some, [], ◌∷◌, ◌++◌,
}
use tak_bench.Prelude.Float.{Float}
use tak_bench.Config.Enums.{
  ParticipantRole, send_only, receive_only, send_receive, role_eq, functional, profile_eq,
}
use tak_bench.Config.Types.{AppConfig, ParticipantConfig}
use tak_bench.Metrics.{Histograms}
use tak_bench.Protocol.Event.{Formats}
use tak_bench.Protocol.Xml.{XmlLibrary}
use tak_bench.Scenarios.Batch.{Stage, ended}
use tak_bench.Scenarios.Ledger.{Uuid}
use tak_bench.Scenarios.Participant.{Shared}
use tak_bench.Scenarios.Reader.{ReadEvent}
use tak_bench.Scenarios.Reader.Kept.{read_events-Overhears}
use tak_bench.Scenarios.Readiness.{
  BarrierResult, is_ready, timed_out, was_stopped, BarrierEvent, is_satisfied, wait,
}
use tak_bench.Scenarios.Readiness.Satisfied.{wait-StaysSatisfied}
use tak_bench.Scenarios.Sender.{SenderEvent, send_positions}
use tak_bench.Scenarios.Sender.Kept.{send_positions-Speaks}
use tak_bench.Scenarios.Stages.{state_of, state_of-choice, state_of-map_stage}
use tak_bench.Scenarios.Writing.{Socket}
use tak_bench.Scenarios.Connected.Gate.{IsSilent, IsDeaf, send_and_receive-gate}
use tak_bench.Scenarios.Work.{
  Course, ConnectedState, fresh_connection, put_sender, put_reader, put_barrier, sender_of,
}
use tak_bench.Scenarios.Connected.{
  after_wait, receive_events, send_events, wait_and_send, work_by_role, run_connected,
}

roles_differ : ¬ (receive_only ≡ send_only) × ¬ (send_only ≡ receive_only)
roles_differ = (λ h. cc, λ h. cc)

both_differ : ¬ (send_receive ≡ receive_only) × ¬ (send_receive ≡ send_only)
both_differ = (λ h. cc, λ h. cc)

module _ (h : Histograms) (socket : Socket) (writer : socket.Writer) (start : Shared h) where
  module _ (f : Float) (fmt : Formats) (xml : XmlLibrary) (as_number : fmt.Uuid → Uuid)
      (config : AppConfig f.F64) (participant : ParticipantConfig) where
    -- What a participant may have done on its connection
    pub record Behaves (role : ParticipantRole) (s : ConnectedState h socket) : Type 0 where
      pub gate : IsSilent h socket writer start s ⊎ (is_satisfied s.shared.barrier ≡ true)
      pub listener_silent : role ≡ receive_only → IsSilent h socket writer start s
      pub sender_deaf : role ≡ send_only → IsDeaf h socket writer start s

    receive_events-IsSilent :
        (course : Course) (s : ConnectedState h socket)
        → s.decoder ≡ (fresh_connection h socket writer start).decoder
        → IsSilent h socket writer start s
        → IsSilent h socket writer start
            (state_of (receive_events h socket f fmt xml as_number config participant course s))
    unfolding receive_events
    receive_events-IsSilent course s fresh silent =
        let tolerate = profile_eq config.run.profile functional in
        let kept =
          read_events-Overhears h fmt xml as_number participant.id participant tolerate
            course.paused (course.reads ++ ReadEvent.deadline_reached ∷ []) s.shared.ledger
            s.shared.metrics in
        state_of-map_stage (IsSilent h socket writer start) (put_reader h socket s) _ (
          silent.0,
          kept.sent_kept ∙ silent.1,
          kept.sent_same ∙ silent.2,
          kept.dropped_same ∙ silent.3,
        )

    -- The barrier lets a sender through only where it is satisfied.
    after_wait-gate :
        (answer : Option BarrierResult) (s : ConnectedState h socket)
        (next : ConnectedState h socket → Stage (ConnectedState h socket))
        → (answer ≡ some is_ready → is_satisfied s.shared.barrier ≡ true)
        → IsSilent h socket writer start s
        → ((s' : ConnectedState h socket) → (state_of (next s')).shared.barrier ≡ s'.shared.barrier)
        → IsSilent h socket writer start (state_of (after_wait h socket answer s next))
          ⊎ (is_satisfied (state_of (after_wait h socket answer s next)).shared.barrier ≡ true)
    unfolding after_wait
    after_wait-gate none s next ready silent keeps = inl silent
    after_wait-gate (some is_ready) s next ready silent keeps =
        inr (ap is_satisfied (keeps s) ∙ ready refl)
    after_wait-gate (some timed_out) s next ready silent keeps = inl silent
    after_wait-gate (some was_stopped) s next ready silent keeps = inl silent

    send_events-barrier :
        (course : Course) (s : ConnectedState h socket)
        → (let s' =
              state_of (send_events h socket f fmt xml as_number config participant course s) in
            s'.shared.barrier ≡ s.shared.barrier)
    unfolding send_events
    send_events-barrier course s =
        state_of-map_stage (λ t. t.shared.barrier ≡ s.shared.barrier) (put_sender h socket s)
          (send_positions socket config.scenario participant.id
            (course.sends ++ SenderEvent.deadline_reached ∷ []) (sender_of h socket s))
          refl

    send_events-IsDeaf :
        (course : Course) (s : ConnectedState h socket)
        → IsDeaf h socket writer start s
        → IsDeaf h socket writer start
            (state_of (send_events h socket f fmt xml as_number config participant course s))
    unfolding send_events
    send_events-IsDeaf course s deaf =
        let events = course.sends ++ SenderEvent.deadline_reached ∷ [] in
        let kept =
          send_positions-Speaks socket config.scenario participant.id events
            (sender_of h socket s) in
        state_of-map_stage (IsDeaf h socket writer start) (put_sender h socket s)
          (send_positions socket config.scenario participant.id events (sender_of h socket s))
          (kept.seen_kept ∙ deaf.0, kept.received_same ∙ deaf.1, kept.duplicates_same ∙ deaf.2)

    after_wait-IsDeaf :
        (answer : Option BarrierResult) (s : ConnectedState h socket)
        (next : ConnectedState h socket → Stage (ConnectedState h socket))
        → IsDeaf h socket writer start s
        → (IsDeaf h socket writer start s → IsDeaf h socket writer start (state_of (next s)))
        → IsDeaf h socket writer start (state_of (after_wait h socket answer s next))
    unfolding after_wait
    after_wait-IsDeaf none s next deaf keeps = deaf
    after_wait-IsDeaf (some is_ready) s next deaf keeps = keeps deaf
    after_wait-IsDeaf (some timed_out) s next deaf keeps = deaf
    after_wait-IsDeaf (some was_stopped) s next deaf keeps = deaf

    work_by_role-Behaves :
        (role : ParticipantRole) (course : Course)
        → Behaves role (
            state_of (
              work_by_role h socket f fmt xml as_number config participant role course
                (fresh_connection h socket writer start)))
    unfolding work_by_role wait_and_send
    work_by_role-Behaves receive_only course =
        let silent =
          receive_events-IsSilent course (fresh_connection h socket writer start) refl
            (refl, refl, refl, refl) in
        record {
          gate = inl silent;
          listener_silent = λ e. silent;
          sender_deaf = λ e. absurd (roles_differ.0 e);
        }
    work_by_role-Behaves send_only course =
        let s = fresh_connection h socket writer start in
        let waits = course.waits ++ BarrierEvent.deadline_reached ∷ [] in
        let r = wait waits start.barrier in
        let next = send_events h socket f fmt xml as_number config participant course in
        record {
          gate =
              after_wait-gate r.0 (put_barrier h socket s r.1) next
                (wait-StaysSatisfied waits start.barrier).1 (refl, refl, refl, refl)
                (send_events-barrier course);
          listener_silent = λ e. absurd (roles_differ.1 e);
          sender_deaf = λ e.
              after_wait-IsDeaf r.0 (put_barrier h socket s r.1) next (refl, refl, refl)
                (send_events-IsDeaf course (put_barrier h socket s r.1));
        }
    work_by_role-Behaves send_receive course = record {
      gate =
          send_and_receive-gate h socket writer start f fmt xml as_number config participant course
            (fresh_connection h socket writer start) (refl, refl, refl, refl);
      listener_silent = λ e. absurd (both_differ.0 e);
      sender_deaf = λ e. absurd (both_differ.1 e);
    }

    -- Whatever happens on its connection, and in whatever order: a participant has written, sent and
    -- dropped nothing, or the readiness barrier is satisfied; one that only receives has written, sent
    -- and dropped nothing at all; and one that only sends has received and seen nothing.
    pub run_connected-Behaves :
        (course : Course)
        → Behaves participant.role (
            state_of
              (run_connected h socket f fmt xml as_number config participant course writer start))
    unfolding run_connected
    run_connected-Behaves course =
        state_of-choice (Behaves participant.role)
          (config.scenario.slow_connect.enabled
            && not (role_eq participant.role receive_only)
            && not course.writable)
          (ended (fresh_connection h socket writer start)) _
          (record {
            gate = inl (refl, refl, refl, refl);
            listener_silent = λ e. (refl, refl, refl, refl);
            sender_deaf = λ e. (refl, refl, refl);
          })
          (work_by_role-Behaves participant.role course)
