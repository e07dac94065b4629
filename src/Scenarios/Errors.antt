-- ===== src/Scenarios/Errors.antt =====
-- src/scenarios.rs: errors as chains of causes, and their classification.
use tak_bench.Prelude.{
  Bool, true, false, Option, none, some, List, [], ◌∷◌, any, if◌then◌else◌, Result, ok, err,
}
use tak_bench.Prelude.Bytes.{Str}
use tak_bench.Config.Tls.{TlsTemplateError}
use tak_bench.Connection.Errors.{ConnectError, is_tls, category, phase}
use tak_bench.Lifecycle.{
  DisconnectReason, run_deadline, external_stop, parse_failed, connect_failed,
}
use tak_bench.Report.Types.{ErrorCategory, ErrorPhase, ParticipantFailure}

pub data ParticipantRuntimeError : Type 0 where
  peer_closed read write parse reconnect_exhausted : ParticipantRuntimeError

-- One error of a chain, as far as the program looks at its type
pub data Cause : Type 0 where
  connect_cause : ConnectError → Cause
  template_cause : TlsTemplateError → Cause
  runtime_cause : ParticipantRuntimeError → Cause
  -- an `io::Error`, and whether its kind is `InvalidData`
  io_cause : Bool → Cause
  elapsed_cause : Cause
  message_cause : Str → Cause

-- `anyhow::Error` by its `chain()`
abbrev pub AnyError : Type 0
AnyError = List Cause

abbrev pub as_connect : Cause → Option ConnectError
as_connect (connect_cause e) = some e
as_connect other = none

abbrev pub as_runtime : Cause → Option ParticipantRuntimeError
as_runtime (runtime_cause e) = some e
as_runtime other = none

abbrev pub is_template : Cause → Bool
is_template (template_cause e) = true
is_template other = false

abbrev pub is_elapsed : Cause → Bool
is_elapsed elapsed_cause = true
is_elapsed other = false

-- `find_map` over a chain
abbrev pub find_map : {A : Type 0} → (Cause → Option A) → AnyError → Option A
find_map f [] = none
find_map f (cause ∷ rest) = elim (f cause) [ some a ↦ some a | none ↦ find_map f rest ]

abbrev pub is_tls_cause : Cause → Bool
is_tls_cause (connect_cause e) = is_tls e
is_tls_cause (io_cause invalid_data) = invalid_data
is_tls_cause other = false

unfoldable pub is_tls_failure : AnyError → Bool
is_tls_failure error = any is_tls_cause error

abbrev pub runtime_category : ParticipantRuntimeError → ErrorCategory
runtime_category peer_closed = ErrorCategory.peer_closed
runtime_category read = ErrorCategory.read_failed
runtime_category write = ErrorCategory.write_failed
runtime_category parse = ErrorCategory.cot_parse_failed
runtime_category reconnect_exhausted = ErrorCategory.reconnect_exhausted

abbrev pub runtime_phase : ParticipantRuntimeError → ErrorPhase
runtime_phase peer_closed = ErrorPhase.read
runtime_phase read = ErrorPhase.read
runtime_phase write = ErrorPhase.write
runtime_phase parse = ErrorPhase.parse
runtime_phase reconnect_exhausted = ErrorPhase.connect

-- The second half of the classification, where no connection error is in the chain
unfoldable pub classify_runtime : Str → AnyError → ParticipantFailure
classify_runtime participant error =
    if any is_template error
    then (record {
      category = ErrorCategory.tls_configuration_failed;
      phase = ErrorPhase.tls_handshake;
      participant = participant;
    })
    else elim (find_map as_runtime error) [
      | some e ↦ record {
        category = runtime_category e;
        phase = runtime_phase e;
        participant = participant;
      }
      | none ↦ record {
        category = ErrorCategory.participant_task_failed;
        phase = ErrorPhase.connect;
        participant = participant;
      }
    ]

unfoldable pub classify_participant_error : Str → AnyError → ParticipantFailure
classify_participant_error participant error = elim (find_map as_connect error) [
  | some e ↦ record { category = category e; phase = phase e; participant = participant }
  | none ↦ classify_runtime participant error
]

abbrev pub reason_of : ErrorCategory → DisconnectReason
reason_of ErrorCategory.peer_closed = DisconnectReason.peer_closed
reason_of ErrorCategory.read_failed = DisconnectReason.read_failed
reason_of ErrorCategory.write_failed = DisconnectReason.write_failed
reason_of ErrorCategory.cot_parse_failed = parse_failed
reason_of ErrorCategory.readiness_timeout = DisconnectReason.readiness_timeout
reason_of ErrorCategory.reconnect_exhausted = DisconnectReason.reconnect_exhausted
reason_of other = connect_failed

-- `stopped` is the stop flag, `late` whether the deadline has passed
unfoldable pub disconnect_reason : Result AnyError Unit → Bool → Bool → DisconnectReason
disconnect_reason (err error) stopped late =
    reason_of (classify_participant_error [] error).category
disconnect_reason (ok _) stopped late =
    if stopped then external_stop else if late then run_deadline else external_stop
