-- ===== src/Report/Types.antt =====
-- src/report.rs: the status of a run and the classified failures.
use tak_bench.Prelude.Bytes.{Str}

pub data RunStatus : Type 0 where
  passed failed aborted : RunStatus

pub data ErrorPhase : Type 0 where
  connect tls_handshake readiness read write parse : ErrorPhase

pub data ErrorCategory : Type 0 where
  tcp_connect_failed tls_handshake_failed ca_load_failed : ErrorCategory
  client_certificate_load_failed client_key_load_failed : ErrorCategory
  tls_configuration_failed readiness_timeout peer_closed : ErrorCategory
  read_failed write_failed cot_parse_failed : ErrorCategory
  reconnect_exhausted participant_task_failed : ErrorCategory

pub record ParticipantFailure : Type 0 where
  pub category : ErrorCategory
  pub phase : ErrorPhase
  pub participant : Str
