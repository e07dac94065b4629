-- ===== src/Report/Names.antt =====
-- src/report.rs: the names of categories and phases, as serde derives them in snake case.
use tak_bench.Prelude.Bytes.{Str, bytes}
use tak_bench.Report.Types.{
  ErrorPhase, connect, tls_handshake, readiness, read, write, parse, ErrorCategory,
  tcp_connect_failed, tls_handshake_failed, ca_load_failed, client_certificate_load_failed,
  client_key_load_failed, tls_configuration_failed, readiness_timeout, peer_closed, read_failed,
  write_failed, cot_parse_failed, reconnect_exhausted, participant_task_failed,
}

unfoldable pub phase_name : ErrorPhase → Str
phase_name connect = bytes "connect"
phase_name tls_handshake = bytes "tls_handshake"
phase_name readiness = bytes "readiness"
phase_name read = bytes "read"
phase_name write = bytes "write"
phase_name parse = bytes "parse"

unfoldable pub category_name : ErrorCategory → Str
category_name tcp_connect_failed = bytes "tcp_connect_failed"
category_name tls_handshake_failed = bytes "tls_handshake_failed"
category_name ca_load_failed = bytes "ca_load_failed"
category_name client_certificate_load_failed = bytes "client_certificate_load_failed"
category_name client_key_load_failed = bytes "client_key_load_failed"
category_name tls_configuration_failed = bytes "tls_configuration_failed"
category_name readiness_timeout = bytes "readiness_timeout"
category_name peer_closed = bytes "peer_closed"
category_name read_failed = bytes "read_failed"
category_name write_failed = bytes "write_failed"
category_name cot_parse_failed = bytes "cot_parse_failed"
category_name reconnect_exhausted = bytes "reconnect_exhausted"
category_name participant_task_failed = bytes "participant_task_failed"
