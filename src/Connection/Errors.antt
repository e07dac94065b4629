-- ===== src/Connection/Errors.antt =====
-- src/connection.rs: ConnectError and its classification. The underlying causes are not kept.
use tak_bench.Prelude.{Bool, true, false, if◌then◌else◌}
use tak_bench.Report.Types.{
  ErrorPhase, connect, tls_handshake, ErrorCategory, tcp_connect_failed, tls_handshake_failed,
  ca_load_failed, client_certificate_load_failed, client_key_load_failed, tls_configuration_failed,
}

pub data ConnectError : Type 0 where
  tcp handshake ca_load client_certificate_load client_key_load tls_configuration : ConnectError

unfoldable pub is_tls : ConnectError → Bool
is_tls tcp = false
is_tls other = true

unfoldable pub category : ConnectError → ErrorCategory
category tcp = tcp_connect_failed
category handshake = tls_handshake_failed
category ca_load = ca_load_failed
category client_certificate_load = client_certificate_load_failed
category client_key_load = client_key_load_failed
category tls_configuration = tls_configuration_failed

unfoldable pub phase : ConnectError → ErrorPhase
unfolding is_tls
phase e = if is_tls e then tls_handshake else connect
