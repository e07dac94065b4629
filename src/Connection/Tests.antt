-- ===== src/Connection/Tests.antt =====
-- src/connection.rs: the theorem at a concrete network.
use tak_bench.Prelude.{ℕ, true, ◌≡◌, refl, some, List, [], ◌∷◌, ◌++◌, ok}
use tak_bench.Prelude.Bytes.{Str, bytes}
use tak_bench.Config.Types.{TargetConfig, TlsConfig}
use tak_bench.Config.Defaults.{default_timeouts, default_tls}
use tak_bench.Config.Host.{host_from_server}
use tak_bench.Connection.Connect.{
  Network, add_roots, client_identity, build_tls_config, server_name, connect,
}
use tak_bench.Connection.Verified.{AddsRoot, IsVerified, connect-IsVerified}

-- A network where everything answers: a certificate is a number, and a session is its name.
abbrev answering : Network
answering = record {
  Tcp = Str;
  Stream = Str;
  Certificate = ℕ;
  PrivateKey = ℕ;
  ClientConfig = List ℕ;
  tcp_connect = λ server timeout. some server;
  set_nodelay = λ socket. true;
  plain = λ socket. socket;
  is_server_name = λ name. true;
  read_file = λ path. some path;
  certificates = λ pem. some 1 ∷ some 2 ∷ [];
  private_key = λ pem. some 0;
  add_root = λ roots certificate. some (roots ++ certificate ∷ []);
  no_client_auth = λ roots. roots;
  client_auth = λ roots certs key. some roots;
  tls_connect = λ config name socket timeout. some name;
}

abbrev target : TargetConfig
target = record { server = bytes "tak.example.org:8089"; sni = some (bytes "tak") }

abbrev tls : TlsConfig
tls = record default_tls { enabled = true; ca = some (bytes "ca.pem") }

session_for_the_sni : connect answering target tls default_timeouts ≡ ok (bytes "tak")
unfolding host_from_server add_roots client_identity build_tls_config server_name connect
session_for_the_sni = refl

answering-AddsRoot : AddsRoot answering
answering-AddsRoot roots more certificate h = cc

connect-IsVerified_example : IsVerified answering target tls default_timeouts (bytes "tak")
connect-IsVerified_example =
    connect-IsVerified answering answering-AddsRoot target tls default_timeouts (bytes "tak")
      session_for_the_sni refl
