-- ===== src/Connection/Connect.antt =====
-- src/connection.rs: connect and build_tls_config. What the operating system and the TLS library
-- answer is a parameter.
use tak_bench.Prelude.{
  Bool, not, Option, none, some, List, if◌then◌else◌, unwrap_or, Result, ok, err, fail_if, ◌>>=◌,
  ◌>>◌,
}
use tak_bench.Prelude.Bytes.{Bytes, Str}
use tak_bench.Prelude.Time.{Duration}
use tak_bench.Config.Types.{TargetConfig, TlsConfig, TimeoutConfig}
use tak_bench.Config.Host.{host_from_server}
use tak_bench.Connection.Errors.{
  ConnectError, tcp, handshake, ca_load, client_certificate_load, client_key_load,
  tls_configuration,
}

-- Sockets, files, certificates and TLS sessions. `none` is a failure or a timeout.
pub record Network : Type 1 where
  pub Tcp : Type 0
  pub Stream : Type 0
  pub Certificate : Type 0
  pub PrivateKey : Type 0
  pub ClientConfig : Type 0
  pub tcp_connect : Str → Duration → Option Tcp
  pub set_nodelay : Tcp → Bool
  pub plain : Tcp → Stream
  pub is_server_name : Str → Bool
  pub read_file : Str → Option Bytes
  -- the certificates of a PEM file in order; `none` is one that cannot be read
  pub certificates : Bytes → List (Option Certificate)
  pub private_key : Bytes → Option PrivateKey
  -- adding a root certificate to those accepted so far
  pub add_root : List Certificate → Certificate → Option (List Certificate)
  pub no_client_auth : List Certificate → ClientConfig
  pub client_auth : List Certificate → List Certificate → PrivateKey → Option ClientConfig
  pub tls_connect : ClientConfig → Str → Tcp → Duration → Option Stream

-- `.context(..).map_err(..)?`
abbrev pub or_fail : {A : Type 0} → ConnectError → Option A → Result ConnectError A
or_fail e none = err e
or_fail e (some a) = ok a

module _ (net : Network) where
  open net use {
    Tcp, Stream, Certificate, PrivateKey, ClientConfig, tcp_connect, set_nodelay, plain,
    is_server_name, read_file, certificates, private_key, add_root, no_client_auth, client_auth,
    tls_connect,
  }

  -- The loop over the CA file
  unfoldable pub add_roots :
      List Certificate → List (Option Certificate) → Result ConnectError (List Certificate)
  add_roots roots List.[] = ok roots
  add_roots roots (List.◌∷◌ none rest) = err ca_load
  add_roots roots (List.◌∷◌ (some certificate) rest) =
      or_fail ca_load (add_root roots certificate) >>= λ more. add_roots more rest

  -- `collect::<Result<Vec<_>, _>>()`
  unfoldable pub collect : List (Option Certificate) → Option (List Certificate)
  collect List.[] = some List.[]
  collect (List.◌∷◌ none rest) = none
  collect (List.◌∷◌ (some certificate) rest) = elim (collect rest) [
    | none ↦ none
    | some more ↦ some (List.◌∷◌ certificate more)
  ]

  unfoldable pub client_identity :
      List Certificate → Option Str → Option Str → Result ConnectError ClientConfig
  client_identity roots none none = ok (no_client_auth roots)
  client_identity roots (some cert_path) (some key_path) = do
    cert_pem ← or_fail client_certificate_load (read_file cert_path)
    certs ← or_fail client_certificate_load (collect (certificates cert_pem))
    key_pem ← or_fail client_key_load (read_file key_path)
    key ← or_fail client_key_load (private_key key_pem)
    or_fail tls_configuration (client_auth roots certs key)
  client_identity roots cert_path key_path = err tls_configuration

  unfoldable pub build_tls_config : TlsConfig → Result ConnectError ClientConfig
  build_tls_config tls = do
    ca_path ← or_fail tls_configuration tls.ca
    ca_pem ← or_fail ca_load (read_file ca_path)
    roots ← add_roots List.[] (certificates ca_pem)
    client_identity roots tls.client_cert tls.client_key

  -- The name that the server's certificate must be for
  unfoldable pub server_name : TargetConfig → Str
  server_name target = unwrap_or target.sni (host_from_server target.server)

  unfoldable pub connect : TargetConfig → TlsConfig → TimeoutConfig → Result ConnectError Stream
  connect target tls timeouts = do
    socket ← or_fail tcp (tcp_connect target.server timeouts.connect)
    fail_if (not (set_nodelay socket)) tcp
    if not tls.enabled then ok (plain socket) else do
      fail_if (not (is_server_name (server_name target))) tls_configuration
      config ← build_tls_config tls
      or_fail handshake (tls_connect config (server_name target) socket timeouts.tls_handshake)
