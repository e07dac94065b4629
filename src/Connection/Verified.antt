-- ===== src/Connection/Verified.antt =====
-- src/connection.rs: what a connection over TLS has been checked against.
use mathlib.Core.List.{append-nil, append_assoc}
use tak_bench.Prelude.{
  true, not, ◌≡◌, refl, sym, ◌∙◌, ap, Option, none, some, List, [], ◌∷◌, ◌++◌, map, ok,
  ok-injective, unwrap_or, Option-cases, inl, inr, >>=-eq-ok, >>-eq-ok, arith, fail_if,
}
use tak_bench.Prelude.Bytes.{Bytes, Str}
use tak_bench.Config.Types.{TargetConfig, TlsConfig, TimeoutConfig}
use tak_bench.Config.Host.{host_from_server}
use tak_bench.Connection.Errors.{
  ConnectError, handshake, tcp, tls_configuration, ca_load, client_certificate_load,
  client_key_load,
}
use tak_bench.Connection.Connect.{
  Network, or_fail, collect, add_roots, client_identity, build_tls_config, server_name, connect,
}

or_fail-eq-ok :
    {A : Type 0} (e : ConnectError) (o : Option A) {a : A} → or_fail e o ≡ ok a → o ≡ some a
or_fail-eq-ok e none h = cc
or_fail-eq-ok e (some a) h = cc

some-injective : {A : Type 0} {a b : A} → some a ≡ some b → a ≡ b
some-injective h = cc

none-some : {A : Type 0} {a : A} → ¬ (none ≡ some a)
none-some h = cc

module _ (net : Network) where
  open net use {
    Tcp, Stream, ClientConfig, Certificate, PrivateKey, read_file, is_server_name, tls_connect,
    certificates, no_client_auth, add_root, private_key, client_auth,
  }

  -- The documentation of `RootCertStore::add`: a certificate that it takes is added to the store.
  abbrev pub AddsRoot : Type 0
  AddsRoot =
      (roots more : List Certificate) (certificate : Certificate)
      → add_root roots certificate ≡ some more
      → more ≡ roots ++ (certificate ∷ [])

  -- All of a PEM file's certificates can be read, and these are they.
  abbrev pub IsReadAs : Bytes → List Certificate → Type 0
  IsReadAs pem certs = certificates pem ≡ map some certs

  -- How the client identifies itself: not at all, or by a certificate chain and a key from their files
  pub data IsIdentity (roots : List Certificate) (config : ClientConfig)
      : Option Str → Option Str → Type 0 where
    anonymous : config ≡ no_client_auth roots → IsIdentity roots config none none
    certified :
        (cert_path key_path : Str) (cert_pem key_pem : Bytes) (certs : List Certificate)
        (key : PrivateKey)
        → read_file cert_path ≡ some cert_pem
        → IsReadAs cert_pem certs
        → read_file key_path ≡ some key_pem
        → private_key key_pem ≡ some key
        → client_auth roots certs key ≡ some config
        → IsIdentity roots config (some cert_path) (some key_path)

  collect-IsReadAs :
      (read : List (Option Certificate)) (certs : List Certificate)
      → collect net read ≡ some certs
      → read ≡ map some certs
  unfolding collect
  collect-IsReadAs [] certs h = ap (map some) (some-injective h)
  collect-IsReadAs (none ∷ rest) certs h = cc
  collect-IsReadAs (some certificate ∷ rest) certs h = elim (Option-cases (collect net rest)) [
    | inl failed ↦ absurd (none-some (rw failed at h))
    | inr (more, collected) ↦
        ap (λ l. some certificate ∷ l) (collect-IsReadAs rest more collected)
        ∙ ap (map some) (some-injective (rw collected at h))
  ]

  client_identity-IsIdentity :
      (roots : List Certificate) (cert key : Option Str) (config : ClientConfig)
      → client_identity net roots cert key ≡ ok config
      → IsIdentity roots config cert key
  unfolding client_identity
  client_identity-IsIdentity roots none none config h = anonymous (sym (ok-injective h))
  client_identity-IsIdentity roots (some cert_path) (some key_path) config h =
      let (cert_pem, cert_read, h1) =
        >>=-eq-ok (or_fail client_certificate_load (read_file cert_path)) _ h in
      let (certs, collected, h2) =
        >>=-eq-ok (or_fail client_certificate_load (collect net (certificates cert_pem))) _ h1 in
      let (key_pem, key_read, h3) = >>=-eq-ok (or_fail client_key_load (read_file key_path)) _ h2 in
      let (key, parsed, h4) = >>=-eq-ok (or_fail client_key_load (private_key key_pem)) _ h3 in
      certified cert_path key_path cert_pem key_pem certs key
        (or_fail-eq-ok client_certificate_load (read_file cert_path) cert_read)
        (collect-IsReadAs (certificates cert_pem) certs
          (or_fail-eq-ok client_certificate_load (collect net (certificates cert_pem)) collected))
        (or_fail-eq-ok client_key_load (read_file key_path) key_read)
        (or_fail-eq-ok client_key_load (private_key key_pem) parsed)
        (or_fail-eq-ok tls_configuration (client_auth roots certs key) h4)
  client_identity-IsIdentity roots none (some key) config h = cc
  client_identity-IsIdentity roots (some cert) none config h = cc

  -- What a TLS session rests on
  pub record IsVerified (target : TargetConfig) (tls : TlsConfig) (timeouts : TimeoutConfig)
      (stream : Stream) : Type 0 where
    pub ca_path : Str
    pub ca_pem : Bytes
    pub socket : Tcp
    pub roots : List Certificate
    pub config : ClientConfig
    pub ca_given : tls.ca ≡ some ca_path
    pub ca_read : read_file ca_path ≡ some ca_pem
    pub all_trusted : IsReadAs ca_pem roots
    pub identity : IsIdentity roots config tls.client_cert tls.client_key
    pub name_valid : is_server_name (unwrap_or target.sni (host_from_server target.server)) ≡ true
    pub session :
        tls_connect config
          (unwrap_or target.sni (host_from_server target.server))
          socket
          timeouts.tls_handshake
        ≡ some stream

  module _ (adds : AddsRoot) where
    add_roots-append :
        (read : List (Option Certificate)) (before roots : List Certificate)
        → add_roots net before read ≡ ok roots
        → (certs : List Certificate) × (read ≡ map some certs) × (roots ≡ before ++ certs)
    unfolding add_roots
    add_roots-append [] before roots h = ([], refl, sym (ok-injective h) ∙ sym (append-nil before))
    add_roots-append (none ∷ rest) before roots h = cc
    add_roots-append (some certificate ∷ rest) before roots h =
        let (more, added, h1) = >>=-eq-ok (or_fail ca_load (add_root before certificate)) _ h in
        let (certs, read, same) = add_roots-append rest more roots h1 in
        let grown =
          adds before more certificate
            (or_fail-eq-ok ca_load (add_root before certificate) added) in
        (
          certificate ∷ certs,
          ap (λ l. some certificate ∷ l) read,
          same ∙ ap (λ l. l ++ certs) grown ∙ append_assoc before (certificate ∷ []) certs,
        )

    -- A connection with TLS enabled succeeds only as a session for the target's server name, its SNI or
    -- else its host, where the CA file is configured and each of its certificates can be read: the trust
    -- store of the session holds exactly these certificates, and the client identifies itself not at all,
    -- where neither a certificate nor a key is configured, or by the chain and the key of both files. A
    -- certificate that the store takes is added to it.
    pub connect-IsVerified :
        (target : TargetConfig) (tls : TlsConfig) (timeouts : TimeoutConfig) (stream : Stream)
        → connect net target tls timeouts ≡ ok stream
        → tls.enabled ≡ true
        → IsVerified target tls timeouts stream
    unfolding connect build_tls_config server_name
    connect-IsVerified target tls timeouts stream h enabled =
        let (socket, _, h1) =
          >>=-eq-ok (or_fail tcp (net.tcp_connect target.server timeouts.connect)) _ h in
        let (_, h2) = >>-eq-ok (fail_if (not (net.set_nodelay socket)) tcp) _ h1 in
        let (named, h3) =
          >>-eq-ok (fail_if (not (is_server_name (server_name net target))) tls_configuration) _
            (rw enabled at h2) in
        let (config, built, h4) = >>=-eq-ok (build_tls_config net tls) _ h3 in
        let (ca_path, given, b1) = >>=-eq-ok (or_fail tls_configuration tls.ca) _ built in
        let (ca_pem, pem, b2) = >>=-eq-ok (or_fail ca_load (read_file ca_path)) _ b1 in
        let (roots, trusted, b3) = >>=-eq-ok (add_roots net [] (certificates ca_pem)) _ b2 in
        let (certs, read, same) = add_roots-append (certificates ca_pem) [] roots trusted in
        record {
          ca_path = ca_path;
          ca_pem = ca_pem;
          socket = socket;
          roots = roots;
          config = config;
          ca_given = or_fail-eq-ok tls_configuration tls.ca given;
          ca_read = or_fail-eq-ok ca_load (read_file ca_path) pem;
          all_trusted = read ∙ ap (map some) (sym same);
          identity = client_identity-IsIdentity roots tls.client_cert tls.client_key config b3;
          name_valid = ground (arith, named);
          session = or_fail-eq-ok handshake _ h4;
        }
