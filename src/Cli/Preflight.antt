-- ===== src/Cli/Preflight.antt =====
-- src/main.rs: when the validate command dials a server.
use tak_bench.Prelude.{
  ◌≡◌, refl, ap, Bool, true, false, List, [], ◌∷◌, if◌then◌else◌, Result, ok, err, Any, inl, inr,
}
use tak_bench.Prelude.Bytes.{Bytes, Str}
use tak_bench.Prelude.Float.{Float}
use tak_bench.Config.Tls.{TlsTemplateError, for_participant}
use tak_bench.Config.Types.{AppConfig, TargetConfig, TlsConfig}
use tak_bench.Connection.Connect.{Network, connect}
use tak_bench.Connection.Errors.{ConnectError}
use tak_bench.Safety.Errors.{SafetyError, SafetyOptions}
use tak_bench.Safety.Options.{structural_check}
use tak_bench.Safety.Policy.{validate_with_options}
use tak_bench.Cli.Errors.{CliError}
use tak_bench.Cli.Commands.{
  CliEffect, stdout, dial, done, valid_text, authorization_banner, read_config, first_id,
  after_connect, preflight, after_policy, after_structure, validate_config, validate,
}

module _ (f : Float) (read_file : Str → Result CliError Bytes)
    (from_yaml : Bytes → Result CliError (AppConfig f.F64)) (net : Network) where
  open f use {F64}

  -- Why the command has dialled: the connection was asked for, and the configuration that was read is
  -- accepted by the whole safety policy under the options given. The banner is printed before.
  pub record IsAuthorized (path : Str) (connects : Bool) (options : SafetyOptions)
      (target : TargetConfig) (tls : TlsConfig) (effects : List CliEffect) : Type 0 where
    pub config : AppConfig F64
    pub was_read : read_config f read_file from_yaml path ≡ ok config
    pub asked_for : connects ≡ true
    pub accepted : validate_with_options f config options ≡ ok tt
    pub is_target : target ≡ config.target
    pub resolved :
        for_participant config.tls (first_id f read_file from_yaml net config.participants) ≡ ok tls
    pub rest : List CliEffect
    pub announced : effects ≡ stdout authorization_banner ∷ dial target tls ∷ rest

  abbrev pub Dials : TargetConfig → TlsConfig → List CliEffect → Type 0
  Dials target tls effects = Any (λ effect. effect ≡ dial target tls) effects

  module _ (target : TargetConfig) (tls : TlsConfig) where
    stdout-dial : {A : Type 0} {text : Str} → stdout text ≡ dial target tls → A
    stdout-dial e = cc

    no_dial_after :
        (r : Result ConnectError net.Stream)
        → Dials target tls (after_connect f read_file from_yaml net r).0
        → ⊥
    unfolding after_connect
    no_dial_after (ok stream) (inl e) = stdout-dial e
    no_dial_after (ok stream) (inr d) = d
    no_dial_after (err e) d = d

    -- What a preflight that dials has dialled
    preflight-dial :
        (config : AppConfig F64) (r : Result TlsTemplateError TlsConfig)
        → Dials target tls (preflight f read_file from_yaml net config r).0
        → (target ≡ config.target)
          × (r ≡ ok tls)
          × (rest : List CliEffect) × ((preflight f read_file from_yaml net config r).0
              ≡ dial target tls ∷ rest)
    unfolding preflight
    preflight-dial config (err e) d = absurd d
    preflight-dial config (ok resolved) (inl e) =
        let rest =
          (after_connect f read_file from_yaml net
            (connect net config.target resolved config.timeouts)).0 in
        (cc, cc, rest, ap (λ x. x ∷ rest) e)
    preflight-dial config (ok resolved) (inr d) = absurd (no_dial_after _ d)

    module _ (path : Str) (connects : Bool) (options : SafetyOptions) (config : AppConfig F64)
        (was_read : read_config f read_file from_yaml path ≡ ok config) where
      policy-dial :
          (r : Result SafetyError Unit)
          → connects ≡ true
          → validate_with_options f config options ≡ r
          → Dials target tls (after_policy f read_file from_yaml net config r).0
          → IsAuthorized path connects options target tls
              (after_policy f read_file from_yaml net config r).0
      unfolding after_policy
      policy-dial (err e) asked same d = absurd d
      policy-dial (ok _) asked same (inl e) = stdout-dial e
      policy-dial (ok _) asked same (inr d) =
          let (is_target, is_tls, rest, shape) =
            preflight-dial config
              (for_participant config.tls (first_id f read_file from_yaml net config.participants))
              d in
          record {
            config = config;
            was_read = was_read;
            asked_for = asked;
            accepted = same;
            is_target = is_target;
            resolved = is_tls;
            rest = rest;
            announced = ap (λ effects. stdout authorization_banner ∷ effects) shape;
          }

      choice-dial :
          (b : Bool)
          → connects ≡ b
          → Dials target tls
              (if b
                then after_policy f read_file from_yaml net config
                    (validate_with_options f config options)
                else (stdout valid_text ∷ [], done)).0
          → IsAuthorized path connects options target tls
              (if b
                then after_policy f read_file from_yaml net config
                    (validate_with_options f config options)
                else (stdout valid_text ∷ [], done)).0
      choice-dial true asked d = policy-dial (validate_with_options f config options) asked refl d
      choice-dial false asked (inl e) = stdout-dial e
      choice-dial false asked (inr d) = absurd d

      structure-dial :
          (r : Result SafetyError Unit)
          → Dials target tls (after_structure f read_file from_yaml net connects options config r).0
          → IsAuthorized path connects options target tls
              (after_structure f read_file from_yaml net connects options config r).0
      unfolding after_structure
      structure-dial (err e) d = absurd d
      structure-dial (ok _) d = choice-dial connects refl d

    read-dial :
        (path : Str) (connects : Bool) (options : SafetyOptions)
        (r : Result CliError (AppConfig F64))
        → read_config f read_file from_yaml path ≡ r
        → Dials target tls (validate_config f read_file from_yaml net connects options r).0
        → IsAuthorized path connects options target tls
            (validate_config f read_file from_yaml net connects options r).0
    unfolding validate_config
    read-dial path connects options (err e) same d = absurd d
    read-dial path connects options (ok config) same d =
        structure-dial path connects options config same (structural_check f config) d

  -- The validate command dials a server only where that was asked for, and only the target of the
  -- configuration that it has read, with the TLS settings of its first participant, once the whole
  -- safety policy has accepted that configuration under the options given; the authorization banner is
  -- printed before, and nothing else.
  pub validate-IsAuthorized :
      (path : Str) (connects allow_production allow_invalid_events : Bool) (target : TargetConfig)
      (tls : TlsConfig)
      → let effects =
          (validate f read_file from_yaml net path connects allow_production
            allow_invalid_events).0 in
        let options : SafetyOptions = record {
          allow_production = allow_production;
          allow_invalid_events = allow_invalid_events;
        } in
        Dials target tls effects → IsAuthorized path connects options target tls effects
  unfolding validate
  validate-IsAuthorized path connects allow_production allow_invalid_events target tls d =
      read-dial target tls path connects
        (record {
          allow_production = allow_production;
          allow_invalid_events = allow_invalid_events;
        })
        (read_config f read_file from_yaml path) refl d
