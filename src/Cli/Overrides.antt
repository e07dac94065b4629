-- ===== src/Cli/Overrides.antt =====
-- src/main.rs: what the overrides of the command line can and cannot change.
use tak_bench.Prelude.{
  Bool, ℕ, Bool, ◌||◌, ◌≡◌, refl, Option, none, some, List, Result, ok, >>=-eq-ok, ok-injective, ap,
  sym, ◌∙◌, map_err, unwrap_or,
}
use tak_bench.Prelude.Bytes.{Str}
use tak_bench.Config.Enums.{Profile, environment_from_str}
use tak_bench.Config.Parse.{parse_cli_duration}
use tak_bench.Config.Types.{
  AppConfig, TargetConfig, TlsConfig, ScenarioConfig, ParticipantConfig, AbortConfig,
}
use tak_bench.Cli.{
  RunArgs, Refusal, message, duration_result, try_assign, choose_profile, raise_flags,
  apply_overrides, set_environment, set_profile, set_duration, set_gps_interval, assign, set_server,
  set_clients, set_max_clients, set_max_rate, set_json,
}

-- The fields that the readers of texts leave alone
record Rest (F64 : Type 0) : Type 0 where
  allow_hosts : List Str
  target : TargetConfig
  tls : TlsConfig
  scenario : ScenarioConfig
  participants : List ParticipantConfig
  abort : AbortConfig F64
  clients : ℕ
  max_clients : ℕ
  acknowledged : Bool
  lifecycle_jsonl : Bool

module _ {F64 : Type 0} where
  -- What no override of a run touches, and the two flags that can only be raised
  pub record IsKept (args : RunArgs F64) (before after : AppConfig F64) : Type 0 where
    pub allow_hosts_kept : after.allow_hosts ≡ before.allow_hosts
    pub sni_kept : after.target.sni ≡ before.target.sni
    pub tls_kept : after.tls ≡ before.tls
    pub scenario_kept : after.scenario ≡ before.scenario
    pub participants_kept : after.participants ≡ before.participants
    pub abort_kept : after.abort ≡ before.abort
    pub server_set : after.target.server ≡ unwrap_or args.server before.target.server
    pub clients_set : after.run.clients ≡ unwrap_or args.clients before.run.clients
    pub max_clients_set : after.run.max_clients ≡ unwrap_or args.max_clients before.run.max_clients
    pub acknowledged_raised :
        after.authorization.acknowledged
        ≡ (before.authorization.acknowledged || args.acknowledge_authorization)
    pub lifecycle_raised :
        after.output.lifecycle_jsonl ≡ (before.output.lifecycle_jsonl || args.lifecycle_jsonl)

  rest_of : AppConfig F64 → Rest F64
  rest_of c = record {
    allow_hosts = c.allow_hosts;
    target = c.target;
    tls = c.tls;
    scenario = c.scenario;
    participants = c.participants;
    abort = c.abort;
    clients = c.run.clients;
    max_clients = c.run.max_clients;
    acknowledged = c.authorization.acknowledged;
    lifecycle_jsonl = c.output.lifecycle_jsonl;
  }

  rest_of-try_assign :
      {A : Type 0} (o : Option Str) (read : Str → Result Refusal A)
      (set : A → AppConfig F64 → AppConfig F64) (c c' : AppConfig F64)
      → ((value : A) → rest_of (set value c) ≡ rest_of c)
      → try_assign o read set c ≡ ok c'
      → rest_of c' ≡ rest_of c
  rest_of-try_assign none read set c c' keeps h = ap rest_of (sym (ok-injective h))
  rest_of-try_assign (some text) read set c c' keeps h =
      let (value, _, same) = >>=-eq-ok (read text) _ h in
      ap rest_of (sym (ok-injective same)) ∙ keeps value

  rest_of-choose_profile :
      (forced : Option Profile) (o : Option Str) (c c' : AppConfig F64)
      → choose_profile forced o c ≡ ok c'
      → rest_of c' ≡ rest_of c
  unfolding choose_profile rest_of
  rest_of-choose_profile none o c c' h = rest_of-try_assign o _ set_profile c c' (λ profile. refl) h
  rest_of-choose_profile (some profile) o c c' h = ap rest_of (sym (ok-injective h))

  rest_of-clients :
      (clients max_clients : Option ℕ) (c : AppConfig F64)
      → rest_of (assign max_clients set_max_clients (assign clients set_clients c))
        ≡ record (rest_of c) {
          clients = unwrap_or clients c.run.clients;
          max_clients = unwrap_or max_clients c.run.max_clients;
        }
  unfolding rest_of
  rest_of-clients none none c = refl
  rest_of-clients none (some m) c = refl
  rest_of-clients (some n) none c = refl
  rest_of-clients (some n) (some m) c = refl

  rest_of-server :
      (server : Option Str) (c : AppConfig F64)
      → rest_of (assign server set_server c) ≡ record (rest_of c) {
        target = record c.target { server = unwrap_or server c.target.server };
      }
  unfolding rest_of
  rest_of-server none c = refl
  rest_of-server (some server) c = refl

  rest_of-flags :
      (args : RunArgs F64) (json : Option Str) (rate : Option F64) (c : AppConfig F64)
      → rest_of (raise_flags args (assign json set_json (assign rate set_max_rate c)))
        ≡ record (rest_of c) {
          acknowledged = c.authorization.acknowledged || args.acknowledge_authorization;
          lifecycle_jsonl = c.output.lifecycle_jsonl || args.lifecycle_jsonl;
        }
  unfolding rest_of raise_flags
  rest_of-flags args none none c = refl
  rest_of-flags args none (some rate) c = refl
  rest_of-flags args (some json) none c = refl
  rest_of-flags args (some json) (some rate) c = refl

  with_clients : RunArgs F64 → Rest F64 → Rest F64
  with_clients args r = record r {
    clients = unwrap_or args.clients r.clients;
    max_clients = unwrap_or args.max_clients r.max_clients;
  }

  with_flags : RunArgs F64 → Rest F64 → Rest F64
  with_flags args r = record r {
    acknowledged = r.acknowledged || args.acknowledge_authorization;
    lifecycle_jsonl = r.lifecycle_jsonl || args.lifecycle_jsonl;
  }

  with_server : RunArgs F64 → Rest F64 → Rest F64
  with_server args r = record r {
    target = record r.target { server = unwrap_or args.server r.target.server };
  }

  rest_of-apply_overrides :
      (checks : Bool) (args : RunArgs F64) (forced : Option Profile) (before after : AppConfig F64)
      → apply_overrides checks args forced before ≡ ok after
      → rest_of after ≡ with_flags args (with_clients args (with_server args (rest_of before)))
  unfolding apply_overrides rest_of with_clients with_flags with_server
  rest_of-apply_overrides checks args forced before after h =
      let c0 = assign args.server set_server before in
      let environment_reader = λ (text : Str). map_err message (environment_from_str text) in
      let duration_reader = λ (text : Str). duration_result (parse_cli_duration checks text) in
      let (c1, e1, h1) =
        >>=-eq-ok (try_assign args.environment environment_reader set_environment c0) _ h in
      let (c2, e2, h2) = >>=-eq-ok (choose_profile forced args.profile c1) _ h1 in
      let sized = assign args.max_clients set_max_clients (assign args.clients set_clients c2) in
      let (c3, e3, h3) =
        >>=-eq-ok (try_assign args.duration duration_reader set_duration sized) _ h2 in
      let (c4, e4, h4) =
        >>=-eq-ok (try_assign args.gps_interval duration_reader set_gps_interval c3) _ h3 in
      let early : rest_of c2 ≡ with_server args (rest_of before) =
        rest_of-choose_profile forced args.profile c1 c2 e2
        ∙ rest_of-try_assign args.environment environment_reader set_environment c0 c1
            (λ environment. refl) e1
        ∙ rest_of-server args.server before in
      let late : rest_of c4 ≡ with_clients args (rest_of c2) =
        rest_of-try_assign args.gps_interval duration_reader set_gps_interval c3 c4
          (λ interval. refl) e4
        ∙ rest_of-try_assign args.duration duration_reader set_duration sized c3 (λ duration. refl)
            e3
        ∙ rest_of-clients args.clients args.max_clients c2 in
      ap rest_of (sym (ok-injective h4))
      ∙ rest_of-flags args args.json args.max_rate c4
      ∙ ap (with_flags args) (late ∙ ap (with_clients args) early)

  -- Where the overrides of the command line are accepted, the allowlist, the server name for TLS, the
  -- TLS files, the scenario, the participants and the abort thresholds are those of the configuration
  -- file; the server and the client counts are the arguments that are given; and the acknowledgement
  -- and the lifecycle flag are raised by their arguments and never lowered.
  pub apply_overrides-IsKept :
      (checks : Bool) (args : RunArgs F64) (forced : Option Profile) (before after : AppConfig F64)
      → apply_overrides checks args forced before ≡ ok after
      → IsKept args before after
  unfolding rest_of with_clients with_flags with_server
  apply_overrides-IsKept checks args forced before after h =
      let e = rest_of-apply_overrides checks args forced before after h in
      record {
        allow_hosts_kept = ap (λ r. r.allow_hosts) e;
        sni_kept = ap (λ r. r.target.sni) e;
        tls_kept = ap (λ r. r.tls) e;
        scenario_kept = ap (λ r. r.scenario) e;
        participants_kept = ap (λ r. r.participants) e;
        abort_kept = ap (λ r. r.abort) e;
        server_set = ap (λ r. r.target.server) e;
        clients_set = ap (λ r. r.clients) e;
        max_clients_set = ap (λ r. r.max_clients) e;
        acknowledged_raised = ap (λ r. r.acknowledged) e;
        lifecycle_raised = ap (λ r. r.lifecycle_jsonl) e;
      }
