-- ===== src/Config/Types.antt =====
-- src/config.rs: the configuration records. A path is its text, a duration its nanoseconds, and the
-- type of the rates is a parameter.
use tak_bench.Prelude.{ℕ, Bool, Option, List}
use tak_bench.Prelude.Bytes.{Str}
use tak_bench.Prelude.Time.{Duration}
use tak_bench.Config.Enums.{
  Environment, Profile, RampStrategy, ParticipantRole, ScenarioKind, Movement, InvalidEventKind,
}

pub record SynchronizationConfig : Type 0 where
  pub wait_for_ready : List Str
  pub timeout : Option Duration

pub record AuthorizationConfig : Type 0 where
  pub acknowledged : Bool

pub record TargetConfig : Type 0 where
  pub server : Str
  pub sni : Option Str

pub record TlsConfig : Type 0 where
  pub enabled : Bool
  pub ca : Option Str
  pub client_cert : Option Str
  pub client_key : Option Str
  pub client_cert_template : Option Str
  pub client_key_template : Option Str

pub record RunConfig (F64 : Type 0) : Type 0 where
  pub profile : Profile
  pub clients : ℕ
  pub max_clients : ℕ
  pub duration : Duration
  pub gps_interval : Duration
  pub max_rate : Option F64

pub record RampStep : Type 0 where
  pub at : Duration
  pub clients : ℕ

pub record SchedulerConfig : Type 0 where
  pub strategy : RampStrategy
  pub ramp_up : Duration
  pub ramp_down : Duration
  pub steps : List RampStep
  pub seed : Option ℕ

pub record ReconnectConfig : Type 0 where
  pub enabled : Bool
  pub min_backoff : Duration
  pub max_backoff : Duration
  pub max_attempts : ℕ
  pub jitter_percent : ℕ

pub record TimeoutConfig : Type 0 where
  pub connect : Duration
  pub tls_handshake : Duration
  pub read : Duration
  pub write : Duration

pub record AbortConfig (F64 : Type 0) : Type 0 where
  pub connection_error_rate : Option F64
  pub message_error_rate : Option F64
  pub p95_latency : Option Duration
  pub p99_latency : Option Duration
  pub max_dropped_messages : Option ℕ
  pub min_samples : Option ℕ

pub record ParticipantConfig : Type 0 where
  pub id : Str
  pub role : ParticipantRole
  pub read_delay : Option Duration
  pub pause_read_for : Option Duration

pub record RoutingAssertion : Type 0 where
  pub sender : Str
  pub receivers : List Str
  pub forbidden_receivers : List Str
  pub timeout : Option Duration

pub record FragmentationConfig : Type 0 where
  pub chunk_sizes : List ℕ
  pub events_per_write : ℕ

pub record InvalidScenarioConfig : Type 0 where
  pub enabled : Bool
  pub kind : Option InvalidEventKind
  pub max_events : Option ℕ

pub record SlowConnectConfig : Type 0 where
  pub enabled : Bool
  pub initial_write_delay : Duration

pub record AbruptDisconnectConfig : Type 0 where
  pub enabled : Bool
  pub after_events : ℕ

pub record ScenarioConfig : Type 0 where
  pub kind : ScenarioKind
  pub movement : Movement
  pub routing : List RoutingAssertion
  pub fragmentation : FragmentationConfig
  pub invalid : InvalidScenarioConfig
  pub slow_connect : SlowConnectConfig
  pub abrupt_disconnect : AbruptDisconnectConfig

pub record OutputConfig : Type 0 where
  pub json : Option Str
  pub lifecycle_jsonl : Bool

pub record AppConfig (F64 : Type 0) : Type 0 where
  pub version : ℕ
  pub authorization : AuthorizationConfig
  pub environment : Environment
  pub allow_hosts : List Str
  pub target : TargetConfig
  pub tls : TlsConfig
  pub run : RunConfig F64
  pub scheduler : SchedulerConfig
  pub reconnect : ReconnectConfig
  pub timeouts : TimeoutConfig
  pub abort : AbortConfig F64
  pub participants : List ParticipantConfig
  pub synchronization : SynchronizationConfig
  pub scenario : ScenarioConfig
  pub output : OutputConfig
