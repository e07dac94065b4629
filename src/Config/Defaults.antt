-- ===== src/Config/Defaults.antt =====
-- src/config.rs: the `Default` implementations.
use tak_bench.Prelude.{false, none, []}
use tak_bench.Prelude.Bytes.{bytes}
use tak_bench.Prelude.Time.{from_secs, from_millis}
use tak_bench.Config.Enums.{local, smoke, immediate, send_receive, position, fixed}
use tak_bench.Config.Types.{
  SynchronizationConfig, AuthorizationConfig, TargetConfig, TlsConfig, RunConfig, SchedulerConfig,
  ReconnectConfig, TimeoutConfig, AbortConfig, ParticipantConfig, RoutingAssertion,
  FragmentationConfig, InvalidScenarioConfig, ScenarioConfig, OutputConfig, AppConfig,
}

abbrev pub default_synchronization : SynchronizationConfig
default_synchronization = record { wait_for_ready = []; timeout = none }

abbrev pub default_authorization : AuthorizationConfig
default_authorization = record { acknowledged = false }

abbrev pub default_target : TargetConfig
default_target = record { server = bytes "127.0.0.1:8089"; sni = none }

abbrev pub default_tls : TlsConfig
default_tls = record {
  enabled = false;
  ca = none;
  client_cert = none;
  client_key = none;
  client_cert_template = none;
  client_key_template = none;
}

abbrev pub default_run : {F64 : Type 0} → RunConfig F64
default_run = record {
  profile = smoke;
  clients = 1;
  max_clients = 3;
  duration = from_secs 120;
  gps_interval = from_secs 30;
  max_rate = none;
}

abbrev pub default_scheduler : SchedulerConfig
default_scheduler = record {
  strategy = immediate;
  ramp_up = 0;
  ramp_down = 0;
  steps = [];
  seed = none;
}

abbrev pub default_reconnect : ReconnectConfig
default_reconnect = record {
  enabled = false;
  min_backoff = from_millis 250;
  max_backoff = from_secs 30;
  max_attempts = 5;
  jitter_percent = 20;
}

abbrev pub default_timeouts : TimeoutConfig
default_timeouts = record {
  connect = from_secs 10;
  tls_handshake = from_secs 10;
  read = from_secs 30;
  write = from_secs 10;
}

abbrev pub default_abort : {F64 : Type 0} → AbortConfig F64
default_abort = record {
  connection_error_rate = none;
  message_error_rate = none;
  p95_latency = none;
  p99_latency = none;
  max_dropped_messages = none;
  min_samples = none;
}

abbrev pub default_participant : ParticipantConfig
default_participant = record {
  id = [];
  role = send_receive;
  read_delay = none;
  pause_read_for = none;
}

abbrev pub default_routing : RoutingAssertion
default_routing = record { sender = []; receivers = []; forbidden_receivers = []; timeout = none }

abbrev pub default_fragmentation : FragmentationConfig
default_fragmentation = record { chunk_sizes = []; events_per_write = 1 }

abbrev pub default_invalid : InvalidScenarioConfig
default_invalid = record { enabled = false; kind = none; max_events = none }

abbrev pub default_scenario : ScenarioConfig
default_scenario = record {
  kind = position;
  movement = fixed;
  routing = [];
  fragmentation = default_fragmentation;
  invalid = default_invalid;
  slow_connect = record { enabled = false; initial_write_delay = 0 };
  abrupt_disconnect = record { enabled = false; after_events = 0 };
}

abbrev pub default_output : OutputConfig
default_output = record { json = none; lifecycle_jsonl = false }

abbrev pub default_config : {F64 : Type 0} → AppConfig F64
default_config = record {
  version = 0;
  authorization = default_authorization;
  environment = local;
  allow_hosts = [];
  target = default_target;
  tls = default_tls;
  run = default_run;
  scheduler = default_scheduler;
  reconnect = default_reconnect;
  timeouts = default_timeouts;
  abort = default_abort;
  participants = [];
  synchronization = default_synchronization;
  scenario = default_scenario;
  output = default_output;
}
