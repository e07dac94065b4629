-- ===== src/Report/RunReport.antt =====
-- src/report.rs: RunReport::new and its texts. Times, versions and numbers as text are parameters.
use tak_bench.Prelude.{ℕ, ◌/◌, Bool, Option, none, some, List, ◌++◌, map}
use tak_bench.Prelude.Bytes.{Str, bytes}
use tak_bench.Prelude.Time.{Duration}
use tak_bench.Config.Enums.{
  Environment, Profile, smoke, functional, load, stress, spike, soak, reconnect,
}
use tak_bench.Config.Types.{AppConfig}
use tak_bench.Config.Text.{decimal}
use tak_bench.Metrics.{MetricsSnapshot}
use tak_bench.Report.Types.{RunStatus, passed, failed, aborted, ParticipantFailure}
use tak_bench.Scenarios.Outcome.{AssertionResult}

pub record SanitizedConfig : Type 0 where
  pub environment : Environment
  pub profile : Profile
  pub participants : List Str
  pub tls_enabled : Bool
  pub reconnect_enabled : Bool
  pub wait_for_ready : List Str
  pub lifecycle_jsonl : Bool

unfoldable pub profile_name : Profile → Str
profile_name smoke = bytes "smoke"
profile_name functional = bytes "functional"
profile_name load = bytes "load"
profile_name stress = bytes "stress"
profile_name spike = bytes "spike"
profile_name soak = bytes "soak"
profile_name reconnect = bytes "reconnect"

abbrev pub abort_reason_of : RunStatus → Str → Option Str
abort_reason_of passed reason = none
abort_reason_of failed reason = some reason
abort_reason_of aborted reason = some reason

module _ {F64 : Type 0} where
  unfoldable pub sanitize : AppConfig F64 → SanitizedConfig
  sanitize config = record {
    environment = config.environment;
    profile = config.run.profile;
    participants = map (λ participant. participant.id) config.participants;
    tls_enabled = config.tls.enabled;
    reconnect_enabled = config.reconnect.enabled;
    wait_for_ready = config.synchronization.wait_for_ready;
    lifecycle_jsonl = config.output.lifecycle_jsonl;
  }

module _ {F64 : Type 0} where
  abbrev show_latency : (F64 → Str) → Option F64 → Str
  show_latency show none = bytes "n/a"
  show_latency show (some ms) = show ms

pub record RunReport (F64 Time : Type 0) : Type 0 where
  pub version : Str
  pub started_at : Time
  pub finished_at : Time
  pub elapsed_ms : ℕ
  pub environment : Environment
  pub target : Str
  pub profile : Profile
  pub clients : ℕ
  pub metrics : MetricsSnapshot F64
  pub stop_reason : Str
  pub status : RunStatus
  pub abort_reason : Option Str
  pub assertions : List AssertionResult
  pub participant_failures : List ParticipantFailure
  pub sanitized_config : SanitizedConfig

module _ {F64 Time : Type 0} where
  -- `RunReport::new`, with the package version and the current time as arguments
  unfoldable pub new :
      Str
      → Time
      → AppConfig F64
      → Time
      → Duration
      → MetricsSnapshot F64
      → Str
      → RunStatus
      → List AssertionResult
      → List ParticipantFailure
      → RunReport F64 Time
  new version now config started_at elapsed metrics stop_reason status assertions failures =
      record {
        version = version;
        started_at = started_at;
        finished_at = now;
        elapsed_ms = elapsed / 1000000;
        environment = config.environment;
        target = config.target.server;
        profile = config.run.profile;
        clients = config.run.clients;
        metrics = metrics;
        stop_reason = stop_reason;
        status = status;
        abort_reason = abort_reason_of status stop_reason;
        assertions = assertions;
        participant_failures = failures;
        sanitized_config = sanitize config;
      }

  -- `terminal`, with the writer of `{v:.2}` as an argument
  unfoldable pub terminal : (F64 → Str) → RunReport F64 Time → Str
  terminal show report =
      bytes "tak_bench "
      ++ profile_name report.profile
      ++ bytes " against "
      ++ report.target
      ++ bytes ": "
      ++ decimal report.metrics.sent_messages
      ++ bytes " sent, "
      ++ decimal report.metrics.connection_successes
      ++ bytes "/"
      ++ decimal report.metrics.connection_attempts
      ++ bytes " connections succeeded, p95 handshake: "
      ++ show_latency show report.metrics.handshake_p95_ms
      ++ bytes " ms"
