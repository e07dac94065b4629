-- ===== src/Lifecycle.antt =====
-- src/lifecycle.rs: the lifecycle events and their JSON lines. The JSON writer of texts is a parameter.
use tak_bench.Prelude.{Bool, false, List, [], ◌∷◌, ◌++◌, if◌then◌else◌}
use tak_bench.Prelude.Bytes.{Str, bytes}

pub data DisconnectReason : Type 0 where
  run_deadline external_stop peer_closed read_failed write_failed : DisconnectReason
  parse_failed connect_failed readiness_timeout reconnect_exhausted : DisconnectReason

pub data CompletionStatus : Type 0 where
  passed failed aborted : CompletionStatus

pub data LifecycleEvent : Type 0 where
  participant_connected : Str → LifecycleEvent
  participant_ready : Str → LifecycleEvent
  participant_disconnected : Str → DisconnectReason → LifecycleEvent
  run_completed : CompletionStatus → LifecycleEvent

-- The derived names are in snake case.
unfoldable pub reason_name : DisconnectReason → Str
reason_name run_deadline = bytes "run_deadline"
reason_name external_stop = bytes "external_stop"
reason_name peer_closed = bytes "peer_closed"
reason_name read_failed = bytes "read_failed"
reason_name write_failed = bytes "write_failed"
reason_name parse_failed = bytes "parse_failed"
reason_name connect_failed = bytes "connect_failed"
reason_name readiness_timeout = bytes "readiness_timeout"
reason_name reconnect_exhausted = bytes "reconnect_exhausted"

unfoldable pub status_name : CompletionStatus → Str
status_name passed = bytes "passed"
status_name failed = bytes "failed"
status_name aborted = bytes "aborted"

module _ (json_string : Str → Str) where
  unfoldable pub to_json : LifecycleEvent → Str
  unfolding reason_name status_name
  to_json (participant_connected id) =
      bytes "{\"event\":\"participant_connected\",\"participant\":" ++ json_string id ++ bytes "}"
  to_json (participant_ready id) =
      bytes "{\"event\":\"participant_ready\",\"participant\":" ++ json_string id ++ bytes "}"
  to_json (participant_disconnected id reason) =
      bytes "{\"event\":\"participant_disconnected\",\"participant\":"
      ++ json_string id
      ++ bytes ",\"reason\":\""
      ++ reason_name reason
      ++ bytes "\"}"
  to_json (run_completed status) =
      bytes "{\"event\":\"run_completed\",\"status\":\"" ++ status_name status ++ bytes "\"}"

  -- An emitter with the lines that its sink has received
  pub record LifecycleEmitter : Type 0 where
    pub enabled : Bool
    pub lines : List Str

  unfoldable pub disabled : LifecycleEmitter
  disabled = record { enabled = false; lines = [] }

  unfoldable pub emitter : Bool → LifecycleEmitter
  emitter enabled = record { enabled = enabled; lines = [] }

  unfoldable pub emit : LifecycleEvent → LifecycleEmitter → LifecycleEmitter
  unfolding to_json
  emit event e = if e.enabled then record e { lines = e.lines ++ to_json event ∷ [] } else e
