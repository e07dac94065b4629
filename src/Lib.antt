-- ===== src/Lib.antt =====
-- A model of tak_bench, a load generator for TAK servers that speaks CoT, XML events on a stream.
--
-- The program: the command line (src/main.rs) reads a configuration (src/config.rs), applies its
-- overrides, and gives it to the runner (src/runner.rs). The runner lets the safety policy
-- (src/safety.rs) decide whether the run may start, starts the workload (src/scenarios.rs) and a
-- monitor of the abort thresholds (src/thresholds.rs) on the metrics (src/metrics.rs), and makes the
-- report (src/report.rs) and the lifecycle events (src/lifecycle.rs). The workload starts its
-- participants by a ramp (src/scheduler.rs), connects each (src/connection.rs), sends positions and
-- reads events (src/protocol.rs), and judges from its ledger which events were routed where.
--
-- The modules, with the code they are about:
-- - Prelude: shared names, lists, results, texts as UTF-8 bytes, durations as nanoseconds, and `f64`
--   as an abstract type with the operations that the program calls.
-- - Config: the records, enumerations and defaults of src/config.rs under their own names, durations
--   as text (parse_duration, also of src/main.rs), host_from_server and is_loopback with the address
--   reader it needs, and for_participant.
-- - Safety: validate_with_options with its parts, each check in its order. Production, Rules,
--   Identity and Options hold what an accepted configuration satisfies.
-- - Protocol: to_xml, escape and inspect_event (Event), and CotStreamDecoder (Decoder). Drained,
--   Fragments and Failures follow the loop of `push` by its equations, which Streams, Reads,
--   Frames and Emitted use. Sent and Delivered are about the way from to_xml to the decoder.
-- - Scheduler, Metrics, Thresholds, Report, Lifecycle: one module for each source file.
-- - Connection: connect and build_tls_config, in the order of their checks (Connect), and send and
--   write_all with its timeout (Stream).
-- - Scenarios: the classification of errors (Errors), backoff and emission intervals (Timing), the
--   ledger (Ledger), evaluate_routing (Routing), write_fragmented (Writing), and the sender: the batch
--   and its flush (Batch) and send_positions as steps on an explicit state, one for each branch of its
--   `select!` (Sender). Position is position_xml. Wire has what the sender puts on the wire, what a
--   peer decodes of it, and what a failed flush leaves. Readiness is the barrier that the workload
--   waits for, Reader the loop of read_events, Participant the reconnect loop of run_participant, a
--   round at a time, and Start the participants of a run with their delays. Work is the state of a
--   participant on an open connection and Connected the function run_connected on it, with the
--   interleaving of its reader and its sender; Connected.Session puts it into the rounds of
--   Participant. Stop has the waits for the stop flag, and Workload makes the outcome of a run from
--   the ends of its tasks. Stages has what the proofs about loops share.
-- - Runner: the monitor over its snapshots, what execute_with_lifecycle makes of the outcome, and the
--   two tasks that raise the workload's stop flag (Signals).
-- - Cli: apply_overrides, the commands with their effects (Commands), what is printed of an error
--   (Errors), and main (Main). The structural check of the validate command is in Safety.Options.
--
-- Fallible code returns a `Result`, a loop with a stop a `Stage`. Code that is not the program's is a
-- parameter: the XML reader, the network with its TLS library and files, the stream that is written
-- to, the timer, the histograms, the shuffle, floating point, the calendar, and how numbers, times and
-- identifiers are written. The tests instantiate each with a concrete function.
--
-- Fuel: the decoder's loop takes the length of its buffer and one more, and a fragmented write the
-- number of bytes; each round removes a byte at least, so neither runs out. The counters wrap at
-- 2 ^ 64 as the atomics do, and the sender's event count at 2 ^ 32. Loops that wait for events run over
-- the list of the events that come; in run_connected the deadlines stand behind them. A write
-- returns, with an error where its timeout is over; a deadline that passes while a handler writes
-- is met after that.
--
-- Not modelled: a debug build's panic in the run command where an overriding duration overflows,
-- which apply_overrides alone has; reading YAML and writing JSON, argument parsing, the signal
-- handlers, and the interleaving of several participants, each of which is seen alone, with the
-- marks that the others make at the barrier.
pub mod Prelude
pub mod Config
pub mod Safety
pub mod Protocol
pub mod Scheduler
pub mod Metrics
pub mod Thresholds
pub mod Report
pub mod Lifecycle
pub mod Connection
pub mod Scenarios
pub mod Runner
pub mod Cli
