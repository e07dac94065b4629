-- ===== src/Scenarios/Reader/Tests.antt =====
-- src/scenarios.rs: the reader at a concrete stream.
use tak_bench.Prelude.{true, List, [], ◌∷◌}
use tak_bench.Prelude.Bytes.{bytes}
use tak_bench.Config.Defaults.{default_participant}
use tak_bench.Metrics.{new}
use tak_bench.Scenarios.Samples.{log_histograms, plain_formats, own_element}
use tak_bench.Scenarios.Ledger
use tak_bench.Scenarios.Stages.{state_of}
use tak_bench.Scenarios.Reader.{
  ReadEvent, received, read_timed_out, deadline_reached, fresh_reader, read_events,
}
use tak_bench.Scenarios.Reader.Noted.{IsNoted}
use tak_bench.Scenarios.Reader.Trace.{noted_by}
use tak_bench.Scenarios.Reader.Counted.{read_events-IsNoted}

abbrev twice_sent : List ReadEvent
twice_sent =
    received (bytes "<event></event><event></") true (λ index. 5)
    ∷ read_timed_out
    ∷ received (bytes "event>") true (λ index. 9)
    ∷ deadline_reached
    ∷ []

read_events-IsNoted_example :
    IsNoted log_histograms plain_formats
      (bytes "b1")
      (noted_by plain_formats own_element default_participant true true twice_sent)
      (fresh_reader log_histograms Ledger.empty (new log_histograms))
      (state_of (
        read_events log_histograms plain_formats own_element
          (λ n. n)
          (bytes "b1")
          default_participant
          true
          true
          twice_sent
          Ledger.empty
          (new log_histograms)))
read_events-IsNoted_example =
    read_events-IsNoted log_histograms plain_formats own_element (λ n. n) (bytes "b1")
      default_participant true true twice_sent Ledger.empty (new log_histograms)
