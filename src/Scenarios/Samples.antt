-- ===== src/Scenarios/Samples.antt =====
-- src/scenarios.rs: concrete choices for what the workload's model takes as parameters, for the tests.
use tak_bench.Prelude.{ℕ, false, some, List, [], ◌∷◌, ◌++◌, Result, ok, err}
use tak_bench.Prelude.Bytes.{Bytes, bytes}
use tak_bench.Metrics.{Histograms}
use tak_bench.Protocol.Event.{Formats}
use tak_bench.Protocol.Xml.{eof, empty, XmlLibrary}
use tak_bench.Scenarios.Errors.{AnyError, elapsed_cause}
use tak_bench.Scenarios.Writing.{Socket}

-- Histograms that keep all their values
abbrev pub log_histograms : Histograms
log_histograms = record {
  Histogram = List ℕ;
  fresh = [];
  record_value = λ values value. value ∷ values;
  is_empty = λ values. false;
  value_at_quantile = λ values q. 0;
}

abbrev pub plain_formats : Formats
plain_formats = record {
  F64 = ℕ;
  Time = ℕ;
  Uuid = ℕ;
  show_f64 = λ n. bytes "0";
  timestamp = λ n. bytes "now";
  show_uuid = λ n. bytes "7";
  parse_uuid = λ text. some 7;
  package_version = bytes "0.1.0";
}

-- A library that finds the program's own element in every frame
abbrev pub own_element : XmlLibrary
own_element = record {
  XmlError = Unit;
  read = λ frame.
      empty
        (record {
          name = bytes "tak_bench";
          attributes = some (bytes "correlation_id", bytes "7") ∷ [];
        })
        eof;
}

abbrev pub log_write : Bytes → List Bytes → Result AnyError (List Bytes)
log_write [] log = err (elapsed_cause ∷ [])
log_write (b ∷ slice) log = ok (log ++ (b ∷ slice) ∷ [])

-- A socket that keeps what it has taken, and times out on an empty slice
abbrev pub log_socket : Socket
log_socket = record { Writer = List Bytes; write_all = log_write }
