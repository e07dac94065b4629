-- ===== src/Protocol/Samples.antt =====
-- src/protocol.rs: concrete formats, a position with hostile names, and a reader of XML, for the tests.
use tak_bench.Config.Text.{replace, replace_from}
use tak_bench.Protocol.Sent.{IsPlainFormat}
use tak_bench.Protocol.Delivered.{IsAcceptable}
use tak_bench.Prelude.{none, ℕ, refl, arith}
use tak_bench.Prelude.Bytes.{Bytes, Str, bytes, starts_with}
use tak_bench.Protocol.Xml.{eof, XmlLibrary, validate_events, validate_xml}
use tak_bench.Protocol.Event.{Formats, PositionEvent, to_xml, escape}

-- An XML library that finds no error
abbrev pub lenient : XmlLibrary
lenient = record { XmlError = Unit; read = λ frame. eof }

abbrev pub hostile : Str
hostile = bytes "a\"/><event x='&"

abbrev pub plain_formats : Formats
plain_formats = record {
  F64 = ℕ;
  Time = ℕ;
  Uuid = ℕ;
  show_f64 = λ n. bytes "0.5";
  timestamp = λ n. bytes "2026-01-01T00:00:00Z";
  show_uuid = λ n. bytes "00000000-0000-0000-0000-000000000007";
  parse_uuid = λ text. none;
  package_version = bytes "0.1.0";
}

abbrev pub hostile_position : PositionEvent plain_formats
hostile_position = record {
  uid = hostile;
  callsign = bytes "</event>";
  latitude = 0;
  longitude = 0;
  altitude_m = 0;
  course_deg = 0;
  speed_mps = 0;
  time = 0;
  stale = 0;
  correlation_id = 7;
}

pub plain_formats-IsPlainFormat : IsPlainFormat plain_formats
plain_formats-IsPlainFormat = record {
  f64_plain = λ x. ground arith;
  time_plain = λ t. ground arith;
  uuid_plain = λ id. ground arith;
  version_plain = ground arith;
}

pub hostile_position-IsAcceptable :
    IsAcceptable plain_formats plain_formats-IsPlainFormat lenient 1024 hostile_position
unfolding to_xml escape replace replace_from starts_with validate_xml validate_events
hostile_position-IsAcceptable = record { fits = omega arith; valid = refl }

abbrev pub hostile_text : Bytes
hostile_text = to_xml plain_formats hostile_position
