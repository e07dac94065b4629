-- ===== src/Protocol/Xml.antt =====
-- What the program reads through the XML library: the events of a document, in order, up to its end
-- or the first error. The library itself is a parameter.
use tak_bench.Prelude.{Option, List, Result, ok, err}
use tak_bench.Prelude.Bytes.{Bytes}

-- An element with its attributes; `none` is an attribute that the library could not read.
pub record Element : Type 0 where
  pub name : Bytes
  pub attributes : List (Option (Bytes × Bytes))

pub data Events (E : Type 0) : Type 0 where
  eof : Events E
  failed : E → Events E
  start : Element → Events E → Events E
  empty : Element → Events E → Events E
  other : Events E → Events E

-- `Reader::from_reader(frame)` and its `read_event_into`
pub record XmlLibrary : Type 1 where
  pub XmlError : Type 0
  pub read : Bytes → Events XmlError

-- The loop of `validate_xml`: to the end, or to the first error
unfoldable pub validate_events : {E : Type 0} → Events E → Result E Unit
validate_events eof = ok tt
validate_events (failed e) = err e
validate_events (start element rest) = validate_events rest
validate_events (empty element rest) = validate_events rest
validate_events (other rest) = validate_events rest

module _ (xml : XmlLibrary) where
  open xml use {XmlError, read}

  unfoldable pub validate_xml : Bytes → Result XmlError Unit
  validate_xml frame = validate_events (read frame)
