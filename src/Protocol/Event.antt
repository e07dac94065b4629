-- ===== src/Protocol/Event.antt =====
-- src/protocol.rs: PositionEvent::to_xml, escape and inspect_event. How numbers, times and
-- identifiers are written is a parameter.
use tak_bench.Prelude.{Option, none, some, List, [], ◌∷◌, ◌++◌, if◌then◌else◌, Result, ok, err}
use tak_bench.Prelude.Bytes.{Bytes, Str, bytes, str_eq}
use tak_bench.Config.Text.{replace}
use tak_bench.Protocol.Lossy.{from_utf8_lossy}
use tak_bench.Protocol.Xml.{Element, Events, eof, failed, start, empty, other, XmlLibrary}

-- The values that other crates and the float formatter write, and the reader of identifiers.
pub record Formats : Type 1 where
  pub F64 : Type 0
  pub Time : Type 0
  pub Uuid : Type 0
  pub show_f64 : F64 → Str
  pub timestamp : Time → Str
  pub show_uuid : Uuid → Str
  pub parse_uuid : Str → Option Uuid
  pub package_version : Str

unfoldable pub escape : Str → Str
escape value = replace (bytes "'") (bytes "&apos;") (
    replace (bytes "\"") (bytes "&quot;") (
      replace (bytes ">") (bytes "&gt;")
        (replace (bytes "<") (bytes "&lt;") (replace (bytes "&") (bytes "&amp;") value))))

module _ (fmt : Formats) where
  open fmt use {F64, Time, Uuid, show_f64, timestamp, show_uuid, parse_uuid, package_version}

  pub record PositionEvent : Type 0 where
    pub uid : Str
    pub callsign : Str
    pub latitude : F64
    pub longitude : F64
    pub altitude_m : F64
    pub course_deg : F64
    pub speed_mps : F64
    pub time : Time
    pub stale : Time
    pub correlation_id : Uuid

  unfoldable pub to_xml : PositionEvent → Str
  to_xml e =
      bytes "<event version=\"2.0\" uid=\""
      ++ escape e.uid
      ++ bytes "\" type=\"a-f-G-U-C\" time=\""
      ++ timestamp e.time
      ++ bytes "\" start=\""
      ++ timestamp e.time
      ++ bytes "\" stale=\""
      ++ timestamp e.stale
      ++ bytes "\" how=\"m-g\"><point lat=\""
      ++ show_f64 e.latitude
      ++ bytes "\" lon=\""
      ++ show_f64 e.longitude
      ++ bytes "\" hae=\""
      ++ show_f64 e.altitude_m
      ++ bytes "\" ce=\"9999999\" le=\"9999999\"/><detail><contact callsign=\""
      ++ escape e.callsign
      ++ bytes "\"/><takv device=\"tak_bench\" os=\"Linux\" platform=\"tak_bench\" version=\""
      ++ package_version
      ++ bytes "\"/><track course=\""
      ++ show_f64 e.course_deg
      ++ bytes "\" speed=\""
      ++ show_f64 e.speed_mps
      ++ bytes "\"/><tak_bench correlation_id=\""
      ++ show_uuid e.correlation_id
      ++ bytes "\"/></detail></event>"

  pub record ReceivedEvent : Type 0 where
    pub raw : Str
    pub uid : Option Str
    pub event_type : Option Str
    pub correlation_id : Option Uuid

  -- The loop over the attributes of an `event` element; one that cannot be read is passed over.
  unfoldable pub event_attributes : ReceivedEvent → List (Option (Bytes × Bytes)) → ReceivedEvent
  event_attributes r [] = r
  event_attributes r (none ∷ rest) = event_attributes r rest
  event_attributes r (some (key, value) ∷ rest) =
      event_attributes
        (if str_eq key (bytes "uid")
          then record r { uid = some (from_utf8_lossy value) }
          else if str_eq key (bytes "type")
          then record r { event_type = some (from_utf8_lossy value) }
          else r)
        rest

  unfoldable pub bench_attributes : ReceivedEvent → List (Option (Bytes × Bytes)) → ReceivedEvent
  bench_attributes r [] = r
  bench_attributes r (none ∷ rest) = bench_attributes r rest
  bench_attributes r (some (key, value) ∷ rest) =
      bench_attributes
        (if str_eq key (bytes "correlation_id")
          then record r { correlation_id = parse_uuid (from_utf8_lossy value) }
          else r)
        rest

  -- `Event::Start(element) | Event::Empty(element)` by the element's name
  unfoldable pub inspect_element : Element → ReceivedEvent → ReceivedEvent
  inspect_element element r =
      if str_eq element.name (bytes "event")
      then event_attributes r element.attributes
      else if str_eq element.name (bytes "tak_bench")
      then bench_attributes r element.attributes
      else r

  unfoldable pub inspect_events : {E : Type 0} → ReceivedEvent → Events E → Result E ReceivedEvent
  inspect_events r eof = ok r
  inspect_events r (failed e) = err e
  inspect_events r (start element rest) = inspect_events (inspect_element element r) rest
  inspect_events r (empty element rest) = inspect_events (inspect_element element r) rest
  inspect_events r (other rest) = inspect_events r rest

  unfoldable pub inspect_event : (xml : XmlLibrary) → Str → Result xml.XmlError ReceivedEvent
  inspect_event xml raw =
      inspect_events (record { raw = raw; uid = none; event_type = none; correlation_id = none })
        (xml.read raw)
