-- ===== src/Scenarios/Position/Written.antt =====
-- src/scenarios.rs: what position_xml writes is a position for the receiver.
use mathlib.Core.Option
use tak_bench.Prelude.{ℕ, ◌≤◌, ◌≡◌, sym, Option, none, some, length, ok, subst}
use tak_bench.Prelude.Bytes.{Str}
use tak_bench.Config.Types.{AppConfig, ParticipantConfig}
use tak_bench.Protocol.Event.{Formats, to_xml}
use tak_bench.Protocol.Sent.{IsPlainFormat}
use tak_bench.Protocol.Xml.{XmlLibrary, validate_xml}
use tak_bench.Scenarios.Position.{Calendar, stale_seconds, event_at, position_xml}
use tak_bench.Scenarios.Wire.Received.{IsPosition}

module _ (fmt : Formats) (plain : IsPlainFormat fmt) (xml : XmlLibrary) (limit : ℕ)
    (calendar : Calendar fmt) where
  written-IsPosition :
      (participant : ParticipantConfig) (id : fmt.Uuid) (now : fmt.Time) (stale : Option fmt.Time)
      (text : Str)
      → Option.map (λ late. to_xml fmt (event_at fmt calendar participant id now late)) stale
        ≡ some text
      → length text ≤ limit
      → validate_xml xml text ≡ ok tt
      → IsPosition fmt plain xml limit text
  written-IsPosition participant id now none text h fits valid = cc
  written-IsPosition participant id now (some stale) text h fits valid =
      let same : to_xml fmt (event_at fmt calendar participant id now stale) ≡ text = cc in
      (
        event_at fmt calendar participant id now stale,
        record {
          fits = subst (λ l. length l ≤ limit) (sym same) fits;
          valid = subst (λ l. validate_xml xml l ≡ ok tt) (sym same) valid;
        },
        sym same,
      )

  -- A text of position_xml that fits the receiver's limit and that the XML library reads without
  -- error is one of those that the receiver decodes.
  pub position_xml-IsPosition :
      {F64 : Type 0} (participant : ParticipantConfig) (config : AppConfig F64) (id : fmt.Uuid)
      (now : fmt.Time) (text : Str)
      → position_xml fmt calendar participant config id now ≡ some text
      → length text ≤ limit
      → validate_xml xml text ≡ ok tt
      → IsPosition fmt plain xml limit text
  unfolding position_xml
  position_xml-IsPosition participant config id now text =
      written-IsPosition participant id now
        (calendar.add_seconds now (stale_seconds config.run.gps_interval)) text
