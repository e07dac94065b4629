-- ===== src/Scenarios/Position.antt =====
-- src/scenarios.rs: position_xml, the text of a position that a tick writes. The present time, its sum
-- with a number of seconds, and the number that a literal stands for are parameters.
pub mod Written
mod Tests
use mathlib.Core.Option
use tak_bench.Prelude.{ℕ, ◌*◌, ◌%◌, ◌^◌, Option, none, some, ◌++◌, ltb, if◌then◌else◌, ◌>>=◌}
use tak_bench.Prelude.Bytes.{Str, bytes}
use tak_bench.Prelude.Time.{Duration, as_secs, u64_mod}
use tak_bench.Config.Types.{AppConfig, ParticipantConfig}
use tak_bench.Protocol.Event.{Formats, PositionEvent, to_xml}

-- What the `time` crate and the compiler's reader of literals do. An `i64` is given by its bits, and
-- `none` is the panic of a sum that is out of range.
pub record Calendar (fmt : Formats) : Type 0 where
  pub literal : Str → fmt.F64
  pub add_seconds : fmt.Time → ℕ → Option fmt.Time

-- `i64::try_from(seconds).unwrap_or(30) * 2`, which wraps
unfoldable pub stale_seconds : Duration → ℕ
stale_seconds gps_interval =
    let seconds = as_secs gps_interval in
    ((if ltb seconds (2 ^ 63) then seconds else 30) * 2) % u64_mod

module _ (fmt : Formats) (calendar : Calendar fmt) where
  open calendar use {literal, add_seconds}

  abbrev pub event_at : ParticipantConfig → fmt.Uuid → fmt.Time → fmt.Time → PositionEvent fmt
  event_at participant correlation_id now stale = record {
    uid = bytes "tak-bench-" ++ participant.id;
    callsign = participant.id;
    latitude = literal (bytes "-23.5505");
    longitude = literal (bytes "-46.6333");
    altitude_m = literal (bytes "760.0");
    course_deg = literal (bytes "0.0");
    speed_mps = literal (bytes "0.0");
    time = now;
    stale = stale;
    correlation_id = correlation_id;
  }

  unfoldable pub position_xml :
      {F64 : Type 0} → ParticipantConfig → AppConfig F64 → fmt.Uuid → fmt.Time → Option Str
  position_xml participant config correlation_id now =
      Option.map (λ stale. to_xml fmt (event_at participant correlation_id now stale))
        (add_seconds now (stale_seconds config.run.gps_interval))
