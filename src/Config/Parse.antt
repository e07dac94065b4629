-- ===== src/Config/Parse.antt =====
-- src/config.rs (duration_serde, optional_duration_serde) and src/main.rs (parse_duration): durations
-- as text.
use tak_bench.Prelude.{
  Bool, ◌&&◌, ℕ, ◌*◌, ◌%◌, Option, none, some, ◌++◌, leb, if◌then◌else◌, unwrap_or, length, take,
  drop,
}
use tak_bench.Prelude.Bytes.{Str, bytes, str_eq}
use tak_bench.Prelude.Time.{Duration, from_secs, as_secs, saturating_mul_u64, u64_mod}
use tak_bench.Config.Text.{trim, find_non_digit, parse_u64, decimal}

-- The result of a reader that can also panic.
pub data Parsed : Type 0 where
  parsed : Duration → Parsed
  rejected : Str → Parsed
  panicked : Parsed

-- `str::split_at` panics past the end of the text. A digit run ends at a character boundary.
unfoldable pub split_at : ℕ → Str → Option (Str × Str)
split_at mid text = if leb mid (length text) then some (take mid text, drop mid text) else none

-- `raw.trim().split_at(raw.trim().find(..).unwrap_or(raw.len()))`
unfoldable pub split_unit : Str → Option (Str × Str)
unfolding split_at
split_unit raw = split_at (unwrap_or (find_non_digit (trim raw)) (length raw)) (trim raw)

-- `match unit { .. }` with the minutes and hours as seconds by `scale`
unfoldable pub scale_unit : (ℕ → ℕ → ℕ) → Str → ℕ → Str → Parsed
scale_unit scale raw value unit =
    if str_eq unit (bytes "s")
    then parsed (from_secs value)
    else if str_eq unit (bytes "m")
    then parsed (from_secs (scale value 60))
    else if str_eq unit (bytes "h")
    then parsed (from_secs (scale value 3600))
    else rejected raw

-- The number, with its unit, or the error of a number that cannot be read
unfoldable pub scaled : (ℕ → ℕ → ℕ) → Str → Str → Option ℕ → Parsed
scaled scale raw unit none = rejected raw
scaled scale raw unit (some value) = scale_unit scale raw value unit

unfoldable pub read_value : (ℕ → ℕ → ℕ) → Str → Option (Str × Str) → Parsed
read_value scale raw none = panicked
read_value scale raw (some (number, unit)) = scaled scale raw unit (parse_u64 number)

-- `duration_serde::parse_duration`: the products saturate.
unfoldable pub parse_duration : Str → Parsed
unfolding read_value split_unit
parse_duration raw = read_value saturating_mul_u64 raw (split_unit raw)

-- `value * 60`: a product that is out of range panics where overflow is checked, as in a debug build, and
-- wraps where it is not, as in a release build.
unfoldable pub product : Bool → ℕ → ℕ → Parsed
product checks a b =
    if checks && leb u64_mod (a * b) then panicked else parsed (from_secs (a * b % u64_mod))

unfoldable pub cli_unit : Bool → ℕ → Str → Parsed
cli_unit checks value unit =
    if str_eq unit (bytes "s")
    then parsed (from_secs value)
    else if str_eq unit (bytes "m")
    then product checks value 60
    else if str_eq unit (bytes "h")
    then product checks value 3600
    else rejected (bytes "duration must use s, m, or h")

unfoldable pub cli_scaled : Bool → Str → Option ℕ → Parsed
cli_scaled checks unit none = rejected (bytes "duration needs a numeric value")
cli_scaled checks unit (some value) = cli_unit checks value unit

unfoldable pub cli_value : Bool → Option (Str × Str) → Parsed
cli_value checks none = panicked
cli_value checks (some (number, unit)) = cli_scaled checks unit (parse_u64 number)

-- `parse_duration` of src/main.rs
unfoldable pub parse_cli_duration : Bool → Str → Parsed
unfolding split_unit
parse_cli_duration checks raw = cli_value checks (split_unit raw)

-- `duration_serde::serialize`: whole seconds.
unfoldable pub serialize_duration : Duration → Str
serialize_duration d = decimal (as_secs d) ++ bytes "s"

unfoldable pub serialize_optional_duration : Option Duration → Option Str
serialize_optional_duration none = none
serialize_optional_duration (some d) = some (serialize_duration d)

-- `optional_duration_serde::deserialize`: no text, or one that must be a duration
unfoldable pub deserialize_optional_duration : Option Str → Option Parsed
deserialize_optional_duration none = none
deserialize_optional_duration (some raw) = some (parse_duration raw)
