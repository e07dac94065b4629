-- ===== src/Config/Tests.antt =====
-- src/config.rs: durations as text at concrete inputs.
use tak_bench.Prelude.{Bool, true, false, ◌⊎◌, ℕ, ◌≡◌, ◌↔◌, refl, some, arith}
use tak_bench.Prelude.Bytes.{bytes, str_eq}
use tak_bench.Prelude.Time.{from_secs}
use tak_bench.Config.Text.{
  white_space, white_space_back, drop_chars, trim, find_non_digit, parse_digits, parse_u64,
  decimal_from, decimal,
}
use tak_bench.Config.Parse.{
  parsed, rejected, panicked, split_at, split_unit, scale_unit, scaled, read_value, parse_duration,
  product, cli_unit, cli_scaled, cli_value, parse_cli_duration, serialize_duration,
  serialize_optional_duration, deserialize_optional_duration,
}
use tak_bench.Config.RoundTrip.{parse_duration-serialize_duration}
use tak_bench.Config.Durations.{IsUnsplittable, parse_duration-panicked_iff}
use tak_bench.Config.Overflow.{IsOverflowing}

reading : ℕ
unfolding str_eq white_space white_space_back drop_chars trim find_non_digit parse_digits parse_u64
    decimal_from decimal split_at split_unit scale_unit scaled read_value parse_duration product
    cli_unit cli_scaled cli_value parse_cli_duration serialize_duration
reading = 0

minutes_with_spaces : parse_duration (bytes " 15m ") ≡ parsed (from_secs 900)
unfolding reading
minutes_with_spaces = refl

hours_saturate :
    parse_duration (bytes "9000000000000000000h") ≡ parsed (from_secs 18446744073709551615)
unfolding reading
hours_saturate = refl

minutes_wrap : parse_cli_duration false (bytes "9223372036854775808m") ≡ parsed 0
unfolding reading
minutes_wrap = refl

minutes_panic : parse_cli_duration true (bytes "9223372036854775808m") ≡ panicked
unfolding reading
minutes_panic = refl

unit_needed : parse_duration (bytes "30") ≡ rejected (bytes "30")
unfolding reading
unit_needed = refl

spaces_panic : parse_duration (bytes " 30 ") ≡ panicked
unfolding reading
spaces_panic = refl

written_and_read : parse_duration (serialize_duration (from_secs 90)) ≡ parsed (from_secs 90)
unfolding reading
written_and_read = refl

parse_duration-panicked_iff_example :
    ((parse_duration (bytes " 30 ") ≡ panicked) ↔ IsUnsplittable (bytes " 30 "))
    × ((parse_cli_duration true (bytes " 30 ") ≡ panicked) ↔ (
        IsUnsplittable (bytes " 30 ")
        ⊎ ((let on : Bool = true in on ≡ true) × IsOverflowing (split_unit (bytes " 30 ")))))
parse_duration-panicked_iff_example = parse_duration-panicked_iff (bytes " 30 ") true

parse_duration-serialize_duration_example :
    let seconds = parsed (from_secs 90) in
    (parse_duration (serialize_duration 90500000000) ≡ seconds)
    × (deserialize_optional_duration (serialize_optional_duration (some 90500000000))
        ≡ some seconds)
    × (parse_cli_duration true (serialize_duration 90500000000) ≡ seconds)
parse_duration-serialize_duration_example =
    parse_duration-serialize_duration 90500000000 true (omega arith)
