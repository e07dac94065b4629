-- ===== src/Config/RoundTrip.antt =====
-- src/config.rs: a duration that is written is read again.
use mathlib.Core.List.{reverse-append, reverse-reverse}
use tak_bench.Prelude.{
  Bool, ℕ, zero, suc, ◌+◌, ◌*◌, ◌/◌, ◌%◌, ◌≤◌, ◌<◌, ◌≡◌, ◌≢◌, refl, sym, ◌∙◌, ap, true, some, [],
  ◌∷◌, ◌++◌, reverse, ltb, leb, length, take, drop, All, All-append, length-append, subst, inl, inr,
  Bool-cases, arith, tests,
}
use tak_bench.Prelude.Bytes.{Bytes, Str, bytes, str_eq}
use tak_bench.Prelude.Time.{Duration, u64_max, max_duration, from_secs, as_secs, saturating_mul_u64}
use tak_bench.Config.Text.{
  is_ascii_digit, white_space, white_space_back, drop_chars, trim, find_non_digit, parse_digits,
  parse_u64, decimal, decimal_from,
}
use tak_bench.Config.Parse.{
  parsed, split_at, split_unit, scale_unit, scaled, read_value, parse_duration, parse_cli_duration,
  cli_value, cli_scaled, cli_unit, serialize_duration, serialize_optional_duration,
  deserialize_optional_duration,
}

abbrev IsDigit : ℕ → Type 0
IsDigit b = is_ascii_digit b ≡ true

abbrev pow10 : ℕ → ℕ
pow10 zero = 1
pow10 (suc n) = 10 * pow10 n

numeral-IsDigit : (d : ℕ) → d < 10 → IsDigit (b'0' + d)
numeral-IsDigit d small = ground arith

-- One digit read
parse_digit :
    (acc d : ℕ) (rest : Str)
    → d < 10
    → acc * 10 + d ≤ u64_max
    → parse_digits acc ((b'0' + d) ∷ rest) ≡ parse_digits (acc * 10 + d) rest
unfolding parse_digits
parse_digit acc d rest small fits = ground arith

-- What is written of a number reads as the number.
parse-decimal_from :
    (fuel n : ℕ) (acc : Str)
    → n < pow10 fuel
    → n ≤ u64_max
    → parse_digits 0 (decimal_from fuel n acc) ≡ parse_digits n acc
unfolding decimal_from
parse-decimal_from zero n acc small fits = rw (let e : n ≡ 0 = omega arith in e) refl
parse-decimal_from (suc fuel) n acc small fits = elim (Bool-cases (ltb n 10)) [
  | inl one ↦ rw one (
      parse_digit 0 n acc (omega (tests, one)) (omega (arith, fits))
      ∙ ap (λ k. parse_digits k acc) (omega arith))
  | inr more ↦ rw more (
      parse-decimal_from fuel (n / 10) ((b'0' + n % 10) ∷ acc) (omega (arith, small))
        (omega (arith, fits))
      ∙ parse_digit (n / 10) (n % 10) acc (omega arith) (omega (arith, fits))
      ∙ ap (λ k. parse_digits k acc) (omega arith))
]

decimal_from-digits :
    (fuel n : ℕ) (acc : Str) → All IsDigit acc → All IsDigit (decimal_from fuel n acc)
unfolding decimal_from
decimal_from-digits zero n acc h = h
decimal_from-digits (suc fuel) n acc h = elim (Bool-cases (ltb n 10)) [
  | inl one ↦ rw one (numeral-IsDigit n (omega (tests, one)), h)
  | inr more ↦ rw more (
      decimal_from-digits fuel (n / 10) ((b'0' + n % 10) ∷ acc)
        (numeral-IsDigit (n % 10) (omega arith), h))
]

decimal_from-filled : (fuel n : ℕ) (acc : Str) → decimal_from (suc fuel) n acc ≢ []
unfolding decimal_from
decimal_from-filled zero n acc h = elim (Bool-cases (ltb n 10)) [
  | inl one ↦ let h' = rw one at h in cc
  | inr more ↦ let h' = rw more at h in cc
]
decimal_from-filled (suc fuel) n acc h = elim (Bool-cases (ltb n 10)) [
  | inl one ↦ let h' = rw one at h in cc
  | inr more ↦ decimal_from-filled fuel (n / 10) ((b'0' + n % 10) ∷ acc) (rw more at h)
]

parse_u64-filled : (text : Str) → text ≢ [] → parse_u64 text ≡ parse_digits 0 text
unfolding parse_u64
parse_u64-filled [] h = absurd (h refl)
parse_u64-filled (b ∷ rest) h = refl

parse_u64-decimal : (n : ℕ) → n ≤ u64_max → parse_u64 (decimal n) ≡ some n
unfolding decimal
parse_u64-decimal n fits =
    parse_u64-filled (decimal_from 20 n []) (decimal_from-filled 19 n [])
    ∙ parse-decimal_from 20 n [] (omega arith) fits
    ∙ parsed_all n
  where
    parsed_all : (k : ℕ) → parse_digits k [] ≡ some k
    parsed_all k = unfold parse_digits in refl

-- Digits in front, and no white space
digit-white_space : (b : ℕ) (rest : Str) → IsDigit b → white_space (b ∷ rest) ≡ 0
unfolding white_space
digit-white_space b [] h = ground (arith, h)
digit-white_space b (c ∷ []) h = ground (arith, h)
digit-white_space b (c ∷ d ∷ rest) h = ground (arith, h)

unit-white_space_back : (rest : Str) → All IsDigit rest → white_space_back (b's' ∷ rest) ≡ 0
unfolding white_space_back
unit-white_space_back [] h = unfold white_space in refl
unit-white_space_back (b ∷ []) h =
    rw (digit-white_space b (b's' ∷ []) h.0) (unfold white_space in refl)
unit-white_space_back (b ∷ c ∷ rest) h =
    rw (digit-white_space b (b's' ∷ []) h.0, digit-white_space c (b ∷ b's' ∷ []) h.1.0)
      (unfold white_space in refl)

drop_chars-none :
    (width : Bytes → ℕ) (fuel : ℕ) (text : Bytes)
    → width text ≡ 0
    → drop_chars width fuel text ≡ text
unfolding drop_chars
drop_chars-none width zero text h = refl
drop_chars-none width (suc fuel) text h = rw h refl

All-reverse : (xs : Str) → All IsDigit xs → All IsDigit (reverse xs)
All-reverse [] h = tt
All-reverse (x ∷ xs) h =
    subst (λ l. All IsDigit l) (sym (reverse-append (x ∷ []) xs))
      (All-append IsDigit (reverse xs) (x ∷ []) (All-reverse xs h.1) (h.0, tt))

front-white_space : (ds : Str) → All IsDigit ds → white_space (ds ++ bytes "s") ≡ 0
front-white_space [] h = unfold white_space in refl
front-white_space (d ∷ ds) h = digit-white_space d (ds ++ bytes "s") h.0

trim-digits : (ds : Str) → All IsDigit ds → trim (ds ++ bytes "s") ≡ ds ++ bytes "s"
unfolding trim
trim-digits ds h =
    let text = ds ++ bytes "s" in
    let back = b's' ∷ reverse ds in
    let turned : reverse text ≡ back = reverse-append ds (bytes "s") in
    rw (drop_chars-none white_space (length text) text (front-white_space ds h)) (
      rw turned (
        rw
          (drop_chars-none white_space_back (length text) back
            (unit-white_space_back (reverse ds) (All-reverse ds h)))
          (ap reverse (sym turned) ∙ reverse-reverse text)))

find_non_digit-unit :
    (ds : Str) → All IsDigit ds → find_non_digit (ds ++ bytes "s") ≡ some (length ds)
unfolding find_non_digit
find_non_digit-unit [] h = refl
find_non_digit-unit (d ∷ ds) h = ground (arith, h.0, find_non_digit-unit ds h.1)

take-length : (xs ys : Str) → take (length xs) (xs ++ ys) ≡ xs
take-length [] ys = refl
take-length (x ∷ xs) ys = ap (λ l. x ∷ l) (take-length xs ys)

drop-length : (xs ys : Str) → drop (length xs) (xs ++ ys) ≡ ys
drop-length [] ys = refl
drop-length (x ∷ xs) ys = drop-length xs ys

split_unit-digits :
    (ds : Str) → All IsDigit ds → split_unit (ds ++ bytes "s") ≡ some (ds, bytes "s")
unfolding split_unit split_at
split_unit-digits ds h =
    let within : leb (length ds) (length (ds ++ bytes "s")) ≡ true =
      ground (arith, length-append ds (bytes "s")) in
    rw (trim-digits ds h) (
      rw (find_non_digit-unit ds h) (
        rw within (
          ap (λ parts. some parts)
            (λ i. (take-length ds (bytes "s") i, drop-length ds (bytes "s") i)))))

read-seconds :
    (scale : ℕ → ℕ → ℕ) (raw : Str) (n : ℕ)
    → n ≤ u64_max
    → read_value scale raw (some (decimal n, bytes "s")) ≡ parsed (from_secs n)
unfolding read_value
read-seconds scale raw n fits =
    rw (parse_u64-decimal n fits) (unfold scaled scale_unit str_eq in refl)

cli-seconds :
    (checks : Bool) (n : ℕ)
    → n ≤ u64_max
    → cli_value checks (some (decimal n, bytes "s")) ≡ parsed (from_secs n)
unfolding cli_value
cli-seconds checks n fits =
    rw (parse_u64-decimal n fits) (unfold cli_scaled cli_unit str_eq in refl)

split_unit-serialized :
    (d : Duration) → split_unit (serialize_duration d) ≡ some (decimal (as_secs d), bytes "s")
unfolding serialize_duration decimal
split_unit-serialized d =
    split_unit-digits (decimal_from 20 (as_secs d) []) (decimal_from-digits 20 (as_secs d) [] tt)

-- A duration that the configuration writes is read again, by the reader of the configuration, by that of
-- optional durations and by that of the command line, as its whole seconds: what is left of a second is
-- lost, and nothing else, whether overflow is checked or not.
pub parse_duration-serialize_duration :
    (d : Duration) (checks : Bool)
    → d ≤ max_duration
    → let seconds = parsed (from_secs (as_secs d)) in
      (parse_duration (serialize_duration d) ≡ seconds)
      × (deserialize_optional_duration (serialize_optional_duration (some d)) ≡ some seconds)
      × (parse_cli_duration checks (serialize_duration d) ≡ seconds)
unfolding parse_duration parse_cli_duration deserialize_optional_duration
    serialize_optional_duration
parse_duration-serialize_duration d checks fits =
    let text = serialize_duration d in
    let read : (scale : ℕ → ℕ → ℕ)
        → read_value scale text (split_unit text) ≡ parsed (from_secs (as_secs d)) =
      λ scale. rw (split_unit-serialized d) (read-seconds scale text (as_secs d) (omega arith)) in
    (
      read saturating_mul_u64,
      ap some (read saturating_mul_u64),
      rw (split_unit-serialized d) (cli-seconds checks (as_secs d) (omega arith)),
    )
