-- ===== src/Config/Durations.antt =====
-- src/config.rs and src/main.rs: when the readers of durations panic.
use tak_bench.Prelude.{
  Bool, true, ◌⊎◌, ℕ, ◌≤◌, ◌<◌, ◌≡◌, ◌↔◌, refl, Option, none, some, [], ◌∷◌, length, arith, inl,
  inr, Bool-cases, Option-cases,
}
use tak_bench.Prelude.Bytes.{Str}
use tak_bench.Prelude.Time.{saturating_mul_u64}
use tak_bench.Config.Text.{trim, find_non_digit, is_ascii_digit, parse_u64}
use tak_bench.Config.Parse.{
  panicked, split_at, split_unit, scale_unit, scaled, read_value, parse_duration,
  parse_cli_duration,
}
use tak_bench.Config.Overflow.{IsOverflowing, cli_value-panicked_iff}

find_non_digit-within : (text : Str) (n : ℕ) → find_non_digit text ≡ some n → n ≤ length text
unfolding find_non_digit
find_non_digit-within [] n h = cc
find_non_digit-within (b ∷ rest) n h = elim (Bool-cases (is_ascii_digit b)) [
  | inl digit ↦ elim (Option-cases (find_non_digit rest)) [
    | inl missing ↦ ground (arith, h, digit, missing)
    | inr found ↦ ground (arith, h, digit, found.1, find_non_digit-within rest found.0 found.1)
  ]
  | inr other ↦ ground (arith, h, other)
]

some-none : {A : Type 0} {a : A} → ¬ (some a ≡ none)
some-none h = cc

split_at-none_iff : (mid : ℕ) (text : Str) → (split_at mid text ≡ none) ↔ (length text < mid)
unfolding split_at
split_at-none_iff mid text = (λ h. ground arith, λ h. ground arith)

-- The text of a duration that makes the split panic
abbrev pub IsUnsplittable : Str → Type 0
IsUnsplittable raw = (find_non_digit (trim raw) ≡ none) × (length (trim raw) < length raw)

split_unit-none_iff : (raw : Str) → (split_unit raw ≡ none) ↔ IsUnsplittable raw
unfolding split_unit
split_unit-none_iff raw = elim (Option-cases (find_non_digit (trim raw))) [
  | inl digits ↦ rw digits (
    λ h. (refl, (split_at-none_iff (length raw) (trim raw)).0 h),
    λ h. (split_at-none_iff (length raw) (trim raw)).1 h.1,
  )
  | inr found ↦
      let within = find_non_digit-within (trim raw) found.0 found.1 in
      rw found.1 (
        λ h. absurd (omega (arith, within, (split_at-none_iff found.0 (trim raw)).0 h)),
        λ h. absurd (some-none h.0),
      )
]

scale_unit-returns :
    (scale : ℕ → ℕ → ℕ) (raw : Str) (value : ℕ) (unit : Str)
    → ¬ (scale_unit scale raw value unit ≡ panicked)
unfolding scale_unit
scale_unit-returns scale raw value unit h = ground (arith, h)

scaled_returns :
    (scale : ℕ → ℕ → ℕ) (raw unit : Str) (value : Option ℕ)
    → ¬ (scaled scale raw unit value ≡ panicked)
unfolding scaled
scaled_returns scale raw unit none h = cc
scaled_returns scale raw unit (some value) h = scale_unit-returns scale raw value unit h

read_value-panicked_iff :
    (scale : ℕ → ℕ → ℕ) (raw : Str) (parts : Option (Str × Str))
    → (read_value scale raw parts ≡ panicked) ↔ (parts ≡ none)
unfolding read_value
read_value-panicked_iff scale raw none = (λ h. refl, λ h. refl)
read_value-panicked_iff scale raw (some (number, unit)) =
    (λ h. absurd (scaled_returns scale raw unit (parse_u64 number) h), λ h. absurd (some-none h))

-- The reader of durations of the configuration panics exactly where the trimmed text has no character
-- but digits and white space was trimmed. That of the command line panics there too, and where overflow
-- is checked, as in a debug build, exactly also where the text is a number of minutes or hours that is no
-- 64-bit number of seconds. On every other text they return a duration or an error.
pub parse_duration-panicked_iff :
    (raw : Str) (checks : Bool)
    → ((parse_duration raw ≡ panicked) ↔ IsUnsplittable raw)
      × ((parse_cli_duration checks raw ≡ panicked)
          ↔ (IsUnsplittable raw ⊎ ((checks ≡ true) × IsOverflowing (split_unit raw))))
unfolding parse_duration parse_cli_duration
parse_duration-panicked_iff raw checks =
    let split = split_unit-none_iff raw in
    let saturating = read_value-panicked_iff saturating_mul_u64 raw (split_unit raw) in
    let cli = cli_value-panicked_iff checks (split_unit raw) in
    (
      (λ h. split.0 (saturating.0 h), λ h. saturating.1 (split.1 h)),
      (
        λ h. elim (cli.0 h) [ inl missing ↦ inl (split.0 missing) | inr over ↦ inr over ],
        λ h. elim h [ inl text ↦ cli.1 (inl (split.1 text)) | inr over ↦ cli.1 (inr over) ],
      ),
    )
