-- ===== src/Config/Overflow.antt =====
-- src/main.rs: when the reader of durations of the command line panics.
use tak_bench.Prelude.{
  Bool, true, false, ◌*◌, ◌⊎◌, ap, sym, ◌∙◌, ℕ, ◌≤◌, ◌≡◌, ◌↔◌, refl, Option, none, some, arith, inl,
  inr, Bool-cases,
}
use tak_bench.Prelude.Bytes.{Str, bytes, str_eq, str_eq_iff}
use tak_bench.Prelude.Time.{u64_mod}
use tak_bench.Config.Text.{parse_u64}
use tak_bench.Config.Parse.{panicked, product, cli_unit, cli_scaled, cli_value}

some-none : {A : Type 0} {a : A} → ¬ (some a ≡ none)
some-none h = cc

some-injective : {A : Type 0} {a b : A} → some a ≡ some b → a ≡ b
some-injective h = cc

-- A number of minutes or hours that is no 64-bit number of seconds
abbrev pub IsTooLong : ℕ → Str → Type 0
IsTooLong value unit =
    ((unit ≡ bytes "m") × (u64_mod ≤ value * 60)) ⊎ ((unit ≡ bytes "h") × (u64_mod ≤ value * 3600))

-- The text holds such a number with its unit.
pub record IsOverflowing (parts : Option (Str × Str)) : Type 0 where
  pub number : Str
  pub unit : Str
  pub value : ℕ
  pub cut : parts ≡ some (number, unit)
  pub read : parse_u64 number ≡ some value
  pub long : IsTooLong value unit

product-panicked_iff :
    (checks : Bool) (a b : ℕ)
    → (product checks a b ≡ panicked) ↔ ((checks ≡ true) × (u64_mod ≤ a * b))
unfolding product
product-panicked_iff true a b = (λ h. (refl, ground (arith, h)), λ h. ground (arith, h.1))
product-panicked_iff false a b = (λ h. cc, λ h. cc)

no_minutes_seconds : ¬ (bytes "s" ≡ bytes "m")
no_minutes_seconds h = ground (arith, h)

no_hours_seconds : ¬ (bytes "s" ≡ bytes "h")
no_hours_seconds h = ground (arith, h)

no_hours_minutes : ¬ (bytes "m" ≡ bytes "h")
no_hours_minutes h = ground (arith, h)

differs : {b : Bool} → b ≡ true → b ≡ false → ⊥
differs h h' = cc

cli_unit-panicked_iff :
    (checks : Bool) (value : ℕ) (unit : Str)
    → (cli_unit checks value unit ≡ panicked) ↔ ((checks ≡ true) × IsTooLong value unit)
unfolding cli_unit
cli_unit-panicked_iff checks value unit = elim (Bool-cases (str_eq unit (bytes "s"))) [
  | inl is_s ↦
      let u = (str_eq_iff unit (bytes "s")).0 is_s in
      rw is_s (
        λ h. cc,
        λ (on, long). elim long [
          | inl (m, _) ↦ absurd (no_minutes_seconds (sym u ∙ m))
          | inr (hour, _) ↦ absurd (no_hours_seconds (sym u ∙ hour))
        ],
      )
  | inr no_s ↦ elim (Bool-cases (str_eq unit (bytes "m"))) [
    | inl is_m ↦
        let u = (str_eq_iff unit (bytes "m")).0 is_m in
        let times = product-panicked_iff checks value 60 in
        rw (no_s, is_m)
          (
            λ h. ((times.0 h).0, inl (u, (times.0 h).1)),
            λ (on, long). elim long [
              | inl (_, big) ↦ times.1 (on, big)
              | inr (hour, _) ↦ absurd (no_hours_minutes (sym u ∙ hour))
            ],
          )
    | inr no_m ↦ elim (Bool-cases (str_eq unit (bytes "h"))) [
      | inl is_h ↦
          let u = (str_eq_iff unit (bytes "h")).0 is_h in
          let times = product-panicked_iff checks value 3600 in
          rw (no_s, no_m, is_h)
            (
              λ h. ((times.0 h).0, inr (u, (times.0 h).1)),
              λ (on, long). elim long [
                | inl (m, _) ↦ absurd (no_hours_minutes (sym m ∙ u))
                | inr (_, big) ↦ times.1 (on, big)
              ],
            )
      | inr no_h ↦
          rw (no_s, no_m, no_h)
            (
              λ h. cc,
              λ (on, long). elim long [
                | inl (m, _) ↦ absurd (differs ((str_eq_iff unit (bytes "m")).1 m) no_m)
                | inr (hour, _) ↦ absurd (differs ((str_eq_iff unit (bytes "h")).1 hour) no_h)
              ],
            )
    ]
  ]
]

cli_scaled-panicked_iff :
    (checks : Bool) (number unit : Str) (read : Option ℕ)
    → read ≡ parse_u64 number
    → (cli_scaled checks unit read ≡ panicked)
      ↔ ((checks ≡ true) × IsOverflowing (some (number, unit)))
unfolding cli_scaled
cli_scaled-panicked_iff checks number unit none same = (
  λ h. cc,
  λ (on, over).
      let number_same : number ≡ over.number = ap (λ p. p.0) (some-injective over.cut) in
      absurd (some-none (sym over.read ∙ ap parse_u64 (sym number_same) ∙ sym same)),
)
cli_scaled-panicked_iff checks number unit (some value) same =
    let test = cli_unit-panicked_iff checks value unit in
    (
      λ h. (
        (test.0 h).0,
        record {
          number = number;
          unit = unit;
          value = value;
          cut = refl;
          read = sym same;
          long = (test.0 h).1;
        },
      ),
      λ (on, over).
          let number_same : number ≡ over.number = ap (λ p. p.0) (some-injective over.cut) in
          let unit_same : unit ≡ over.unit = ap (λ p. p.1) (some-injective over.cut) in
          let value_same : over.value ≡ value =
            some-injective (sym over.read ∙ ap parse_u64 (sym number_same) ∙ sym same) in
          test.1 (on, rw (← value_same, unit_same) over.long),
    )

pub cli_value-panicked_iff :
    (checks : Bool) (parts : Option (Str × Str))
    → (cli_value checks parts ≡ panicked)
      ↔ ((parts ≡ none) ⊎ ((checks ≡ true) × IsOverflowing parts))
unfolding cli_value
cli_value-panicked_iff checks none = (λ h. inl refl, λ h. refl)
cli_value-panicked_iff checks (some (number, unit)) =
    let test = cli_scaled-panicked_iff checks number unit (parse_u64 number) refl in
    (
      λ h. inr (test.0 h),
      λ h. elim h [ inl missing ↦ absurd (some-none missing) | inr over ↦ test.1 over ],
    )
