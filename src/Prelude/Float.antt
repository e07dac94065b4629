-- ===== src/Prelude/Float.antt =====
-- What the program does with an `f64`: the standard library's operations, kept abstract. A property
-- that needs a law of floating point takes it as a hypothesis.
use Prim.Native.Nat.{ℕ, ◌+◌, ◌-◌, ◌*◌, ◌/◌}
use mathlib.Core.Bool.{Bool, true}
use tak_bench.Prelude.Tests.{ltb, leb, ◌==◌}

pub record Float : Type 1 where
  pub F64 : Type 0
  -- a non-negative decimal literal: numerator and denominator
  pub literal : ℕ → ℕ → F64
  -- `f64::from(n)` for `n : u32`
  pub from_u32 : ℕ → F64
  pub eq : F64 → F64 → Bool
  pub gt : F64 → F64 → Bool
  pub le : F64 → F64 → Bool
  pub is_finite : F64 → Bool
  pub add : F64 → F64 → F64
  pub sub : F64 → F64 → F64
  pub mul : F64 → F64 → F64
  pub div : F64 → F64 → F64
  -- `Duration::as_secs_f64`, `Duration::from_secs_f64` and `Duration::mul_f64`, in nanoseconds
  pub as_secs : ℕ → F64
  pub from_secs : F64 → ℕ
  pub mul_duration : ℕ → F64 → ℕ

-- Fixed-point numbers, in millionths, as a concrete choice
abbrev pub micros : Float
micros = record {
  F64 = ℕ;
  literal = λ n d. n * 1000000 / d;
  from_u32 = λ n. n * 1000000;
  eq = λ a b. a == b;
  gt = λ a b. ltb b a;
  le = λ a b. leb a b;
  is_finite = λ a. true;
  add = λ a b. a + b;
  sub = λ a b. a - b;
  mul = λ a b. a * b / 1000000;
  div = λ a b. a * 1000000 / b;
  as_secs = λ ns. ns / 1000;
  from_secs = λ a. a * 1000;
  mul_duration = λ ns a. ns * a / 1000000;
}
