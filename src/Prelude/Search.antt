-- ===== src/Prelude/Search.antt =====
-- Laws of substring search: what an extension of the text changes, and what it leaves.
use Prim.Native.Nat.{◌<◌, ◌-◌, ℕ, zero, suc, ◌+◌, ◌≤◌}
use mathlib.Core.Path.{sym, ◌≡◌, refl, ap, ◌∙◌}
use mathlib.Core.Logic.{◌≢◌, inl, inr}
use mathlib.Core.Bool.{true, false}
use mathlib.Core.Option
use mathlib.Core.Option.{Option, none, some}
use mathlib.Core.List.{[], ◌∷◌, ◌++◌}
use native.Mathlib.Omega.{arith}
use tak_bench.Prelude.Tests.{ltb, tests, Bool-cases, Option-cases}
use tak_bench.Prelude.Lists.{length, drop}
use tak_bench.Prelude.Bytes.{Bytes, starts_with, position}

pub starts_with-append : (p x c : Bytes) → starts_with p x ≡ true → starts_with p (x ++ c) ≡ true
unfolding starts_with
starts_with-append [] x c h = refl
starts_with-append (a ∷ p) [] c h = cc
starts_with-append (a ∷ p) (b ∷ x) c h = ground (arith, starts_with-append p x c)

pub starts_with-length : (p x : Bytes) → starts_with p x ≡ true → length p ≤ length x
unfolding starts_with
starts_with-length [] x h = omega arith
starts_with-length (a ∷ p) [] h = cc
starts_with-length (a ∷ p) (b ∷ x) h = ground (arith, starts_with-length p x)

-- A match that lies within the text does not depend on what follows.
pub starts_with-within :
    (p x c : Bytes) → length p ≤ length x → starts_with p (x ++ c) ≡ starts_with p x
unfolding starts_with
starts_with-within [] x c h = refl
starts_with-within (a ∷ p) [] c h = absurd (omega arith)
starts_with-within (a ∷ p) (b ∷ x) c h = ground (arith, starts_with-within p x c (omega arith))

pub position-starts_with : (p x : Bytes) → starts_with p x ≡ true → position p x ≡ some 0
unfolding position
position-starts_with p [] h = rw h
position-starts_with p (b ∷ x) h = rw h

pub position-drop :
    (p x : Bytes) (n : ℕ)
    → position p x ≡ some n
    → (n + length p ≤ length x) × (starts_with p (drop n x) ≡ true)
unfolding position
position-drop p [] n h = elim (Bool-cases (starts_with p [])) [
  | inl here ↦
      let e : n ≡ 0 = ground (arith, h, here) in
      rw e (omega (arith, starts_with-length p [] here), here)
  | inr other ↦ ground (arith, h, other)
]
position-drop p (b ∷ x) n h = elim (Bool-cases (starts_with p (b ∷ x))) [
  | inl here ↦
      let e : n ≡ 0 = ground (arith, h, here) in
      rw e (omega (arith, starts_with-length p (b ∷ x) here), here)
  | inr other ↦ elim (Option-cases (position p x)) [
    | inl missing ↦ ground (arith, h, other, missing)
    | inr (m, found) ↦
        let e : n ≡ suc m = ground (arith, h, other, found) in
        let (within, match) = position-drop p x m found in rw e (omega (arith, within), match)
  ]
]

-- The first match stays the first match when the text grows.
pub position-append : (p x c : Bytes) (n : ℕ) → position p x ≡ some n → position p (x ++ c) ≡ some n
unfolding position
position-append p [] c n h = elim (Bool-cases (starts_with p [])) [
  | inl here ↦
      let e : n ≡ 0 = ground (arith, h, here) in
      rw e (position-starts_with p c (starts_with-append p [] c here))
  | inr other ↦ ground (arith, h, other)
]
position-append p (b ∷ x) c n h = elim (Bool-cases (starts_with p (b ∷ x))) [
  | inl here ↦
      let e : n ≡ 0 = ground (arith, h, here) in
      rw e (position-starts_with p (b ∷ (x ++ c)) (starts_with-append p (b ∷ x) c here))
  | inr other ↦ elim (Option-cases (position p x)) [
    | inl missing ↦ ground (arith, h, other, missing)
    | inr (m, found) ↦ ground (
      arith,
      position-append p x c m found,
      starts_with-within p (b ∷ x) c (omega (arith, position-drop p x m found)),
    )
  ]
]

map-zero : (o : Option ℕ) → o ≡ Option.map (λ n. 0 + n) o
map-zero none = refl
map-zero (some n) = ap some (omega arith)

map-suc-map :
    (k : ℕ) (o : Option ℕ)
    → Option.map suc (Option.map (λ n. k + n) o) ≡ Option.map (λ n. suc k + n) o
map-suc-map k none = refl
map-suc-map k (some n) = ap some (omega arith)

not_missing : (p : Bytes) → length p ≤ 0 → position p [] ≢ none
unfolding position starts_with
not_missing [] h missing = cc
not_missing (a ∷ p) h missing = omega arith

-- Where a text has no match, only its last `length p - 1` bytes can take part in one.
pub position-append_none :
    (p x c : Bytes) (k : ℕ)
    → k + length p ≤ suc (length x)
    → position p x ≡ none
    → position p (x ++ c) ≡ Option.map (λ n. k + n) (position p (drop k x ++ c))
unfolding position
position-append_none p x c zero h missing = map-zero (position p (x ++ c))
position-append_none p [] c (suc k) h missing = absurd (not_missing p (omega arith) missing)
position-append_none p (b ∷ x) c (suc k) h missing =
    let here = starts_with-within p (b ∷ x) c (omega arith) in
    let later = position-append_none p x c k (omega arith) (ground (arith, missing)) in
    let other : starts_with p (b ∷ x) ≡ false = ground (arith, missing) in
    rw (here ∙ other, later) (map-suc-map k (position p (drop k x ++ c)))

-- A text without a match has none once it grows that ends within it.
pub position-beyond :
    (p x c : Bytes) (n : ℕ)
    → position p x ≡ none
    → position p (x ++ c) ≡ some n
    → length x < n + length p
position-beyond p x c n missing found = elim (Bool-cases (ltb (suc (length x)) (length p))) [
  | inl short ↦ omega (tests, short)
  | inr long ↦
      let k = suc (length x) - length p in
      let fits : k + length p ≤ suc (length x) = omega (tests, long) in
      let moved = position-append_none p x c k fits missing in
      elim (Option-cases (position p (drop k x ++ c))) [
        | inl never ↦ ground (arith, found, moved, never)
        | inr (m, later) ↦
            let n_eq : n ≡ k + m = ground (arith, found, moved, later) in omega (tests, n_eq, long)
      ]
]

-- A first match that lies within a part of the text is the first match of the part.
pub position-within :
    (p x c : Bytes) (n : ℕ)
    → position p (x ++ c) ≡ some n
    → n + length p ≤ length x
    → position p x ≡ some n
position-within p x c n found h = elim (Option-cases (position p x)) [
  | inl missing ↦ absurd (omega (arith, position-beyond p x c n missing found))
  | inr (m, earlier) ↦ earlier ∙ sym (position-append p x c m earlier) ∙ found
]
