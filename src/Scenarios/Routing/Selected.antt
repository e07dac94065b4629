-- ===== src/Scenarios/Routing/Selected.antt =====
-- src/scenarios.rs: the events of a sender, and those of them that a test selects.
use tak_bench.Prelude.{
  ap, ◌-◌, Option, is_some, is_some_and, leb, ◌≤◌, ◌+◌, ◌⊎◌, some, none, Any, ◌≡◌, ◌≢◌, ◌↔◌, refl,
  Bool, true, false, not, List, [], ◌∷◌, select, length, is_empty, length-select-le, All, arith,
  inl, inr, Bool-cases,
}
use tak_bench.Prelude.Bytes.{Str, str_eq, str_eq_iff}
use tak_bench.Prelude.Time.{Duration}
use tak_bench.Scenarios.Ledger.{Uuid, Sent, Seen}
use tak_bench.Scenarios.Routing.{correlations}

module _ (test : Uuid → Bool) where
  -- Every element is selected exactly when the selection is as long as the list.
  pub select-All :
      (xs : List Uuid) → length (select test xs) ≡ length xs → All (λ x. test x ≡ true) xs
  select-All [] h = tt
  select-All (x ∷ xs) h = elim (Bool-cases (test x)) [
    | inl kept ↦ (kept, select-All xs (ground (arith, h, kept)))
    | inr dropped ↦ absurd (ground (arith, h, dropped, length-select-le test xs))
  ]

  pub All-select :
      (xs : List Uuid) → All (λ x. test x ≡ true) xs → length (select test xs) ≡ length xs
  All-select [] h = refl
  All-select (x ∷ xs) h = ground (arith, h.0, All-select xs h.1)

  pub select_none : (xs : List Uuid) → length (select test xs) ≡ 0 → All (λ x. test x ≡ false) xs
  select_none [] h = tt
  select_none (x ∷ xs) h = elim (Bool-cases (test x)) [
    | inl kept ↦ absurd (ground (arith, h, kept))
    | inr dropped ↦ (dropped, select_none xs (ground (arith, h, dropped)))
  ]

  pub none_select : (xs : List Uuid) → All (λ x. test x ≡ false) xs → length (select test xs) ≡ 0
  none_select [] h = refl
  none_select (x ∷ xs) h = ground (arith, h.0, none_select xs h.1)

pub nonempty : (xs : List Uuid) → (not (is_empty xs) ≡ true) ↔ (xs ≢ [])
nonempty [] = (λ h. cc, λ h. absurd (h refl))
nonempty (x ∷ xs) = (λ h e. cc, λ h. refl)

pub All-map :
    {P Q : Uuid → Type 0} → ((id : Uuid) → P id → Q id) → (xs : List Uuid) → All P xs → All Q xs
All-map f [] h = tt
All-map f (x ∷ xs) h = (f x h.0, All-map f xs h.1)

some-injective : {A : Type 0} {a b : A} → some a ≡ some b → a ≡ b
some-injective h = cc

true-false : {b : Bool} → b ≡ true → b ≡ false → ⊥
true-false h h' = cc

-- What holds for all identifiers that were sent by someone holds for all entries of that sender.
pub All-correlations :
    (P : Uuid → Type 0) (sender : Str) (sent : List Sent)
    → All P (correlations sender sent)
    → All (λ s. ¬ (s.sender ≡ sender) ⊎ P s.id) sent
unfolding correlations
All-correlations P sender [] h = tt
All-correlations P sender (s ∷ rest) h = elim (Bool-cases (str_eq s.sender sender)) [
  | inl own ↦ let kept = rw own at h in (inr kept.0, All-correlations P sender rest kept.1)
  | inr other ↦ (
    inl (λ e. true-false ((str_eq_iff s.sender sender).1 e) other),
    All-correlations P sender rest (rw other at h),
  )
]

pub correlations-All :
    (P : Uuid → Type 0) (sender : Str) (sent : List Sent)
    → All (λ s. ¬ (s.sender ≡ sender) ⊎ P s.id) sent
    → All P (correlations sender sent)
unfolding correlations
correlations-All P sender [] h = tt
correlations-All P sender (s ∷ rest) (first, others) =
    let later = correlations-All P sender rest others in
    elim (Bool-cases (str_eq s.sender sender)) [
      | inl own ↦ elim first [
        | inl foreign ↦ absurd (foreign ((str_eq_iff s.sender sender).0 own))
        | inr holds ↦ rw own (holds, later)
      ]
      | inr other ↦ rw other later
    ]

pub correlations-Any :
    (sender : Str) (sent : List Sent)
    → (correlations sender sent ≢ []) ↔ Any (λ s. s.sender ≡ sender) sent
unfolding correlations
correlations-Any sender [] = (λ h. h refl, λ h e. h)
correlations-Any sender (s ∷ rest) =
    let later = correlations-Any sender rest in
    elim (Bool-cases (str_eq s.sender sender)) [
      | inl own ↦ rw own (λ h. inl ((str_eq_iff s.sender sender).0 own), λ h e. cc)
      | inr other ↦ rw other (
        λ h. inr (later.0 h),
        λ h. elim h [
          | inl same ↦ absurd (true-false ((str_eq_iff s.sender sender).1 same) other)
          | inr more ↦ later.1 more
        ],
      )
    ]

-- Both lookups find an entry, and their times are near enough.
pub in_time_iff :
    (timeout : Duration) (o : Option Seen) (p : Option Sent)
    → (is_some_and o (λ seen. is_some_and p λ sent. leb (seen.at - sent.at) timeout) ≡ true) ↔ (
        (seen : Seen) × (sent : Sent) × (o ≡ some seen)
        × (p ≡ some sent)
        × (seen.at ≤ sent.at + timeout))
in_time_iff timeout none p = (λ h. cc, λ (seen, sent, found, _, _). cc)
in_time_iff timeout (some seen) none = (λ h. cc, λ (seen', sent, _, found, _). cc)
in_time_iff timeout (some seen) (some sent) = (
  λ h. (seen, sent, refl, refl, ground (arith, h)),
  λ (seen', sent', found, begun, near).
      let same_seen : seen.at ≡ seen'.at = ap (λ s. s.at) (some-injective found) in
      let same_sent : sent.at ≡ sent'.at = ap (λ s. s.at) (some-injective begun) in
      ground (arith, same_seen, same_sent, near),
)

pub none_iff : (o : Option Seen) → (is_some o ≡ false) ↔ (o ≡ none)
none_iff none = (λ h. refl, λ h. refl)
none_iff (some seen) = (λ h. cc, λ h. cc)
