-- ===== src/Scenarios/Ledger.antt =====
-- src/scenarios.rs: CorrelationLedger. A hash map is an association list with one entry for a key, a
-- UUID a number, and an instant its nanoseconds.
use tak_bench.Prelude.{
  ℕ, ◌≡◌, refl, Bool, ◌&&◌, Option, none, some, List, [], ◌∷◌, ◌==◌, if◌then◌else◌, arith,
}
use tak_bench.Prelude.Bytes.{Str, str_eq, str_eq_iff}

abbrev pub Uuid : Type 0
Uuid = ℕ

abbrev pub Instant : Type 0
Instant = ℕ

pub record Sent : Type 0 where
  pub id : Uuid
  pub sender : Str
  pub at : Instant

pub record Seen : Type 0 where
  pub receiver : Str
  pub id : Uuid
  pub at : Instant

pub record CorrelationLedger : Type 0 where
  pub sent : List Sent
  pub seen : List Seen

abbrev pub empty : CorrelationLedger
empty = record { sent = []; seen = [] }

unfoldable pub lookup_sent : Uuid → List Sent → Option Sent
lookup_sent id [] = none
lookup_sent id (s ∷ rest) = if s.id == id then some s else lookup_sent id rest

-- `sent.insert`: a key that is there gets the new value.
unfoldable pub insert_sent : Sent → List Sent → List Sent
insert_sent s [] = s ∷ []
insert_sent s (t ∷ rest) = if t.id == s.id then s ∷ rest else t ∷ insert_sent s rest

abbrev pub same_key : Str → Uuid → Seen → Bool
same_key receiver id s = str_eq s.receiver receiver && s.id == id

unfoldable pub lookup_seen : Str → Uuid → List Seen → Option Seen
lookup_seen receiver id [] = none
lookup_seen receiver id (s ∷ rest) =
    if same_key receiver id s then some s else lookup_seen receiver id rest

unfoldable pub insert_seen : Seen → List Seen → List Seen
insert_seen s [] = s ∷ []
insert_seen s (t ∷ rest) = if same_key s.receiver s.id t then s ∷ rest else t ∷ insert_seen s rest

-- A lookup after an insertion
pub lookup_sent-insert_sent :
    (s : Sent) (id : Uuid) (m : List Sent)
    → lookup_sent id (insert_sent s m) ≡ (if s.id == id then some s else lookup_sent id m)
unfolding lookup_sent insert_sent
lookup_sent-insert_sent s id [] = refl
lookup_sent-insert_sent s id (t ∷ rest) = ground (arith, lookup_sent-insert_sent s id rest)

pub lookup_seen-insert_seen :
    (s : Seen) (receiver : Str) (id : Uuid) (m : List Seen)
    → lookup_seen receiver id (insert_seen s m)
      ≡ (if same_key receiver id s then some s else lookup_seen receiver id m)
unfolding lookup_seen insert_seen
lookup_seen-insert_seen s receiver id [] = refl
lookup_seen-insert_seen s receiver id (t ∷ rest) = ground (
  arith,
  lookup_seen-insert_seen s receiver id rest,
  str_eq_iff s.receiver receiver,
  str_eq_iff t.receiver receiver,
  str_eq_iff t.receiver s.receiver,
)
