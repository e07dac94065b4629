-- ===== src/Config/Ip.antt =====
-- `IpAddr::from_str` and `is_loopback` of the standard library, as src/config.rs uses them.
use tak_bench.Prelude.{
  ℕ, zero, suc, ◌+◌, ◌-◌, ◌*◌, Bool, true, false, ◌&&◌, ◌||◌, not, Option, none, some, List, [],
  ◌∷◌, ◌++◌, leb, ltb, ◌==◌, if◌then◌else◌, length, replicate,
}
use tak_bench.Prelude.Bytes.{Str}

pub data IpAddress : Type 0 where
  v4 : List ℕ → IpAddress
  v6 : List ℕ → IpAddress

-- `char::to_digit`
abbrev to_digit : ℕ → ℕ → Option ℕ
to_digit radix b =
    let digit =
      if leb b'0' b && leb b b'9'
      then b - b'0'
      else if leb b'a' b && leb b b'z'
      then b - b'a' + 10
      else if leb b'A' b && leb b b'Z'
      then b - b'A' + 10
      else radix in
    if ltb digit radix then some digit else none

-- The digits at the front: their value, their count and what follows.
read_digits : ℕ → ℕ → ℕ → Str → ℕ × ℕ × Str
read_digits radix value count [] = (value, count, [])
read_digits radix value count (b ∷ rest) = elim (to_digit radix b) [
  | some d ↦ read_digits radix (value * radix + d) (count + 1) rest
  | none ↦ (value, count, b ∷ rest)
]

abbrev begins_with_zero : Str → Bool
begins_with_zero [] = false
begins_with_zero (b ∷ rest) = b == b'0'

-- A group of at most `max_digits` digits and value at most `limit`
read_number : ℕ → ℕ → ℕ → Bool → Str → Option (ℕ × Str)
unfolding read_digits
read_number radix max_digits limit zero_prefix text =
    let (value, count, rest) = read_digits radix 0 0 text in
    if ltb max_digits count
      || count == 0
      || ltb limit value
      || not zero_prefix && begins_with_zero text && ltb 1 count
    then none
    else some (value, rest)

read_char : ℕ → Str → Option Str
read_char c [] = none
read_char c (b ∷ rest) = if b == c then some rest else none

-- The separator stands before every group but the first.
read_separator : ℕ → Bool → Str → Option Str
unfolding read_char
read_separator c true text = some text
read_separator c false text = read_char c text

-- `n` decimal octets
read_octets : ℕ → Bool → Str → Option (List ℕ × Str)
unfolding read_number read_separator
read_octets zero first text = some ([], text)
read_octets (suc n) first text = elim (read_separator b'.' first text) [
  | none ↦ none
  | some t ↦ elim (read_number 10 3 255 false t) [
    | none ↦ none
    | some (octet, t') ↦ elim (read_octets n false t') [
      | none ↦ none
      | some (octets, t'') ↦ some (octet ∷ octets, t'')
    ]
  ]
]

-- Two groups from four octets
abbrev groups_of_octets : List ℕ → List ℕ
groups_of_octets (a ∷ b ∷ c ∷ d ∷ []) = (a * 256 + b) ∷ (c * 256 + d) ∷ []
groups_of_octets other = []

-- An embedded IPv4 address, tried where two groups are left
read_embedded : ℕ → Bool → Str → Option (List ℕ × Str)
unfolding read_octets
read_embedded left first text =
    if ltb left 2
    then none
    else elim (read_separator b':' first text) [ none ↦ none | some t ↦ read_octets 4 true t ]

read_group : Bool → Str → Option (ℕ × Str)
unfolding read_number
read_group first text = elim (read_separator b':' first text) [
  | none ↦ none
  | some t ↦ read_number 16 4 65535 true t
]

-- At most `left` groups: the groups, whether an IPv4 address closed them, and what follows.
read_groups : ℕ → Bool → Str → List ℕ × Bool × Str
unfolding read_embedded read_group
read_groups zero first text = ([], false, text)
read_groups (suc left) first text = elim (read_embedded (suc left) first text) [
  | some (octets, t) ↦ (groups_of_octets octets, true, t)
  | none ↦ elim (read_group first text) [
    | none ↦ ([], false, text)
    | some (group, t) ↦
        let (groups, embedded, t') = read_groups left false t in (group ∷ groups, embedded, t')
  ]
]

-- The groups behind `::`, with the zeros that it stands for
read_tail : List ℕ → Str → Option (List ℕ × Str)
unfolding read_char read_groups
read_tail head text = elim (read_char b':' text) [
  | none ↦ none
  | some t ↦ elim (read_char b':' t) [
    | none ↦ none
    | some t' ↦
        let (tail, embedded, t'') = read_groups (7 - length head) true t' in
        some (head ++ replicate (8 - length head - length tail) 0 ++ tail, t'')
  ]
]

read_v6 : Str → Option (List ℕ × Str)
unfolding read_tail
read_v6 text =
    let (head, embedded, t) = read_groups 8 true text in
    if length head == 8 then some (head, t) else if embedded then none else read_tail head t

-- The whole text must be read.
abbrev whole : (List ℕ → IpAddress) → Option (List ℕ × Str) → Option IpAddress
whole f none = none
whole f (some (parts, [])) = some (f parts)
whole f (some (parts, b ∷ rest)) = none

unfoldable pub parse_ip : Str → Option IpAddress
unfolding read_octets read_v6
parse_ip text = elim (read_octets 4 true text) [
  | some r ↦ whole v4 (some r)
  | none ↦ whole v6 (read_v6 text)
]

abbrev all_zero : List ℕ → Bool
all_zero [] = true
all_zero (g ∷ groups) = g == 0 && all_zero groups

-- 127.0.0.0/8 and ::1
abbrev pub is_loopback_address : IpAddress → Bool
is_loopback_address (v4 []) = false
is_loopback_address (v4 (octet ∷ octets)) = octet == 127
is_loopback_address (v6 (a ∷ b ∷ c ∷ d ∷ e ∷ f ∷ g ∷ h ∷ [])) =
    all_zero (a ∷ b ∷ c ∷ d ∷ e ∷ f ∷ g ∷ []) && h == 1
is_loopback_address (v6 groups) = false
