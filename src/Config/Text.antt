-- ===== src/Config/Text.antt =====
-- The text operations of the standard library that src/config.rs calls, on UTF-8 bytes.
use tak_bench.Prelude.{
  ℕ, zero, suc, ◌+◌, ◌-◌, ◌*◌, ◌/◌, ◌%◌, Bool, true, false, ◌&&◌, ◌||◌, Option, none, some, [], ◌∷◌,
  ◌++◌, reverse, leb, ltb, ◌==◌, if◌then◌else◌, is_some, length, take, drop,
}
use tak_bench.Prelude.Bytes.{Bytes, Str, position, starts_with}
use tak_bench.Prelude.Time.{u64_max}

-- `u8::is_ascii_digit`, `u8::is_ascii_alphanumeric`
abbrev pub is_ascii_digit : ℕ → Bool
is_ascii_digit b = leb b'0' b && leb b b'9'

abbrev pub is_ascii_alphanumeric : ℕ → Bool
is_ascii_alphanumeric b = is_ascii_digit b || leb b'A' b && leb b b'Z' || leb b'a' b && leb b b'z'

-- How many bytes at the front are one character with the Unicode property White_Space.
unfoldable pub white_space : Bytes → ℕ
white_space [] = 0
white_space (a ∷ []) = if a == 0x20 || leb 9 a && leb a 13 then 1 else 0
white_space (a ∷ b ∷ []) =
    if a == 0x20 || leb 9 a && leb a 13
    then 1
    else if a == 0xC2 && (b == 0x85 || b == 0xA0)
    then 2
    else 0
white_space (a ∷ b ∷ c ∷ rest) =
    if a == 0x20 || leb 9 a && leb a 13
    then 1
    else if a == 0xC2 && (b == 0x85 || b == 0xA0)
    then 2
    else if a == 0xE1 && b == 0x9A && c == 0x80
    then 3
    else if a == 0xE2
        && b == 0x80
        && (leb 0x80 c && leb c 0x8A || c == 0xA8 || c == 0xA9 || c == 0xAF)
    then 3
    else if a == 0xE2 && b == 0x81 && c == 0x9F
    then 3
    else if a == 0xE3 && b == 0x80 && c == 0x80
    then 3
    else 0

-- The same at the back, of the reversed text.
unfoldable pub white_space_back : Bytes → ℕ
unfolding white_space
white_space_back text =
    let one = white_space (take 1 text) in
    let two = white_space (reverse (take 2 text)) in
    let three = white_space (reverse (take 3 text)) in
    if one == 1 then 1 else if two == 2 then 2 else if three == 3 then 3 else 0

-- Drops characters that `width` finds; the fuel is the length of the text.
unfoldable pub drop_chars : (Bytes → ℕ) → ℕ → Bytes → Bytes
drop_chars width zero text = text
drop_chars width (suc fuel) text =
    let rest = drop_chars width fuel (drop (width text) text) in
    if width text == 0 then text else rest

-- `str::trim`
unfoldable pub trim : Str → Str
unfolding drop_chars white_space white_space_back
trim text =
    let front = drop_chars white_space (length text) text in
    reverse (drop_chars white_space_back (length front) (reverse front))

-- `find(|c| !c.is_ascii_digit())`: a character that is no digit begins at the first byte that is none.
unfoldable pub find_non_digit : Str → Option ℕ
find_non_digit [] = none
find_non_digit (b ∷ rest) = elim (is_ascii_digit b) [
  | true ↦ elim (find_non_digit rest) [ none ↦ none | some n ↦ some (suc n) ]
  | false ↦ some 0
]

-- `str::parse::<u64>` of digits: an empty text and an overflow are errors.
unfoldable pub parse_digits : ℕ → Str → Option ℕ
parse_digits acc [] = some acc
parse_digits acc (b ∷ rest) =
    let next = acc * 10 + (b - b'0') in
    elim (is_ascii_digit b && leb next u64_max) [ true ↦ parse_digits next rest | false ↦ none ]

-- Called on digits alone, so no sign is read.
unfoldable pub parse_u64 : Str → Option ℕ
unfolding parse_digits
parse_u64 [] = none
parse_u64 (b ∷ rest) = parse_digits 0 (b ∷ rest)

-- `str::contains`
unfoldable pub contains : Bytes → Str → Bool
unfolding position starts_with
contains pat text = is_some (position pat text)

-- `str::replace`: each match of the pattern, left to right. `skip` counts the bytes of a match that
-- are still to be passed over.
unfoldable pub replace_from : Bytes → Bytes → ℕ → Str → Str
unfolding starts_with
replace_from pat new skip [] = []
replace_from pat new (suc skip) (b ∷ rest) = replace_from pat new skip rest
replace_from pat new zero (b ∷ rest) = elim (starts_with pat (b ∷ rest)) [
  | true ↦ new ++ replace_from pat new (length pat - 1) rest
  | false ↦ b ∷ replace_from pat new zero rest
]

unfoldable pub replace : Bytes → Bytes → Str → Str
unfolding replace_from
replace pat new text = replace_from pat new zero text

-- `format!("{n}")` of a number, by fuel of its digits
unfoldable pub decimal_from : ℕ → ℕ → Str → Str
decimal_from zero n acc = acc
decimal_from (suc fuel) n acc =
    let rest = decimal_from fuel (n / 10) ((b'0' + n % 10) ∷ acc) in
    if ltb n 10 then (b'0' + n) ∷ acc else rest

-- a `u64` has at most twenty digits
unfoldable pub decimal : ℕ → Str
unfolding decimal_from
decimal n = decimal_from 20 n []
