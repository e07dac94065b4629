-- ===== src/Protocol/Lossy.antt =====
-- `String::from_utf8_lossy` of the standard library: each maximal invalid part becomes U+FFFD.
use tak_bench.Prelude.{ℕ, ◌-◌, ◌&&◌, [], ◌∷◌, ◌++◌, leb, ◌==◌, if◌then◌else◌}
use tak_bench.Prelude.Bytes.{Bytes, Str}

abbrev replacement : Bytes
replacement = 0xEF ∷ 0xBF ∷ 0xBD ∷ []

-- What is read of a character: its bytes so far, how many follow, and the range of the next.
record Pending : Type 0 where
  held : Bytes
  missing : ℕ
  low : ℕ
  high : ℕ

abbrev idle : Pending
idle = record { held = []; missing = 0; low = 0x80; high = 0xBF }

-- A lead byte opens a character; any other byte from 0x80 on is invalid.
abbrev lead : ℕ → ℕ
lead b =
    if leb 0xC2 b && leb b 0xDF
    then 1
    else if leb 0xE0 b && leb b 0xEF
    then 2
    else if leb 0xF0 b && leb b 0xF4
    then 3
    else 0

abbrev low_bound : ℕ → ℕ
low_bound b = if b == 0xE0 then 0xA0 else if b == 0xF0 then 0x90 else 0x80

abbrev high_bound : ℕ → ℕ
high_bound b = if b == 0xED then 0x9F else if b == 0xF4 then 0x8F else 0xBF

-- One byte outside a character: what it yields, and what is pending then.
open_char : ℕ → Bytes × Pending
open_char b =
    if leb b 0x7F
    then (b ∷ [], idle)
    else if lead b == 0
    then (replacement, idle)
    else ([], record { held = b ∷ []; missing = lead b; low = low_bound b; high = high_bound b })

continue_char : Pending → ℕ → Bytes × Pending
continue_char p b =
    if p.missing == 1
    then (p.held ++ b ∷ [], idle)
    else ([], record { held = p.held ++ b ∷ []; missing = p.missing - 1; low = 0x80; high = 0xBF })

-- A byte that does not continue the character ends it, and is read anew.
step : Pending → ℕ → Bytes × Pending
unfolding open_char continue_char
step p b =
    if p.missing == 0
    then open_char b
    else if leb p.low b && leb b p.high
    then continue_char p b
    else (let (out, p') = open_char b in (replacement ++ out, p'))

lossy_from : Pending → Bytes → Str
unfolding step
lossy_from p [] = if p.missing == 0 then [] else replacement
lossy_from p (b ∷ rest) = let (out, p') = step p b in out ++ lossy_from p' rest

unfoldable pub from_utf8_lossy : Bytes → Str
unfolding lossy_from
from_utf8_lossy text = lossy_from idle text
