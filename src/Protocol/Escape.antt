-- ===== src/Protocol/Escape.antt =====
-- src/protocol.rs: `escape`, whose five replacements amount to one pass.
use mathlib.Core.List.{append_assoc}
use tak_bench.Prelude.{
  ℕ, ◌≡◌, ◌≢◌, refl, ◌∙◌, [], ◌∷◌, ◌++◌, ◌==◌, if◌then◌else◌, All, All-append, arith,
}
use tak_bench.Prelude.Bytes.{Bytes, Str, bytes, starts_with}
use tak_bench.Config.Text.{replace, replace_from}
use tak_bench.Protocol.Event.{escape}

-- What one character becomes
pub entity : ℕ → Str
entity b =
    if b == b'&'
    then bytes "&amp;"
    else if b == b'<'
    then bytes "&lt;"
    else if b == b'>'
    then bytes "&gt;"
    else if b == 34
    then bytes "&quot;"
    else if b == 39
    then bytes "&apos;"
    else b ∷ []

pub escape_each : Str → Str
escape_each [] = []
escape_each (b ∷ rest) = entity b ++ escape_each rest

-- Replacement of a single byte
each : ℕ → Bytes → Str → Str
each c new [] = []
each c new (b ∷ rest) = (if c == b then new else b ∷ []) ++ each c new rest

replace-each : (c : ℕ) (new : Bytes) (text : Str) → replace (c ∷ []) new text ≡ each c new text
unfolding replace replace_from starts_with each
replace-each c new [] = refl
replace-each c new (b ∷ rest) = ground (arith, replace-each c new rest)

each-append : (c : ℕ) (new : Bytes) (x y : Str) → each c new (x ++ y) ≡ each c new x ++ each c new y
unfolding each
each-append c new [] y = refl
each-append c new (b ∷ x) y = simp (each-append c new x y, append_assoc)

five : Str → Str
five text = each 39 (bytes "&apos;") (
    each 34 (bytes "&quot;")
      (each b'>' (bytes "&gt;") (each b'<' (bytes "&lt;") (each b'&' (bytes "&amp;") text))))

five-append : (x y : Str) → five (x ++ y) ≡ five x ++ five y
unfolding five
five-append x y = simp each-append

five-entity : (b : ℕ) → five (b ∷ []) ≡ entity b
unfolding five each entity
five-entity b = ground arith

escape-five : (text : Str) → escape text ≡ five text
unfolding escape five
escape-five text = simp replace-each

five-each : (text : Str) → five text ≡ escape_each text
unfolding escape_each
five-each [] = unfold five each in refl
five-each (b ∷ rest) = five-append (b ∷ []) rest ∙ rw (five-entity b, five-each rest)

-- The five replacements, one after the other, replace each character of the text once.
pub escape-each : (text : Str) → escape text ≡ escape_each text
escape-each text = escape-five text ∙ five-each text

-- A character that may stand in an attribute's value: no angle bracket and no quote
abbrev pub IsInert : ℕ → Type 0
IsInert b = (b ≢ b'<') × (b ≢ b'>') × (b ≢ 34) × (b ≢ 39)

entity-IsInert : (b : ℕ) → All IsInert (entity b)
unfolding entity
entity-IsInert b = ground arith

escape_each-IsInert : (text : Str) → All IsInert (escape_each text)
unfolding escape_each
escape_each-IsInert [] = tt
escape_each-IsInert (b ∷ rest) =
    All-append IsInert (entity b) (escape_each rest) (entity-IsInert b) (escape_each-IsInert rest)

-- No text that is escaped can end an attribute or open an element.
pub escape-IsInert : (text : Str) → All IsInert (escape text)
escape-IsInert text = rw (escape-each text) (escape_each-IsInert text)
