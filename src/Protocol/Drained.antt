-- ===== src/Protocol/Drained.antt =====
-- src/protocol.rs: the loop of `push` as an equation without fuel.
use tak_bench.Prelude.{
  ℕ, zero, suc, ◌+◌, ◌<◌, ◌≡◌, refl, none, some, [], length, drop, length-drop, ok, arith, inl, inr,
  Option-cases,
}
use tak_bench.Prelude.Bytes.{starts_with, Bytes, position}
use tak_bench.Prelude.Search.{position-drop}
use tak_bench.Protocol.Xml.{XmlLibrary}
use tak_bench.Protocol.Decoder.{
  start_marker, end_marker, Drained, at_end, at_start, drain, keep_tail,
}

-- What is left behind a frame is shorter than the buffer.
pub after_frame_shorter :
    (buffer : Bytes) (start end : ℕ)
    → position start_marker buffer ≡ some start
    → position end_marker (drop start buffer) ≡ some end
    → length (drop (end + 8) (drop start buffer)) < length buffer
after_frame_shorter buffer start end s e =
    let (within, _) = position-drop start_marker buffer start s in
    let (inside, _) = position-drop end_marker (drop start buffer) end e in
    omega
      (arith, within, inside, length-drop (end + 8) (drop start buffer), length-drop start buffer)

module _ (xml : XmlLibrary) (limit : ℕ) where
  -- The rest of the loop is only called on a shorter buffer.
  at_start_congr :
      (buffer : Bytes) (next other : Bytes → Drained xml)
      → ((rest : Bytes) → length rest < length buffer → next rest ≡ other rest)
      → at_start xml limit buffer (position start_marker buffer) next
        ≡ at_start xml limit buffer (position start_marker buffer) other
  at_start_congr buffer next other same = elim (Option-cases (position start_marker buffer)) [
    | inl missing ↦ rw missing
    | inr (start, s) ↦ elim (Option-cases (position end_marker (drop start buffer))) [
      | inl missing ↦ rw (s, missing)
      | inr (end, e) ↦
          rw
            (
              s,
              e,
              same (drop (end + 8) (drop start buffer)) (after_frame_shorter buffer start end s e),
            )
            refl
    ]
  ]

  drain_fuel :
      (m n : ℕ) (buffer : Bytes)
      → length buffer < m
      → length buffer < n
      → drain xml m limit buffer ≡ drain xml n limit buffer
  unfolding drain
  drain_fuel zero n buffer h k = absurd (omega arith)
  drain_fuel (suc m) zero buffer h k = absurd (omega arith)
  drain_fuel (suc m) (suc n) buffer h k =
      at_start_congr buffer (λ rest. drain xml m limit rest) (λ rest. drain xml n limit rest)
        (λ rest shorter. drain_fuel m n rest (omega arith) (omega arith))

  -- The loop, run to its end
  unfoldable pub drained : Bytes → Drained xml
  drained buffer = drain xml (suc (length buffer)) limit buffer

  pub drained_eq :
      (buffer : Bytes)
      → drained buffer
        ≡ at_start xml limit buffer (position start_marker buffer) (λ rest. drained rest)
  unfolding drained drain
  drained_eq buffer =
      at_start_congr buffer (λ rest. drain xml (length buffer) limit rest) (λ rest. drained rest)
        (λ rest shorter. drain_fuel (length buffer) (suc (length rest)) rest shorter (omega arith))

  -- The three shapes of a buffer
  pub drained-none :
      (buffer : Bytes)
      → position start_marker buffer ≡ none
      → drained buffer ≡ (ok [], keep_tail buffer)
  drained-none buffer s = rw (drained_eq buffer, s)

  pub drained_open :
      (buffer : Bytes) (start : ℕ)
      → position start_marker buffer ≡ some start
      → position end_marker (drop start buffer) ≡ none
      → drained buffer ≡ at_end xml limit (drop start buffer) none (λ rest. drained rest)
  drained_open buffer start s e = rw (drained_eq buffer, s, e)

  pub drained_frame :
      (buffer : Bytes) (start end : ℕ)
      → position start_marker buffer ≡ some start
      → position end_marker (drop start buffer) ≡ some end
      → drained buffer ≡ at_end xml limit (drop start buffer) (some end) (λ rest. drained rest)
  drained_frame buffer start end s e = rw (drained_eq buffer, s, e)

  pub drained_nil : drained [] ≡ (ok [], [])
  unfolding position starts_with keep_tail
  drained_nil = drained-none [] refl
