-- ===== src/Protocol/Failures.antt =====
-- src/protocol.rs: an error of `push` does not depend on how the stream is cut either.
use tak_bench.Prelude.{
  ℕ, zero, suc, ◌+◌, ◌≤◌, ◌<◌, ◌≡◌, sym, ◌∙◌, true, none, some, ◌++◌, length, take, drop,
  length-append, drop-append_le, take-append_le, ltb, ok, err, arith, tests, inl, inr, Bool-cases,
  Option-cases, Result-cases,
}
use tak_bench.Prelude.Bytes.{Bytes, Str, position}
use tak_bench.Prelude.Search.{position-drop, position-append, position-beyond}
use tak_bench.Protocol.Lossy.{from_utf8_lossy}
use tak_bench.Protocol.Xml.{XmlLibrary, validate_xml}
use tak_bench.Protocol.Decoder.{
  DecodeError, frame_too_large, start_marker, end_marker, Drained, take_frame, at_end, with_event,
}
use tak_bench.Protocol.Drained.{
  drained, drained-none, drained_open, drained_frame, drained_eq, after_frame_shorter,
}

module _ (xml : XmlLibrary) (limit : ℕ) where
  abbrev pub Fails : Bytes → DecodeError xml.XmlError → Type 0
  Fails buffer e = (left : Bytes) × (drained xml limit buffer ≡ (err e, left))

  with_event-eq-err :
      (event : Str) (next : Drained xml) (e : DecodeError xml.XmlError) (rest : Bytes)
      → with_event event next ≡ (err e, rest)
      → next ≡ (err e, rest)
  unfolding with_event
  with_event-eq-err event (ok later, buffer) e rest h = ground (arith, h)
  with_event-eq-err event (err x, buffer) e rest h = h

  -- The round at a whole frame, on a buffer and on a longer one
  at_end-err-append :
      (front chunk : Bytes) (end : ℕ) (e : DecodeError xml.XmlError) (rest : Bytes)
      → end + 8 ≤ length front
      → ((left : Bytes)
          → drained xml limit (drop (end + 8) front) ≡ (err e, left)
          → Fails (drop (end + 8) front ++ chunk) e)
      → at_end xml limit front (some end) (drained xml limit) ≡ (err e, rest)
      → (left : Bytes) × (at_end xml limit (front ++ chunk) (some end) (drained xml limit)
          ≡ (err e, left))
  unfolding with_event
  at_end-err-append front chunk end e rest inside later d =
      elim (Bool-cases (ltb limit (end + 8))) [
        | inl big ↦ (drop (end + 8) (front ++ chunk), ground (arith, d, big))
        | inr fits ↦
            let same_frame = take-append_le (end + 8) front chunk inside in
            let same_rest = drop-append_le (end + 8) front chunk inside in
            elim (Result-cases (validate_xml xml (take (end + 8) front))) [
              | inl (_, valid) ↦
                  let valid' : validate_xml xml (take (end + 8) (front ++ chunk)) ≡ ok tt =
                    rw same_frame valid in
                  let failed =
                    with_event-eq-err (from_utf8_lossy (take (end + 8) front))
                      (drained xml limit (drop (end + 8) front)) e rest
                      (rw (fits, take_frame, valid) at d) in
                  let (left, fails) = later rest failed in
                  (left, rw (fits, take_frame, valid') (rw (same_rest, fails, with_event)))
              | inr (x, invalid) ↦
                  let invalid' : validate_xml xml (take (end + 8) (front ++ chunk)) ≡ err x =
                    rw same_frame invalid in
                  let failed = rw (fits, take_frame, invalid) at d in
                  (drop (end + 8) (front ++ chunk), rw (fits, take_frame, invalid') (cc failed))
            ]
      ]

  -- An oversized frame that is not complete stays oversized.
  open-err-append :
      (front chunk : Bytes) (e : DecodeError xml.XmlError) (rest : Bytes)
      → position end_marker front ≡ none
      → at_end xml limit front none (drained xml limit) ≡ (err e, rest)
      → (left : Bytes) × (at_end xml limit
            (front ++ chunk)
            (position end_marker (front ++ chunk))
            (drained xml limit)
          ≡ (err e, left))
  open-err-append front chunk e rest missing d =
      let big : ltb limit (length front) ≡ true = ground (arith, d) in
      let same : frame_too_large limit ≡ e = ground (arith, d, big) in
      elim (Option-cases (position end_marker (front ++ chunk))) [
        | inl never ↦
            let bigger : ltb limit (length (front ++ chunk)) ≡ true =
              omega (tests, big, length-append front chunk) in
            (front ++ chunk, rw (never, bigger, same))
        | inr (n, found) ↦
            let bigger : ltb limit (n + 8) ≡ true =
              omega (tests, big, position-beyond end_marker front chunk n missing found) in
            (drop (n + 8) (front ++ chunk), rw (found, bigger, same))
      ]

  -- A buffer that fails fails with the same error when more follows.
  pub drained-err-append :
      (n : ℕ) (buffer chunk : Bytes) (e : DecodeError xml.XmlError) (rest : Bytes)
      → length buffer < n
      → drained xml limit buffer ≡ (err e, rest)
      → Fails (buffer ++ chunk) e
  drained-err-append zero buffer chunk e rest h d = absurd (omega arith)
  drained-err-append (suc n) buffer chunk e rest h d =
      elim (Option-cases (position start_marker buffer)) [
        | inl missing ↦ ground (arith, d, drained-none xml limit buffer missing)
        | inr (start, s) ↦
            let front = drop start buffer in
            let (within, _) = position-drop start_marker buffer start s in
            let moved = drop-append_le start buffer chunk (omega (arith, within)) in
            let s' = position-append start_marker buffer chunk start s in
            elim (Option-cases (position end_marker front)) [
              | inl missing ↦
                  let (left, fails) =
                    open-err-append front chunk e rest missing
                      (sym (drained_open xml limit buffer start s missing) ∙ d) in
                  (left, drained_eq xml limit (buffer ++ chunk) ∙ rw (s', moved) fails)
              | inr (end, e') ↦
                  let (inside, _) = position-drop end_marker front end e' in
                  let shorter = after_frame_shorter buffer start end s e' in
                  let (left, fails) =
                    at_end-err-append front chunk end e rest inside
                      (λ left d'.
                        drained-err-append n (drop (end + 8) front) chunk e left
                          (omega (arith, shorter)) d')
                      (sym (drained_frame xml limit buffer start end s e') ∙ d) in
                  (
                    left,
                    drained_frame xml limit (buffer ++ chunk) start end s'
                          (rw moved (position-append end_marker front chunk end e'))
                        ∙ rw moved fails,
                  )
            ]
      ]
