-- ===== src/Protocol/Fragments.antt =====
-- src/protocol.rs: how a stream is cut into chunks does not change what `push` decodes.
use tak_bench.Prelude.{
  ℕ, zero, suc, ◌+◌, ◌-◌, ◌≤◌, ◌<◌, ◌≡◌, sym, ◌∙◌, ap, false, none, some, List, [], ◌∷◌, ◌++◌,
  length, take, drop, length-drop, length-append, drop-append_le, take-append_le, drop-drop, ltb,
  ok, err, arith, tests, inl, inr, Bool-cases, Option-cases, Result-cases,
}
use tak_bench.Prelude.Bytes.{Bytes, Str, position}
use tak_bench.Prelude.Search.{
  position-drop, position-append, position-append_none, position-starts_with, starts_with-append,
}
use tak_bench.Protocol.Lossy.{from_utf8_lossy}
use tak_bench.Protocol.Xml.{XmlLibrary, validate_xml}
use tak_bench.Protocol.Decoder.{
  start_marker, end_marker, Drained, take_frame, at_end, keep_tail, with_event,
}
use tak_bench.Protocol.Drained.{
  drained, drained-none, drained_open, drained_frame, after_frame_shorter,
}

keep_tail-eq : (buffer : Bytes) → keep_tail buffer ≡ drop (length buffer - 5) buffer
unfolding keep_tail
keep_tail-eq buffer = elim (Bool-cases (ltb 5 (length buffer))) [
  | inl long ↦ rw long
  | inr short ↦
      let none_dropped : length buffer - 5 ≡ 0 = omega (tests, short) in rw (short, none_dropped)
]

keep_tail-drop :
    (k : ℕ) (buffer : Bytes) → k + 5 ≤ length buffer → keep_tail (drop k buffer) ≡ keep_tail buffer
keep_tail-drop k buffer h =
    let counted : k + (length (drop k buffer) - 5) ≡ length buffer - 5 =
      omega (arith, length-drop k buffer) in
    rw (
      keep_tail-eq (drop k buffer),
      keep_tail-eq buffer,
      drop-drop (length (drop k buffer) - 5) k buffer,
      counted,
    )

-- The rest of the buffer, once the text before the marker is dropped, is what decides the rounds.
module _ (xml : XmlLibrary) (limit : ℕ) where
  -- Text before the first marker is ignored.
  drained_skip :
      (buffer : Bytes) (k n : ℕ)
      → position start_marker buffer ≡ some (k + n)
      → position start_marker (drop k buffer) ≡ some n
      → drained xml limit buffer ≡ drained xml limit (drop k buffer)
  drained_skip buffer k n s t =
      let same = drop-drop n k buffer in
      elim (Option-cases (position end_marker (drop (k + n) buffer))) [
        | inl missing ↦ rw (
          drained_open xml limit buffer (k + n) s missing,
          drained_open xml limit (drop k buffer) n t (rw same missing),
          same,
        )
        | inr (end, e) ↦ rw (
          drained_frame xml limit buffer (k + n) end s e,
          drained_frame xml limit (drop k buffer) n end t (rw same e),
          same,
        )
      ]

  -- The last five bytes of a buffer without a marker stand for the whole of it.
  tail_stands :
      (buffer chunk : Bytes) (k : ℕ)
      → k + 5 ≤ length buffer
      → position start_marker buffer ≡ none
      → drained xml limit (buffer ++ chunk) ≡ drained xml limit (drop k buffer ++ chunk)
  tail_stands buffer chunk k h missing =
      let moved = drop-append_le k buffer chunk (omega arith) in
      let found = position-append_none start_marker buffer chunk k (omega arith) missing in
      elim (Option-cases (position start_marker (drop k buffer ++ chunk))) [
        | inl later ↦ rw (
          drained-none xml limit (drop k buffer ++ chunk) later,
          drained-none xml limit (buffer ++ chunk) (rw (found, later)),
          ← keep_tail-drop k (buffer ++ chunk) (omega (arith, length-append buffer chunk)),
          moved,
        )
        | inr (n, later) ↦
            drained_skip (buffer ++ chunk) k n (rw (found, later)) (rw (moved, later))
            ∙ ap (drained xml limit) moved
      ]

  keep_tail-append :
      (buffer chunk : Bytes)
      → position start_marker buffer ≡ none
      → drained xml limit (buffer ++ chunk) ≡ drained xml limit (keep_tail buffer ++ chunk)
  unfolding keep_tail
  keep_tail-append buffer chunk missing = elim (Bool-cases (ltb 5 (length buffer))) [
    | inl long ↦
        rw (long, keep_tail)
          (tail_stands buffer chunk (length buffer - 5) (omega (tests, long)) missing)
    | inr short ↦ rw (short, keep_tail)
  ]

  -- Events decoded before the rest
  abbrev pub with_events : List Str → Drained xml → Drained xml
  with_events [] next = next
  with_events (event ∷ events) next = with_event event (with_events events next)

  -- A round that yields a frame and goes on
  with_event-eq-ok :
      (event : Str) (next : Drained xml) (events : List Str) (rest : Bytes)
      → with_event event next ≡ (ok events, rest)
      → (later : List Str) × (events ≡ event ∷ later) × (next ≡ (ok later, rest))
  unfolding with_event
  with_event-eq-ok event (ok later, buffer) events rest h =
      (later, ground (arith, h), ground (arith, h))
  with_event-eq-ok event (err e, buffer) events rest h = ground (arith, h)

  pub at_end-none-eq-ok :
      (buffer : Bytes) (events : List Str) (rest : Bytes)
      → at_end xml limit buffer none (drained xml limit) ≡ (ok events, rest)
      → (events ≡ []) × (rest ≡ buffer)
  at_end-none-eq-ok buffer events rest h = ground (arith, h)

  pub at_end-some-eq-ok :
      (buffer : Bytes) (end : ℕ) (events : List Str) (rest : Bytes)
      → at_end xml limit buffer (some end) (drained xml limit) ≡ (ok events, rest)
      → (later : List Str) × (ltb limit (end + 8) ≡ false)
        × (validate_xml xml (take (end + 8) buffer) ≡ ok tt)
        × (events ≡ from_utf8_lossy (take (end + 8) buffer) ∷ later)
        × (drained xml limit (drop (end + 8) buffer) ≡ (ok later, rest))
  at_end-some-eq-ok buffer end events rest h = elim (Bool-cases (ltb limit (end + 8))) [
    | inl big ↦ ground (arith, h, big)
    | inr fits ↦ elim (Result-cases (validate_xml xml (take (end + 8) buffer))) [
      | inl (_, valid) ↦
          let frame = from_utf8_lossy (take (end + 8) buffer) in
          let (later, same, next) =
            with_event-eq-ok frame (drained xml limit (drop (end + 8) buffer)) events rest
              (rw (fits, valid, take_frame) at h) in
          (later, fits, valid, same, next)
      | inr (e, invalid) ↦ ground (arith, h, fits, invalid)
    ]
  ]

  -- Bytes that arrive later do not change what was decoded: they continue what was left.
  pub drained-append :
      (n : ℕ) (buffer chunk : Bytes) (events : List Str) (rest : Bytes)
      → length buffer < n
      → drained xml limit buffer ≡ (ok events, rest)
      → drained xml limit (buffer ++ chunk) ≡ with_events events (drained xml limit (rest ++ chunk))
  drained-append zero buffer chunk events rest h d = absurd (omega arith)
  drained-append (suc n) buffer chunk events rest h d =
      elim (Option-cases (position start_marker buffer)) [
        | inl missing ↦
            let none_yet : (events ≡ []) × (rest ≡ keep_tail buffer) =
              ground (arith, d, drained-none xml limit buffer missing) in
            rw (none_yet.0, none_yet.1) (keep_tail-append buffer chunk missing)
        | inr (start, s) ↦
            let front = drop start buffer in
            let (within, here) = position-drop start_marker buffer start s in
            let moved = drop-append_le start buffer chunk (omega (arith, within)) in
            let s' = position-append start_marker buffer chunk start s in
            elim (Option-cases (position end_marker front)) [
              | inl missing ↦
                  let (none_yet, whole) =
                    at_end-none-eq-ok front events rest
                      (sym (drained_open xml limit buffer start s missing) ∙ d) in
                  let at_front =
                    position-starts_with start_marker (front ++ chunk)
                      (starts_with-append start_marker front chunk here) in
                  rw (none_yet, whole, ← moved)
                    (drained_skip (buffer ++ chunk) start 0 (s' ∙ ap some (omega arith))
                      (rw moved at_front))
              | inr (end, e) ↦
                  let (later, fits, valid, same, next) =
                    at_end-some-eq-ok front end events rest
                      (sym (drained_frame xml limit buffer start end s e) ∙ d) in
                  let (inside, _) = position-drop end_marker front end e in
                  let e' = position-append end_marker front chunk end e in
                  let same_frame = take-append_le (end + 8) front chunk inside in
                  let same_rest = drop-append_le (end + 8) front chunk inside in
                  let valid' : validate_xml xml (take (end + 8) (front ++ chunk)) ≡ ok tt =
                    rw same_frame valid in
                  let shorter = after_frame_shorter buffer start end s e in
                  rw
                    (
                      drained_frame xml limit (buffer ++ chunk) start end s' (rw moved e'),
                      moved,
                      same,
                    )
                    (rw (fits, take_frame, valid')
                      (rw (
                        same_frame,
                        same_rest,
                        drained-append n (drop (end + 8) front) chunk later rest
                            (omega (arith, shorter)) next,
                      )))
            ]
      ]
