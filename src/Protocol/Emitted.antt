-- ===== src/Protocol/Emitted.antt =====
-- src/protocol.rs: every event that `push` returns was a frame, and the buffer it keeps is bounded.
use tak_bench.Prelude.{
  take-append-drop, ap, ◌∷◌, ℕ, zero, suc, ◌+◌, ◌-◌, ◌≤◌, ◌<◌, ◌≡◌, refl, sym, ◌∙◌, false, List, [],
  ◌++◌, length, take, drop, length-drop, ltb, ok, arith, tests, inl, inr, Bool-cases, Option-cases,
  All, max,
}
use tak_bench.Prelude.Bytes.{Bytes, Str, position}
use tak_bench.Prelude.Search.{position-drop}
use tak_bench.Protocol.Xml.{XmlLibrary}
use tak_bench.Protocol.Decoder.{CotStreamDecoder, start_marker, end_marker, keep_tail, push}
use tak_bench.Protocol.Drained.{
  drained, drained-none, drained_open, drained_frame, after_frame_shorter,
}
use tak_bench.Protocol.Fragments.{at_end-some-eq-ok, at_end-none-eq-ok}
use tak_bench.Protocol.Streams.{push_ok}
use tak_bench.Protocol.Frames.{Segment, stream, frames, IsFrame, IsFrame-of}
use tak_bench.Protocol.Lossy.{from_utf8_lossy}
use mathlib.Core.List.{append_assoc}

length-keep_tail : (buffer : Bytes) → length (keep_tail buffer) ≤ 5
unfolding keep_tail
length-keep_tail buffer = elim (Bool-cases (ltb 5 (length buffer))) [
  | inl long ↦ rw long (omega (tests, long, length-drop (length buffer - 5) buffer))
  | inr short ↦ rw short (omega (tests, short))
]

keep_tail-suffix : (buffer : Bytes) → (dropped : Bytes) × (buffer ≡ dropped ++ keep_tail buffer)
unfolding keep_tail
keep_tail-suffix buffer = elim (Bool-cases (ltb 5 (length buffer))) [
  | inl long ↦
      rw long (take (length buffer - 5) buffer, sym (take-append-drop (length buffer - 5) buffer))
  | inr short ↦ rw short ([], refl)
]

-- The frames of the events are cut from the text, one behind the other, with other text between them;
-- what is kept is the end of it.
pub record IsEmitted (xml : XmlLibrary) (limit : ℕ) (text : Bytes) (events : List Str)
    (kept : Bytes) : Type 0 where
  pub segments : List Segment
  pub dropped : Bytes
  pub cut : text ≡ stream segments ++ (dropped ++ kept)
  pub same : events ≡ frames segments
  pub framed : All (λ s. IsFrame xml limit s.frame) segments
  pub bounded : length kept ≤ max limit 5

module _ (xml : XmlLibrary) (limit : ℕ) where
  IsEmitted-none :
      (text : Bytes) (events : List Str) (dropped kept : Bytes)
      → events ≡ []
      → text ≡ dropped ++ kept
      → length kept ≤ max limit 5
      → IsEmitted xml limit text events kept
  IsEmitted-none text events dropped kept nothing cut bounded = record {
    segments = [];
    dropped = dropped;
    cut = cut;
    same = nothing;
    framed = tt;
    bounded = bounded;
  }

  IsEmitted-frame :
      (buffer : Bytes) (start end : ℕ) (later : List Str) (kept : Bytes)
      → let front = drop start buffer in
        IsFrame xml limit (take (end + 8) front)
        → IsEmitted xml limit (drop (end + 8) front) later kept
        → IsEmitted xml limit buffer (from_utf8_lossy (take (end + 8) front) ∷ later) kept
  IsEmitted-frame buffer start end later kept framed rest =
      let front = drop start buffer in
      let frame = take (end + 8) front in
      let left = rest.dropped ++ kept in
      record {
        segments = record { preamble = take start buffer; frame = frame } ∷ rest.segments;
        dropped = rest.dropped;
        cut =
            sym (take-append-drop start buffer)
            ∙ ap (λ l. take start buffer ++ l)
                (sym (take-append-drop (end + 8) front) ∙ ap (λ l. frame ++ l) rest.cut)
            ∙ sym (append_assoc (take start buffer) frame (stream rest.segments ++ left))
            ∙ sym (append_assoc (take start buffer ++ frame) (stream rest.segments) left);
        same = ap (λ l. from_utf8_lossy frame ∷ l) rest.same;
        framed = (framed, rest.framed);
        bounded = rest.bounded;
      }

  drained-IsEmitted :
      (n : ℕ) (buffer : Bytes) (events : List Str) (rest : Bytes)
      → length buffer < n
      → drained xml limit buffer ≡ (ok events, rest)
      → IsEmitted xml limit buffer events rest
  drained-IsEmitted zero buffer events rest h d = absurd (omega arith)
  drained-IsEmitted (suc n) buffer events rest h d =
      elim (Option-cases (position start_marker buffer)) [
        | inl missing ↦
            let none_yet : (events ≡ []) × (rest ≡ keep_tail buffer) =
              ground (arith, d, drained-none xml limit buffer missing) in
            let (dropped, cut) = keep_tail-suffix buffer in
            IsEmitted-none buffer events dropped rest none_yet.0
              (cut ∙ ap (λ l. dropped ++ l) (sym none_yet.1))
              (rw none_yet.1 (omega (arith, length-keep_tail buffer)))
        | inr (start, s) ↦
            let front = drop start buffer in
            let (_, here) = position-drop start_marker buffer start s in
            elim (Option-cases (position end_marker front)) [
              | inl missing ↦
                  let opened = sym (drained_open xml limit buffer start s missing) ∙ d in
                  let (none_yet, whole) = at_end-none-eq-ok xml limit front events rest opened in
                  let small : ltb limit (length front) ≡ false = ground (arith, opened) in
                  IsEmitted-none buffer events (take start buffer) rest none_yet
                    (sym (take-append-drop start buffer)
                      ∙ ap (λ l. take start buffer ++ l) (sym whole))
                    (rw whole (omega (tests, small)))
              | inr (end, e) ↦
                  let (later, fits, valid, same, next) =
                    at_end-some-eq-ok xml limit front end events rest
                      (sym (drained_frame xml limit buffer start end s e) ∙ d) in
                  let shorter = after_frame_shorter buffer start end s e in
                  rw same (
                    IsEmitted-frame buffer start end later rest
                      (IsFrame-of xml limit front end here e fits valid)
                      (drained-IsEmitted n (drop (end + 8) front) later rest
                        (omega (arith, shorter)) next))
            ]
      ]

-- When a push succeeds, its events are frames that are cut, one behind the other and in order, from what
-- was in the buffer and the chunk: each begins with the start marker, ends where its first end marker
-- does, fits the limit and is valid XML. What stays in the buffer is the end of that text, at most as
-- long as the limit or five bytes.
pub push_emits :
    (xml : XmlLibrary) (chunk : Bytes) (d d' : CotStreamDecoder) (events : List Str)
    → push xml chunk d ≡ (ok events, d')
    → IsEmitted xml d.max_event_bytes (d.buffer ++ chunk) events d'.buffer
push_emits xml chunk d d' events h =
    let (decoded, _) = push_ok xml chunk d d' events h in
    drained-IsEmitted xml d.max_event_bytes (suc (length (d.buffer ++ chunk))) (d.buffer ++ chunk)
      events d'.buffer (omega arith) decoded
