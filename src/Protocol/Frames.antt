-- ===== src/Protocol/Frames.antt =====
-- src/protocol.rs: what `push` decodes is exactly the frames of the stream.
use mathlib.Core.List.{append_assoc}
use tak_bench.Prelude.{
  ℕ, zero, suc, ◌+◌, ◌≤◌, ◌≡◌, refl, sym, ◌∙◌, ap, true, false, some, List, [], ◌∷◌, ◌++◌, length,
  take, drop, take-append-drop, length-take, drop-append_le, take-append_le, ltb, ok, arith, tests,
  All,
}
use tak_bench.Prelude.Bytes.{Bytes, Str, position, starts_with}
use tak_bench.Prelude.Search.{position-within, starts_with-within, position-drop, position-append}
use tak_bench.Protocol.Lossy.{from_utf8_lossy}
use tak_bench.Protocol.Xml.{XmlLibrary, validate_xml}
use tak_bench.Protocol.Decoder.{start_marker, end_marker, take_frame, with_event, new}
use tak_bench.Protocol.Drained.{drained_nil, drained, drained_frame}
use tak_bench.Protocol.Streams.{concat, push_all, push-drained, push_all-concat, new-IsSettled}

take_all : (text : Bytes) (n : ℕ) → n ≡ length text → take n text ≡ text
take_all [] zero h = refl
take_all [] (suc n) h = refl
take_all (b ∷ text) zero h = absurd (omega arith)
take_all (b ∷ text) (suc n) h = ap (λ l. b ∷ l) (take_all text n (omega arith))

drop_all : (text : Bytes) (n : ℕ) → n ≡ length text → drop n text ≡ []
drop_all [] zero h = refl
drop_all [] (suc n) h = refl
drop_all (b ∷ text) zero h = absurd (omega arith)
drop_all (b ∷ text) (suc n) h = drop_all text n (omega arith)

drop_prefix : (pre text : Bytes) → drop (length pre) (pre ++ text) ≡ text
drop_prefix [] text = refl
drop_prefix (b ∷ pre) text = drop_prefix pre text

-- Ignored text and the frame behind it
pub record Segment : Type 0 where
  pub preamble : Bytes
  pub frame : Bytes

abbrev pub stream : List Segment → Bytes
stream [] = []
stream (s ∷ rest) = (s.preamble ++ s.frame) ++ stream rest

abbrev pub frames : List Segment → List Str
frames [] = []
frames (s ∷ rest) = from_utf8_lossy s.frame ∷ frames rest

module _ (xml : XmlLibrary) (limit : ℕ) where
  -- A frame begins with the start marker, ends where its first end marker does, and is valid XML
  -- within the limit.
  pub record IsFrame (frame : Bytes) : Type 0 where
    pub begins : starts_with start_marker frame ≡ true
    pub body : ℕ
    pub ends : position end_marker frame ≡ some body
    pub whole : body + 8 ≡ length frame
    pub fits : length frame ≤ limit
    pub valid : validate_xml xml frame ≡ ok tt

  pub record IsSegment (s : Segment) : Type 0 where
    pub framed : IsFrame s.frame
    pub first : position start_marker (s.preamble ++ s.frame) ≡ some (length s.preamble)

  drained_segment :
      (s : Segment) (rest : Bytes)
      → IsSegment s
      → drained xml limit ((s.preamble ++ s.frame) ++ rest)
        ≡ with_event (from_utf8_lossy s.frame) (drained xml limit rest)
  drained_segment s rest h =
      let body = h.framed.body in
      let start =
        position-append start_marker (s.preamble ++ s.frame) rest (length s.preamble) h.first in
      let front : drop (length s.preamble) ((s.preamble ++ s.frame) ++ rest) ≡ s.frame ++ rest =
        rw (append_assoc s.preamble s.frame rest) (drop_prefix s.preamble (s.frame ++ rest)) in
      let end = position-append end_marker s.frame rest body h.framed.ends in
      let small : ltb limit (body + 8) ≡ false = omega (tests, h.framed.whole, h.framed.fits) in
      let inside : body + 8 ≤ length s.frame = omega (arith, h.framed.whole) in
      let frame : take (body + 8) (s.frame ++ rest) ≡ s.frame =
        take-append_le (body + 8) s.frame rest inside
        ∙ take_all s.frame (body + 8) h.framed.whole in
      let left : drop (body + 8) (s.frame ++ rest) ≡ rest =
        drop-append_le (body + 8) s.frame rest inside
        ∙ ap (λ l. l ++ rest) (drop_all s.frame (body + 8) h.framed.whole) in
      let valid : validate_xml xml (take (body + 8) (s.frame ++ rest)) ≡ ok tt =
        rw frame h.framed.valid in
      rw
        (
          drained_frame xml limit ((s.preamble ++ s.frame) ++ rest) (length s.preamble) body start
              (rw front end),
          front,
        )
        (rw (small, take_frame, valid) (rw (frame, left)))

  drained-stream :
      (segments : List Segment)
      → All IsSegment segments
      → drained xml limit (stream segments) ≡ (ok (frames segments), [])
  unfolding with_event
  drained-stream [] h = drained_nil xml limit
  drained-stream (s ∷ rest) (h, hs) =
      drained_segment s (stream rest) h ∙ rw (drained-stream rest hs)

  -- A stream of frames, each behind text that is ignored, decodes to its frames, in whatever chunks
  -- its bytes arrive.
  pub stream_decoded :
      (segments : List Segment) (chunks : List Bytes)
      → All IsSegment segments
      → concat chunks ≡ stream segments
      → (push_all xml chunks (new limit)).0 ≡ ok (frames segments)
  unfolding new
  stream_decoded segments chunks h same =
      push_all-concat xml chunks (new limit) (new-IsSettled xml limit)
      ∙ rw (same, push-drained xml (stream segments) (new limit), drained-stream segments h)

  pub IsFrame-of :
      (front : Bytes) (end : ℕ)
      → starts_with start_marker front ≡ true
      → position end_marker front ≡ some end
      → ltb limit (end + 8) ≡ false
      → validate_xml xml (take (end + 8) front) ≡ ok tt
      → IsFrame (take (end + 8) front)
  IsFrame-of front end here e fits valid =
      let (inside, _) = position-drop end_marker front end e in
      let whole = take-append-drop (end + 8) front in
      let size : length (take (end + 8) front) ≡ end + 8 =
        omega (arith, length-take (end + 8) front, inside) in
      let rest = drop (end + 8) front in
      record {
        begins =
            sym (starts_with-within start_marker (take (end + 8) front) rest (omega (arith, size)))
            ∙ rw whole here;
        body = end;
        ends =
            position-within end_marker (take (end + 8) front) rest end (rw whole e)
              (omega (arith, size));
        whole = sym size;
        fits = omega (tests, size, fits);
        valid = valid;
      }
