-- ===== src/Protocol/Delivered.antt =====
-- src/protocol.rs: positions that are sent one after the other are decoded one by one.
use tak_bench.Prelude.{ℕ, ◌≤◌, ◌≡◌, refl, sym, ◌∙◌, ap, List, [], ◌∷◌, ◌++◌, map, length, All, ok}
use tak_bench.Prelude.Bytes.{Bytes, position, starts_with}
use tak_bench.Protocol.Lossy.{from_utf8_lossy}
use tak_bench.Protocol.Xml.{XmlLibrary, validate_xml}
use tak_bench.Protocol.Event.{Formats, PositionEvent, to_xml}
use tak_bench.Protocol.Decoder.{new}
use tak_bench.Protocol.Streams.{concat, push_all}
use tak_bench.Protocol.Frames.{Segment, IsSegment, stream, frames, stream_decoded}
use tak_bench.Protocol.Sent.{IsPlainFormat, to_xml-IsFrame}

module _ (fmt : Formats) (plain : IsPlainFormat fmt) (xml : XmlLibrary) (limit : ℕ) where
  -- An event that the receiver can take
  pub record IsAcceptable (e : PositionEvent fmt) : Type 0 where
    pub fits : length (to_xml fmt e) ≤ limit
    pub valid : validate_xml xml (to_xml fmt e) ≡ ok tt

  segment : PositionEvent fmt → Segment
  segment e = record { preamble = []; frame = to_xml fmt e }

  segment-IsSegment : (e : PositionEvent fmt) → IsAcceptable e → IsSegment xml limit (segment e)
  unfolding segment to_xml position starts_with
  segment-IsSegment e h = record {
    framed = to_xml-IsFrame fmt plain xml limit e h.fits h.valid;
    first = refl;
  }

  segments-IsSegment :
      (events : List (PositionEvent fmt))
      → All IsAcceptable events
      → All (IsSegment xml limit) (map segment events)
  segments-IsSegment [] h = tt
  segments-IsSegment (e ∷ rest) h = (segment-IsSegment e h.0, segments-IsSegment rest h.1)

  stream-map :
      (events : List (PositionEvent fmt))
      → stream (map segment events) ≡ concat (map (to_xml fmt) events)
  unfolding segment
  stream-map [] = refl
  stream-map (e ∷ rest) = ap (λ text. to_xml fmt e ++ text) (stream-map rest)

  frames-map :
      (events : List (PositionEvent fmt))
      → frames (map segment events) ≡ map (λ e. from_utf8_lossy (to_xml fmt e)) events
  unfolding segment
  frames-map [] = refl
  frames-map (e ∷ rest) = ap (λ texts. from_utf8_lossy (to_xml fmt e) ∷ texts) (frames-map rest)

  -- Positions written by to_xml one after the other, whatever their uid and callsign and in whatever
  -- chunks they arrive, are decoded one by one, in order: where no written number, time, identifier or
  -- version holds an opening angle bracket, each event fits the limit, and the XML library reads it
  -- without error.
  pub positions-decoded :
      (events : List (PositionEvent fmt)) (chunks : List Bytes)
      → All IsAcceptable events
      → concat chunks ≡ concat (map (to_xml fmt) events)
      → (push_all xml chunks (new limit)).0 ≡ ok (map (λ e. from_utf8_lossy (to_xml fmt e)) events)
  positions-decoded events chunks acceptable same =
      stream_decoded xml limit (map segment events) chunks (segments-IsSegment events acceptable)
        (same ∙ sym (stream-map events))
      ∙ ap (λ texts. ok texts) (frames-map events)
