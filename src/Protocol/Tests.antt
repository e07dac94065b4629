-- ===== src/Protocol/Tests.antt =====
-- src/protocol.rs: its tests, and the theorems at concrete streams.
use mathlib.Core.List.{append-nil}
use tak_bench.Protocol.Delivered.{positions-decoded}
use tak_bench.Prelude.{none, map, ℕ, ◌≡◌, refl, List, [], ◌∷◌, ◌++◌, arith, ok, err}
use tak_bench.Prelude.Bytes.{Bytes, Str, bytes, position, starts_with}
use tak_bench.Protocol.Lossy.{from_utf8_lossy}
use tak_bench.Protocol.Xml.{validate_events, validate_xml}
use tak_bench.Protocol.Event.{to_xml, escape}
use tak_bench.Protocol.Escape.{escape_each, escape-each}
use tak_bench.Protocol.Decoder.{
  CotStreamDecoder, DecodeError, keep_tail, new, with_event, drain, push,
}
use tak_bench.Protocol.Streams.{concat, push_all}
use tak_bench.Protocol.Reads.{reads, chunking_irrelevant}
use tak_bench.Protocol.Frames.{Segment, IsSegment, frames, stream_decoded}
use tak_bench.Protocol.Emitted.{IsEmitted, push_emits}
use tak_bench.Protocol.Samples.{
  lenient, hostile, plain_formats, hostile_position, plain_formats-IsPlainFormat,
  hostile_position-IsAcceptable, hostile_text,
}

abbrev first_half : Bytes
first_half = bytes "<event uid=\"a\">"

abbrev second_half : Bytes
second_half = bytes "</event><event uid=\"b\"></event>"

abbrev both : List Str
both = bytes "<event uid=\"a\"></event>" ∷ bytes "<event uid=\"b\"></event>" ∷ []

-- All that a decoder computes with
decoding : ℕ
unfolding position starts_with from_utf8_lossy validate_events validate_xml keep_tail new with_event
    drain push
decoding = 0

abbrev half_full : CotStreamDecoder
half_full = record { buffer = first_half; max_event_bytes = 1024 }

fragmented_event_waits : push lenient first_half (new 1024) ≡ (ok [], half_full)
unfolding decoding
fragmented_event_waits = refl

concatenated_events : (push lenient second_half half_full).0 ≡ ok both
unfolding decoding
concatenated_events = refl

anonymous_preamble_discarded :
    (push lenient (bytes "<auth>ignored</auth><event uid=\"a\"></event>") (new 1024)).0
    ≡ ok (bytes "<event uid=\"a\"></event>" ∷ [])
unfolding decoding
anonymous_preamble_discarded = refl

oversized_refused :
    (push lenient second_half (record half_full { max_event_bytes = 16 })).0
    ≡ err (DecodeError.frame_too_large 16)
unfolding decoding
oversized_refused = refl

chunking_irrelevant_example :
    let one = reads lenient (first_half ∷ second_half ∷ []) (new 1024) in
    let another = reads lenient ((first_half ++ second_half) ∷ []) (new 1024) in
    (one.1 ≡ another.1) × (one.1 ≡ none → one.0 ≡ another.0)
chunking_irrelevant_example =
    chunking_irrelevant lenient 1024 (first_half ∷ second_half ∷ [])
      ((first_half ++ second_half) ∷ []) refl

abbrev authenticated : Segment
authenticated = record { preamble = bytes "<auth/>"; frame = bytes "<event></event>" }

authenticated-IsSegment : IsSegment lenient 64 authenticated
unfolding decoding
authenticated-IsSegment = record {
  framed = record {
    begins = refl;
    body = 7;
    ends = refl;
    whole = refl;
    fits = omega arith;
    valid = refl;
  };
  first = refl;
}

stream_decoded_example :
    (push_all lenient (bytes "<auth/><event></" ∷ bytes "event>" ∷ []) (new 64)).0
    ≡ ok (frames (authenticated ∷ []))
stream_decoded_example =
    stream_decoded lenient 64 (authenticated ∷ []) (bytes "<auth/><event></" ∷ bytes "event>" ∷ [])
      (authenticated-IsSegment, tt) refl

one_decoded :
    push lenient (bytes "<event></event>") (new 64) ≡ (ok (bytes "<event></event>" ∷ []), new 64)
unfolding decoding
one_decoded = refl

push_emits_example :
    IsEmitted lenient
      (new 64).max_event_bytes
      ((new 64).buffer ++ bytes "<event></event>")
      (bytes "<event></event>" ∷ [])
      (new 64).buffer
push_emits_example =
    push_emits lenient (bytes "<event></event>") (new 64) (new 64) (bytes "<event></event>" ∷ [])
      one_decoded

escape-each_example : escape hostile ≡ escape_each hostile
escape-each_example = escape-each hostile

positions-decoded_example :
    (push_all lenient (concat (hostile_text ∷ hostile_text ∷ []) ∷ []) (new 1024)).0
    ≡ ok (
        map
          (λ e. from_utf8_lossy (to_xml plain_formats e))
          (hostile_position ∷ hostile_position ∷ []))
positions-decoded_example =
    positions-decoded plain_formats plain_formats-IsPlainFormat lenient 1024
      (hostile_position ∷ hostile_position ∷ []) (concat (hostile_text ∷ hostile_text ∷ []) ∷ [])
      (hostile_position-IsAcceptable, (hostile_position-IsAcceptable, tt)) (append-nil _)
