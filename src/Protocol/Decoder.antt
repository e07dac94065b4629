-- ===== src/Protocol/Decoder.antt =====
-- src/protocol.rs: CotStreamDecoder. The loop of `push` takes fuel; the length of the buffer is
-- enough, since each round that goes on removes a whole event.
use tak_bench.Prelude.{
  ℕ, zero, suc, ◌+◌, ◌-◌, Option, none, some, List, [], ◌∷◌, ◌++◌, length, take, drop, ltb,
  if◌then◌else◌, Result, ok, err,
}
use tak_bench.Prelude.Bytes.{Bytes, Str, bytes, position}
use tak_bench.Protocol.Lossy.{from_utf8_lossy}
use tak_bench.Protocol.Xml.{XmlLibrary, validate_xml}

pub data DecodeError (E : Type 0) : Type 0 where
  frame_too_large : ℕ → DecodeError E
  invalid_xml : E → DecodeError E

pub record CotStreamDecoder : Type 0 where
  pub buffer : Bytes
  pub max_event_bytes : ℕ

abbrev pub start_marker : Bytes
start_marker = bytes "<event"

abbrev pub end_marker : Bytes
end_marker = bytes "</event>"

unfoldable pub new : ℕ → CotStreamDecoder
new max_event_bytes = record { buffer = []; max_event_bytes = max_event_bytes }

-- `drain(..len - 5)` where the buffer is longer than five bytes
unfoldable pub keep_tail : Bytes → Bytes
keep_tail buffer = if ltb 5 (length buffer) then drop (length buffer - 5) buffer else buffer

-- `events.push(event)` before the rounds that follow: an error drops what was collected.
unfoldable pub with_event :
    {E : Type 0}
    → Str
    → Result (DecodeError E) (List Str) × Bytes
    → Result (DecodeError E) (List Str) × Bytes
with_event event (ok events, buffer) = (ok (event ∷ events), buffer)
with_event event (err e, buffer) = (err e, buffer)

module _ (xml : XmlLibrary) where
  open xml use {XmlError}

  abbrev pub Drained : Type 0
  Drained = Result (DecodeError XmlError) (List Str) × Bytes

  -- The frame of `size` bytes at the front: drained, validated, and followed by the next rounds.
  abbrev pub take_frame : Bytes → ℕ → Drained → Drained
  take_frame buffer size next = elim (validate_xml xml (take size buffer)) [
    | err e ↦ (err (invalid_xml e), drop size buffer)
    | ok _ ↦ with_event (from_utf8_lossy (take size buffer)) next
  ]

  -- A buffer that begins with the start marker, and where its first end marker stands
  abbrev pub at_end : ℕ → Bytes → Option ℕ → (Bytes → Drained) → Drained
  at_end limit buffer none next =
      if ltb limit (length buffer) then (err (frame_too_large limit), buffer) else (ok [], buffer)
  at_end limit buffer (some end) next =
      let size = end + 8 in
      if ltb limit size
      then (err (frame_too_large limit), drop size buffer)
      else take_frame buffer size (next (drop size buffer))

  abbrev pub at_start : ℕ → Bytes → Option ℕ → (Bytes → Drained) → Drained
  at_start limit buffer none next = (ok [], keep_tail buffer)
  at_start limit buffer (some start) next =
      let rest = drop start buffer in at_end limit rest (position end_marker rest) next

  unfoldable pub drain : ℕ → ℕ → Bytes → Drained
  drain zero limit buffer = (ok [], buffer)
  drain (suc fuel) limit buffer =
      at_start limit buffer (position start_marker buffer) (λ rest. drain fuel limit rest)

  unfoldable pub push :
      Bytes → CotStreamDecoder → Result (DecodeError XmlError) (List Str) × CotStreamDecoder
  push chunk decoder =
      let buffer = decoder.buffer ++ chunk in
      let (result, rest) = drain (suc (length buffer)) decoder.max_event_bytes buffer in
      (result, record decoder { buffer = rest })
