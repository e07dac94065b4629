-- ===== src/Scenarios/Reader/Trace.antt =====
-- src/scenarios.rs: which events a reader notes, by what it reads alone: those of the frames that its
-- chunks decode to, up to the first one that cannot be inspected and to where the reader stops.
use tak_bench.Protocol.Decoder
use tak_bench.Prelude.{
  ◌*◌, Bool, ◌&&◌, ◌||◌, not, Option, none, some, List, [], ◌∷◌, ◌++◌, is_some, is_empty,
  if◌then◌else◌, Result, ok, err,
}
use tak_bench.Prelude.Bytes.{Str}
use tak_bench.Config.Types.{ParticipantConfig}
use tak_bench.Protocol.Decoder.{CotStreamDecoder, DecodeError, push}
use tak_bench.Protocol.Event.{Formats, ReceivedEvent, inspect_event}
use tak_bench.Protocol.Xml.{XmlLibrary}
use tak_bench.Scenarios.Reader.{
  ReadEvent, stop_changed, deadline_reached, read_failed, read_timed_out, received,
}

module _ (fmt : Formats) (xml : XmlLibrary) where
  -- The events noted, and where the reader goes on, its decoder
  abbrev pub Trace : Type 0
  Trace = List (ReceivedEvent fmt) × Option CotStreamDecoder

  abbrev pub note_first : Result xml.XmlError (ReceivedEvent fmt) → Trace → Trace
  note_first (ok event) later = (event ∷ later.0, later.1)
  note_first (err e) later = ([], none)

  unfoldable pub frames_trace : List Str → CotStreamDecoder → Trace
  frames_trace [] d = ([], some d)
  frames_trace (raw ∷ rest) d = note_first (inspect_event fmt xml raw) (frames_trace rest d)

  abbrev pub pushed_trace : Result (DecodeError xml.XmlError) (List Str) → CotStreamDecoder → Trace
  pushed_trace (err e) d = ([], none)
  pushed_trace (ok frames) d = frames_trace frames d

  module _ (config : ParticipantConfig) (tolerate_silence : Bool) where
    unfoldable pub step_trace : ReadEvent → CotStreamDecoder → Trace
    step_trace (stop_changed raised) d = ([], if raised then none else some d)
    step_trace deadline_reached d = ([], none)
    step_trace read_failed d = ([], none)
    step_trace read_timed_out d = ([], if tolerate_silence then some d else none)
    step_trace (received chunk waited now) d =
        if is_empty chunk || (is_some config.read_delay && not waited)
        then ([], none)
        else pushed_trace (push xml chunk d).0 (push xml chunk d).1

    abbrev pub after_trace :
        Trace → (CotStreamDecoder → List (ReceivedEvent fmt)) → List (ReceivedEvent fmt)
    after_trace (events, none) more = events
    after_trace (events, some d) more = events ++ more d

    unfoldable pub noted : List ReadEvent → CotStreamDecoder → List (ReceivedEvent fmt)
    noted [] d = []
    noted (event ∷ rest) d = after_trace (step_trace event d) (λ d'. noted rest d')

    -- What read_events notes: nothing where the pause before the first read is cut short
    unfoldable pub noted_by : Bool → List ReadEvent → List (ReceivedEvent fmt)
    noted_by paused events =
        if is_some config.pause_read_for && not paused
        then []
        else noted events (Decoder.new (8 * 1024 * 1024))
