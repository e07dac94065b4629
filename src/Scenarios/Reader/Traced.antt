-- ===== src/Scenarios/Reader/Traced.antt =====
-- src/scenarios.rs: a reader notes the events of its trace, one chunk after the other.
use tak_bench.Prelude.{
  ℕ, ◌+◌, ◌≡◌, refl, Option, none, some, List, [], ◌∷◌, ◌++◌, arith, subst, Result, ok, err,
  is_some, inl, inr, Bool-cases,
}
use tak_bench.Prelude.Bytes.{Bytes, Str}
use tak_bench.Metrics.{Histograms}
use tak_bench.Protocol.Decoder.{DecodeError, push}
use tak_bench.Protocol.Event.{Formats, ReceivedEvent, inspect_event}
use tak_bench.Protocol.Xml.{XmlLibrary}
use tak_bench.Scenarios.Batch.{Stage, going, ended, stopped}
use tak_bench.Scenarios.Ledger.{Uuid, Instant, Sent, lookup_sent, lookup_seen}
use tak_bench.Scenarios.Reader.{
  ReaderState, count, one_received, one_timeout, deliver, note_correlation, note_if_correlated,
  note_event, note_inspected, note_frames, after_push, receive,
}
use tak_bench.Scenarios.Reader.Noted.{
  correlated, IsNoted, IsNoted-same, IsNoted-trans, note_correlation-IsOneMore,
}
use tak_bench.Scenarios.Reader.Trace.{Trace, note_first, frames_trace, pushed_trace}

module _ (h : Histograms) where
  deliver-decoder :
      (o : Option Sent) (now : Instant) (s : ReaderState h)
      → (deliver h o now s).decoder ≡ s.decoder
  unfolding deliver
  deliver-decoder none now s = refl
  deliver-decoder (some sent) now s = refl

  note_correlation-decoder :
      (participant : Str) (id : Uuid) (now : Instant) (s : ReaderState h)
      → (note_correlation h participant id now s).decoder ≡ s.decoder
  unfolding note_correlation count
  note_correlation-decoder participant id now s =
      elim (Bool-cases (is_some (lookup_seen participant id s.ledger.seen))) [
        | inl again ↦ rw again refl
        | inr first ↦ rw first (deliver-decoder (lookup_sent id s.ledger.sent) now _)
      ]

module _ (h : Histograms) (fmt : Formats) (xml : XmlLibrary) (as_number : fmt.Uuid → Uuid)
    (participant : Str) where
  note_if_correlated-decoder :
      (o : Option fmt.Uuid) (now : Instant) (s : ReaderState h)
      → (note_if_correlated h fmt xml as_number participant o now s).decoder ≡ s.decoder
  unfolding note_if_correlated
  note_if_correlated-decoder none now s = refl
  note_if_correlated-decoder (some id) now s =
      note_correlation-decoder h participant (as_number id) now s

  note_event-decoder :
      (event : ReceivedEvent fmt) (now : Instant) (s : ReaderState h)
      → (note_event h fmt xml as_number participant event now s).decoder ≡ s.decoder
  unfolding note_event count
  note_event-decoder event now s =
      note_if_correlated-decoder event.correlation_id now (count h (one_received h) s)

  note_if_correlated-IsNoted :
      (event : ReceivedEvent fmt) (o : Option fmt.Uuid) (now : Instant) (s : ReaderState h)
      → event.correlation_id ≡ o
      → IsNoted h fmt participant
          (event ∷ [])
          s
          (note_if_correlated h fmt xml as_number participant o now (count h (one_received h) s))
  unfolding note_if_correlated correlated count
  note_if_correlated-IsNoted event none now s same = record {
    all_received = omega arith;
    told_apart = rw same (omega arith);
    sent_kept = refl;
    others_kept = λ receiver id other. refl;
  }
  note_if_correlated-IsNoted event (some id) now s same =
      let one =
        note_correlation-IsOneMore h fmt participant (as_number id) now
          (count h (one_received h) s) in
      record {
        all_received = omega (arith, one.received_same);
        told_apart = rw same (omega (arith, one.one_more));
        sent_kept = one.sent_same;
        others_kept = one.others_same;
      }

  note_event-IsNoted :
      (event : ReceivedEvent fmt) (now : Instant) (s : ReaderState h)
      → IsNoted h fmt participant
          (event ∷ [])
          s
          (note_event h fmt xml as_number participant event now s)
  unfolding note_event
  note_event-IsNoted event now s = note_if_correlated-IsNoted event event.correlation_id now s refl

  pub one_timeout-IsNoted :
      (s : ReaderState h) → IsNoted h fmt participant [] s (count h (one_timeout h) s)
  unfolding count
  one_timeout-IsNoted s =
      IsNoted-same h fmt participant s (count h (one_timeout h) s) refl refl refl

  -- A reader's state is what a trace says.
  unfoldable pub IsTraced : Trace fmt xml → ReaderState h → Stage (ReaderState h) → Type 0
  IsTraced trace s (going s') = IsNoted h fmt participant trace.0 s s' × (trace.1 ≡ some s'.decoder)
  IsTraced trace s (ended s') = IsNoted h fmt participant trace.0 s s' × (trace.1 ≡ none)
  IsTraced trace s (stopped e s') = IsNoted h fmt participant trace.0 s s' × (trace.1 ≡ none)

  first-IsTraced :
      (first : List (ReceivedEvent fmt)) (later : Trace fmt xml) (s s' : ReaderState h)
      (stage : Stage (ReaderState h))
      → IsNoted h fmt participant first s s'
      → IsTraced later s' stage
      → IsTraced (first ++ later.0, later.1) s stage
  unfolding IsTraced
  first-IsTraced first later s s' (going s'') one (other, same) =
      (IsNoted-trans h fmt participant first later.0 s s' s'' one other, same)
  first-IsTraced first later s s' (ended s'') one (other, same) =
      (IsNoted-trans h fmt participant first later.0 s s' s'' one other, same)
  first-IsTraced first later s s' (stopped e s'') one (other, same) =
      (IsNoted-trans h fmt participant first later.0 s s' s'' one other, same)

  pub same-IsNoted : (s : ReaderState h) → IsNoted h fmt participant [] s s
  same-IsNoted s = IsNoted-same h fmt participant s s refl refl refl

  note_inspected-IsTraced :
      (inspected : Result xml.XmlError (ReceivedEvent fmt)) (now : Instant) (s : ReaderState h)
      (next : ReaderState h → Stage (ReaderState h)) (later : Trace fmt xml)
      → ((s' : ReaderState h) → s'.decoder ≡ s.decoder → IsTraced later s' (next s'))
      → IsTraced
          (note_first fmt xml inspected later)
          s
          (note_inspected h fmt xml as_number participant inspected now s next)
  unfolding note_inspected IsTraced
  note_inspected-IsTraced (ok event) now s next later traced =
      let s' = note_event h fmt xml as_number participant event now s in
      first-IsTraced (event ∷ []) later s s' (next s') (note_event-IsNoted event now s)
        (traced s' (note_event-decoder event now s))
  note_inspected-IsTraced (err e) now s next later traced = (same-IsNoted s, refl)

  note_frames-IsTraced :
      (frames : List Str) (index : ℕ) (now : ℕ → Instant) (s : ReaderState h)
      → IsTraced
          (frames_trace fmt xml frames s.decoder)
          s
          (note_frames h fmt xml as_number participant frames index now s)
  unfolding note_frames frames_trace IsTraced
  note_frames-IsTraced [] index now s = (same-IsNoted s, refl)
  note_frames-IsTraced (raw ∷ rest) index now s =
      note_inspected-IsTraced (inspect_event fmt xml raw) (now index) s _
        (frames_trace fmt xml rest s.decoder)
        (λ s' kept.
          subst
            (λ d.
              IsTraced (frames_trace fmt xml rest d) s'
                (note_frames h fmt xml as_number participant rest (index + 1) now s'))
            kept (note_frames-IsTraced rest (index + 1) now s'))

  after_push-IsTraced :
      (pushed : Result (DecodeError xml.XmlError) (List Str)) (now : ℕ → Instant)
      (s : ReaderState h)
      → IsTraced
          (pushed_trace fmt xml pushed s.decoder)
          s
          (after_push h fmt xml as_number participant pushed now s)
  unfolding after_push IsTraced
  after_push-IsTraced (err e) now s = (same-IsNoted s, refl)
  after_push-IsTraced (ok frames) now s = note_frames-IsTraced frames 0 now s

  pub receive-IsTraced :
      (chunk : Bytes) (now : ℕ → Instant) (s : ReaderState h)
      → let pushed = push xml chunk s.decoder in
        IsTraced
          (pushed_trace fmt xml pushed.0 pushed.1)
          s
          (receive h fmt xml as_number participant chunk now s)
  unfolding receive
  receive-IsTraced chunk now s =
      let pushed = push xml chunk s.decoder in
      let s' : ReaderState h = record s { decoder = pushed.1 } in
      first-IsTraced [] (pushed_trace fmt xml pushed.0 pushed.1) s s' _
        (IsNoted-same h fmt participant s s' refl refl refl) (after_push-IsTraced pushed.0 now s')
