-- ===== src/Protocol/Streams.antt =====
-- src/protocol.rs: `push` over a stream that arrives in chunks of any sizes.
use mathlib.Core.List.{append-nil, append_assoc}
use tak_bench.Prelude.{
  ℕ, suc, ◌≡◌, refl, sym, ◌∙◌, ap, List, [], ◌∷◌, ◌++◌, length, length-append, Result, ok, err,
  arith, ◌⊎◌, inl, inr,
}
use tak_bench.Prelude.Bytes.{Bytes, Str, position, starts_with}
use tak_bench.Protocol.Xml.{XmlLibrary}
use tak_bench.Protocol.Decoder.{
  CotStreamDecoder, DecodeError, Drained, with_event, push, new, keep_tail,
}
use tak_bench.Protocol.Drained.{drained, drained-none}
use tak_bench.Protocol.Failures.{drained-err-append}
use tak_bench.Protocol.Fragments.{with_events, drained-append}

-- Events decoded by an earlier chunk come before those of a later one; an error hides them.
abbrev pub prepend :
    {E : Type 0} → List Str → Result (DecodeError E) (List Str) → Result (DecodeError E) (List Str)
prepend events (ok later) = ok (events ++ later)
prepend events (err e) = err e

module _ (xml : XmlLibrary) (limit : ℕ) where
  with_events-eq :
      (events : List Str) (result : Result (DecodeError xml.XmlError) (List Str)) (rest : Bytes)
      → with_events xml limit events (result, rest) ≡ (prepend events result, rest)
  unfolding with_event
  with_events-eq [] (ok later) rest = refl
  with_events-eq [] (err e) rest = refl
  with_events-eq (event ∷ events) (ok later) rest = rw (with_events-eq events (ok later) rest)
  with_events-eq (event ∷ events) (err e) rest = rw (with_events-eq events (err e) rest)

  -- The loop on a longer buffer, in terms of the loop on what an earlier one left
  drained_split :
      (buffer chunk : Bytes) (events : List Str) (rest : Bytes)
      → drained xml limit buffer ≡ (ok events, rest)
      → drained xml limit (buffer ++ chunk) ≡ (
        prepend events (drained xml limit (rest ++ chunk)).0,
        (drained xml limit (rest ++ chunk)).1,
      )
  drained_split buffer chunk events rest d =
      let (result, left) = drained xml limit (rest ++ chunk) in
      drained-append xml limit (suc (length buffer)) buffer chunk events rest (omega arith) d
      ∙ with_events-eq events result left

abbrev pub concat : List Bytes → Bytes
concat [] = []
concat (chunk ∷ chunks) = chunk ++ concat chunks

Pair-cases :
    {E S : Type 0} (p : Result E (List Str) × S)
    → ((events : List Str) × (s : S) × (p ≡ (ok events, s)))
      ⊎ ((e : E) × (s : S) × (p ≡ (err e, s)))
Pair-cases (ok events, s) = inl (events, s, refl)
Pair-cases (err e, s) = inr (e, s, refl)

-- Events that add nothing to the ones before are none.
nothing_new :
    {E : Type 0} (events : List Str) (next : Result (DecodeError E) (List Str) × Bytes)
    (buffer : Bytes)
    → (let x : Result (DecodeError E) (List Str) × Bytes = (ok events, buffer) in x)
      ≡ (prepend events next.0, next.1)
    → next ≡ (ok [], buffer)
nothing_new events (ok [], rest) buffer h = ground (arith, h)
nothing_new events (ok (event ∷ later), rest) buffer h =
    absurd (omega (arith, length-append events (event ∷ later), same_length))
  where
    same_events : events ≡ events ++ event ∷ later
    same_events = ground (arith, h)

    same_length : length events ≡ length (events ++ event ∷ later)
    same_length = ap length same_events
nothing_new events (err e, rest) buffer h = ground (arith, h)

module _ (xml : XmlLibrary) where
  abbrev pub resume :
      CotStreamDecoder
      → Drained xml
      → Result (DecodeError xml.XmlError) (List Str) × CotStreamDecoder
  resume d (result, rest) = (result, record d { buffer = rest })

  abbrev pub after_push :
      Result (DecodeError xml.XmlError) (List Str) × CotStreamDecoder
      → (CotStreamDecoder → Result (DecodeError xml.XmlError) (List Str) × CotStreamDecoder)
      → Result (DecodeError xml.XmlError) (List Str) × CotStreamDecoder
  after_push (err e, d) next = (err e, d)
  after_push (ok events, d) next = (prepend events (next d).0, (next d).1)

  pub push-drained :
      (chunk : Bytes) (d : CotStreamDecoder)
      → push xml chunk d ≡ resume d (drained xml d.max_event_bytes (d.buffer ++ chunk))
  unfolding push drained
  push-drained chunk d = refl

  pub push_ok :
      (chunk : Bytes) (d d' : CotStreamDecoder) (events : List Str)
      → push xml chunk d ≡ (ok events, d')
      → (drained xml d.max_event_bytes (d.buffer ++ chunk) ≡ (ok events, d'.buffer))
        × (d'.max_event_bytes ≡ d.max_event_bytes)
  push_ok chunk d d' events h =
      let step = sym (push-drained chunk d) ∙ h in
      (ap (λ p. (p.0, p.1.buffer)) step, ap (λ p. p.1.max_event_bytes) (sym step))

  -- A push that succeeds, then another: the same as one push of both chunks, with the events of the
  -- first before those of the second, where the second succeeds, and its error and state in any case.
  pub push-append :
      (first second : Bytes) (d d' : CotStreamDecoder) (events : List Str)
      → push xml first d ≡ (ok events, d')
      → push xml (first ++ second) d
        ≡ (prepend events (push xml second d').0, (push xml second d').1)
  push-append first second d d' events h =
      let (decoded, same) = push_ok first d d' events h in
      rw
        (
          push-drained (first ++ second) d,
          push-drained second d',
          same,
          ← append_assoc d.buffer first second,
        )
        (rw
          (drained_split xml d.max_event_bytes (d.buffer ++ first) second events d'.buffer decoded))

  -- Each chunk is pushed in turn, up to the first error: all the events together, or the error. What a
  -- reader was given before an error is in Reads.
  unfoldable pub push_all :
      List Bytes
      → CotStreamDecoder
      → Result (DecodeError xml.XmlError) (List Str) × CotStreamDecoder
  push_all [] d = (ok [], d)
  push_all (chunk ∷ chunks) d = after_push (push xml chunk d) (λ d'. push_all chunks d')

  -- Nothing in the buffer waits to be decoded.
  abbrev pub IsSettled : CotStreamDecoder → Type 0
  IsSettled d = drained xml d.max_event_bytes d.buffer ≡ (ok [], d.buffer)

  pub new-IsSettled : (limit : ℕ) → IsSettled (new limit)
  unfolding position starts_with new keep_tail
  new-IsSettled limit = drained-none xml limit [] refl

  push-IsSettled :
      (chunk : Bytes) (d d' : CotStreamDecoder) (events : List Str)
      → push xml chunk d ≡ (ok events, d')
      → IsSettled d'
  push-IsSettled chunk d d' events h =
      let (decoded, same) = push_ok chunk d d' events h in
      let buffer = d.buffer ++ chunk in
      let again = drained_split xml d.max_event_bytes buffer [] events d'.buffer decoded in
      rw same (
        nothing_new events (drained xml d.max_event_bytes d'.buffer) d'.buffer
          (sym decoded ∙ (rw (append-nil buffer, append-nil d'.buffer) at again)))

  push_nil : (d : CotStreamDecoder) → IsSettled d → (push xml [] d).0 ≡ ok []
  push_nil d settled = rw (push-drained [] d, append-nil d.buffer, settled)

  push_err :
      (chunk later : Bytes) (d d' : CotStreamDecoder) (e : DecodeError xml.XmlError)
      → push xml chunk d ≡ (err e, d')
      → (push xml (chunk ++ later) d).0 ≡ err e
  push_err chunk later d d' e h =
      let failed = ap (λ p. (p.0, p.1.buffer)) (sym (push-drained chunk d) ∙ h) in
      let (left, fails) =
        drained-err-append xml d.max_event_bytes (suc (length (d.buffer ++ chunk)))
          (d.buffer ++ chunk) later e d'.buffer (omega arith) failed in
      rw (push-drained (chunk ++ later) d, ← append_assoc d.buffer chunk later, fails)

  pub push_all-concat :
      (chunks : List Bytes) (d : CotStreamDecoder)
      → IsSettled d
      → (push_all chunks d).0 ≡ (push xml (concat chunks) d).0
  unfolding push_all
  push_all-concat [] d settled = sym (push_nil d settled)
  push_all-concat (chunk ∷ chunks) d settled = elim (Pair-cases (push xml chunk d)) [
    | inl (events, d', decoded) ↦
        rw (decoded, push-append chunk (concat chunks) d d' events decoded)
          (ap (prepend events)
            (push_all-concat chunks d' (push-IsSettled chunk d d' events decoded)))
    | inr (e, d', failed) ↦ rw (failed, push_err chunk (concat chunks) d d' e failed)
  ]
