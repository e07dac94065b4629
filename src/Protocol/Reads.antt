-- ===== src/Protocol/Reads.antt =====
-- src/protocol.rs: what a reader that pushes chunk by chunk is given, as read_events of src/scenarios.rs
-- does: the events of each push before the next one is made, up to the first error.
use tak_bench.Prelude.{
  ℕ, ◌≡◌, refl, sym, ◌∙◌, ap, Option, none, some, List, [], ◌∷◌, ◌++◌, Result, ok, err,
  ok-injective, err-injective,
}
use tak_bench.Prelude.Bytes.{Bytes, Str}
use tak_bench.Protocol.Xml.{XmlLibrary}
use tak_bench.Protocol.Decoder.{CotStreamDecoder, DecodeError, push, new}
use tak_bench.Protocol.Streams.{
  prepend, concat, push_all, push_all-concat, new-IsSettled, after_push,
}

-- The events given so far, and the error that has ended the reading
abbrev pub Given : Type 0 → Type 0
Given E = List Str × Option (DecodeError E)

abbrev all_or_error : {E : Type 0} → Given E → Result (DecodeError E) (List Str)
all_or_error (events, none) = ok events
all_or_error (events, some e) = err e

prepend-given :
    {E : Type 0} (events : List Str) (given : Given E)
    → prepend events (all_or_error given) ≡ all_or_error (events ++ given.0, given.1)
prepend-given events (later, none) = refl
prepend-given events (later, some e) = refl

-- One error or none, and the same events where there is none
all_or_error-same :
    {E : Type 0} (one other : Given E)
    → all_or_error one ≡ all_or_error other
    → (one.1 ≡ other.1) × (one.1 ≡ none → one.0 ≡ other.0)
all_or_error-same (events, none) (others, none) h = (refl, λ e. ok-injective h)
all_or_error-same (events, none) (others, some e) h = cc
all_or_error-same (events, some e) (others, none) h = cc
all_or_error-same (events, some e) (others, some e') h =
    (ap (λ l. some l) (err-injective h), λ none_left. cc)

module _ (xml : XmlLibrary) where
  abbrev give :
      Result (DecodeError xml.XmlError) (List Str) × CotStreamDecoder
      → (CotStreamDecoder → Given xml.XmlError)
      → Given xml.XmlError
  give (err e, d) more = ([], some e)
  give (ok events, d) more = (events ++ (more d).0, (more d).1)

  unfoldable pub reads : List Bytes → CotStreamDecoder → Given xml.XmlError
  reads [] d = ([], none)
  reads (chunk ∷ chunks) d = give (push xml chunk d) (λ d'. reads chunks d')

  give-after_push :
      (pushed : Result (DecodeError xml.XmlError) (List Str) × CotStreamDecoder)
      (more : CotStreamDecoder → Given xml.XmlError)
      (next : CotStreamDecoder → Result (DecodeError xml.XmlError) (List Str) × CotStreamDecoder)
      → ((d : CotStreamDecoder) → (next d).0 ≡ all_or_error (more d))
      → (after_push xml pushed next).0 ≡ all_or_error (give pushed more)
  give-after_push (err e, d) more next h = refl
  give-after_push (ok events, d) more next h =
      ap (prepend events) (h d) ∙ prepend-given events (more d)

  push_all-reads :
      (chunks : List Bytes) (d : CotStreamDecoder)
      → (push_all xml chunks d).0 ≡ all_or_error (reads chunks d)
  unfolding push_all reads
  push_all-reads [] d = refl
  push_all-reads (chunk ∷ chunks) d =
      give-after_push (push xml chunk d) (reads chunks) (push_all xml chunks)
        (push_all-reads chunks)

  -- Whatever the chunks in which the same bytes arrive at a new decoder, the reading ends with the same
  -- error or with none; and where there is none, the events given are the same. Which events were given
  -- before an error can depend on the chunks: a push that fails gives none of its own.
  pub chunking_irrelevant :
      (limit : ℕ) (chunks other : List Bytes)
      → concat chunks ≡ concat other
      → let one = reads chunks (new limit) in
        let another = reads other (new limit) in
        (one.1 ≡ another.1) × (one.1 ≡ none → one.0 ≡ another.0)
  chunking_irrelevant limit chunks other same =
      all_or_error-same (reads chunks (new limit)) (reads other (new limit)) (
        sym (push_all-reads chunks (new limit))
        ∙ push_all-concat xml chunks (new limit) (new-IsSettled xml limit)
        ∙ ap (λ b. (push xml b (new limit)).0) same
        ∙ sym (push_all-concat xml other (new limit) (new-IsSettled xml limit))
        ∙ push_all-reads other (new limit))
