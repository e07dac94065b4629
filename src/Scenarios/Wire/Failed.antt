-- ===== src/Scenarios/Wire/Failed.antt =====
-- src/scenarios.rs, src/connection.rs: what a flush that fails leaves, on a stream with a timeout.
use mathlib.Core.List.{append-nil, append_assoc}
use tak_bench.Prelude.{
  ℕ, ◌≡◌, refl, sym, ◌∙◌, ap, List, [], ◌∷◌, ◌++◌, is_empty, is_empty-nil, Result, ok, err,
  if◌then◌else◌, arith, Result-cases, Bool-cases, inl, inr, ◌>>=◌, subst,
}
use tak_bench.Prelude.Bytes.{Bytes, Str}
use tak_bench.Prelude.Time.{Duration}
use tak_bench.Connection.Stream.{ReturnsEnd, Stream, is_late, write_all}
use tak_bench.Connection.Timeouts.{write_all-is_elapsed}
use tak_bench.Metrics.{fetch_add}
use tak_bench.Protocol.Streams.{concat}
use tak_bench.Scenarios.Batch.{
  Stage, going, ended, stopped, flushed, SenderState, after_write, write_events, flush_batch,
  record_write_failure,
}
use tak_bench.Scenarios.Errors.{AnyError}
use tak_bench.Scenarios.Wire.{Transcript}
use tak_bench.Scenarios.Wire.Flush.{write_fragmented-transcript}
use tak_bench.Scenarios.Writing.{Socket, write_fragmented, write_each, write_fragmented-each}

module _ {socket : Socket} (t : Transcript socket) where
  -- The bytes before a slice are on the wire, and the slice cannot be written.
  pub record IsBroken (text : Bytes) (w : socket.Writer) (e : AnyError) : Type 0 where
    pub front : Bytes
    pub slice : Bytes
    pub behind : Bytes
    pub writer : socket.Writer
    pub cut : text ≡ front ++ (slice ++ behind)
    pub on_wire : t.transcript writer ≡ t.transcript w ++ front
    pub fails : socket.write_all slice writer ≡ err e

  write_each-IsBroken :
      (slices : List Bytes) (w : socket.Writer) (e : AnyError)
      → write_each socket slices w ≡ err e
      → IsBroken (concat slices) w e
  unfolding write_each
  write_each-IsBroken [] w e h = cc
  write_each-IsBroken (slice ∷ slices) w e h = elim (Result-cases (socket.write_all slice w)) [
    | inl (w', first) ↦
        let rest =
          write_each-IsBroken slices w' e
            (subst (λ r. (r >>= λ w1. write_each socket slices w1) ≡ err e) first h) in
        record {
          front = slice ++ rest.front;
          slice = rest.slice;
          behind = rest.behind;
          writer = rest.writer;
          cut =
              ap (λ l. slice ++ l) rest.cut
              ∙ sym (append_assoc slice rest.front (rest.slice ++ rest.behind));
          on_wire =
              rest.on_wire
              ∙ ap (λ l. l ++ rest.front) (t.writes slice w w' first)
              ∙ append_assoc (t.transcript w) slice rest.front;
          fails = rest.fails;
        }
    | inr (e', failed) ↦ record {
      front = [];
      slice = slice;
      behind = concat slices;
      writer = w;
      cut = refl;
      on_wire = sym (append-nil (t.transcript w));
      fails = failed ∙ subst (λ r. (r >>= λ w1. write_each socket slices w1) ≡ err e) failed h;
    }
  ]

  write_fragmented-IsBroken :
      (sizes : List ℕ) (text : Bytes) (w : socket.Writer) (e : AnyError)
      → write_fragmented socket sizes text w ≡ err e
      → IsBroken text w e
  write_fragmented-IsBroken [] text w e h = record {
    front = [];
    slice = text;
    behind = [];
    writer = w;
    cut = sym (append-nil text);
    on_wire = sym (append-nil (t.transcript w));
    fails = unfold write_fragmented in h;
  }
  write_fragmented-IsBroken (first ∷ others) text w e h =
      let (slices, cut, same) = write_fragmented-each first others text in
      subst (λ l. IsBroken l w e) cut.together
        (write_each-IsBroken slices w e (sym (same socket w) ∙ h))

module _ (stream : Stream) (limit : Duration) where
  -- `connection::write_all` with the configured timeout
  abbrev pub socket_of : Socket
  socket_of = record { Writer = stream.Writer; write_all = write_all stream limit }

  module _ (t : Transcript socket_of) where
    -- A front part of the batch is on the wire, and the slice behind it could not be written. The
    -- events of the batch are dropped, and timeouts too where that slice was not written and flushed
    -- in time; none is sent or recorded.
    pub record IsAbandoned (s s' : SenderState socket_of) : Type 0 where
      pub failure : AnyError
      pub broken : IsBroken t s.batch.bytes s.writer failure
      pub timeouts : s'.counters.message_timeouts ≡ (
          if is_late stream limit broken.slice broken.writer
          then fetch_add s.counters.message_timeouts s.batch.events
          else s.counters.message_timeouts)
      pub dropped :
          s'.counters.dropped_messages ≡ fetch_add s.counters.dropped_messages s.batch.events
      pub unsent : s'.counters.sent_messages ≡ s.counters.sent_messages
      pub unrecorded : s'.ledger ≡ s.ledger

    -- What has become of the batch
    pub Attempted : SenderState socket_of → Stage (SenderState socket_of) → Type 0
    Attempted s (going s') =
        (t.transcript s'.writer ≡ t.transcript s.writer ++ s.batch.bytes) × (s'.batch.bytes ≡ [])
    Attempted s (ended s') = ⊥
    Attempted s (stopped e s') = IsAbandoned s s'

    module _ (returns : ReturnsEnd stream) where
      failed-IsAbandoned :
          (s : SenderState socket_of) (e : AnyError)
          → IsBroken t s.batch.bytes s.writer e
          → IsAbandoned s (record s { counters = record_write_failure s.batch.events e s.counters })
      unfolding record_write_failure
      failed-IsAbandoned s e broken = record {
        failure = e;
        broken = broken;
        timeouts =
            rw
              (sym (
                write_all-is_elapsed stream returns limit broken.slice broken.writer e
                  broken.fails))
              (ground arith);
        dropped = ground arith;
        unsent = ground arith;
        unrecorded = refl;
      }

      write-Attempted :
          (sender : Str) (s : SenderState socket_of) (r : Result AnyError stream.Writer)
          → ((w : stream.Writer)
              → r ≡ ok w
              → t.transcript w ≡ t.transcript s.writer ++ s.batch.bytes)
          → ((e : AnyError) → r ≡ err e → IsBroken t s.batch.bytes s.writer e)
          → Attempted s (after_write socket_of s.batch.events s (flushed socket_of sender) r)
      unfolding after_write Attempted flushed
      write-Attempted sender s (ok w) whole broken = (whole w refl, refl)
      write-Attempted sender s (err e) whole broken = failed-IsAbandoned s e (broken e refl)

      -- A flush that succeeds has put its whole batch on the wire and leaves none of it to be written. One
      -- that fails has put a front part of it there and could not write the slice behind that. It counts
      -- all events of the batch as dropped, whatever part was written, and as timeouts exactly where the
      -- write and the flush of that slice had not ended when the time was up; it counts none as sent and
      -- leaves the ledger alone. For any chunk sizes; a write that succeeds sends its whole slice,
      -- and the timer returns what the future has come to.
      pub flush_batch-Attempted :
          (chunks : List ℕ) (sender : Str) (s : SenderState socket_of)
          → Attempted s (flush_batch socket_of chunks sender s)
      unfolding flush_batch write_events Attempted
      flush_batch-Attempted chunks sender s = elim (Bool-cases (is_empty s.batch.bytes)) [
        | inl nothing ↦
            let empty = is_empty-nil s.batch.bytes nothing in
            rw nothing (
              sym (ap (λ l. t.transcript s.writer ++ l) empty ∙ append-nil (t.transcript s.writer)),
              empty,
            )
        | inr something ↦ rw something (
            write-Attempted sender s (write_fragmented socket_of chunks s.batch.bytes s.writer)
              (write_fragmented-transcript t chunks s.batch.bytes s.writer)
              (write_fragmented-IsBroken t chunks s.batch.bytes s.writer))
      ]
