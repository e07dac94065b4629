-- ===== src/Scenarios/Wire/Flush.antt =====
-- src/scenarios.rs: a flush keeps what is on the wire and what the ledger records in step.
use mathlib.Core.List.{append-nil, append_assoc, map-append}
use tak_bench.Prelude.{
  ℕ, ◌%◌, ◌≡◌, refl, sym, ◌∙◌, ap, List, [], ◌∷◌, ◌++◌, map, is_empty, Result, ok, err, >>=-eq-ok,
  inl, inr, ok-injective, Bool-cases, arith, length-append,
}
use tak_bench.Prelude.Bytes.{Bytes, Str}
use tak_bench.Prelude.Time.{u64_mod}
use tak_bench.Protocol.Streams.{concat}
use tak_bench.Scenarios.Errors.{AnyError}
use tak_bench.Scenarios.Batch.{
  Stage, going, ended, stopped, ◌and_then◌, SenderState, after_write, write_events, flushed,
  flush_batch, insert_all, record_local_drop, record_write_failure,
}
use tak_bench.Scenarios.Ledger.{Uuid, Instant, Sent}
use tak_bench.Scenarios.Sender.Balance.{record_write_failure-sent}
use tak_bench.Scenarios.Writing.{Socket, write_fragmented, write_each, write_fragmented-each}
use tak_bench.Scenarios.Wire.{Transcript, Emitted, key, texts, IsRecorded, IsOnWire, OnWire}

pub concat-append : (xs ys : List Bytes) → concat (xs ++ ys) ≡ concat xs ++ concat ys
concat-append [] ys = refl
concat-append (x ∷ xs) ys =
    ap (λ l. x ++ l) (concat-append xs ys) ∙ sym (append_assoc x (concat xs) (concat ys))

pub texts-append : (xs ys : List Emitted) → texts (xs ++ ys) ≡ texts xs ++ texts ys
texts-append xs ys =
    ap concat (map-append (λ e. e.text) xs ys)
    ∙ concat-append (map (λ e. e.text) xs) (map (λ e. e.text) ys)

insert_all-append :
    (sender : Str) (xs ys : List (Uuid × Instant)) (sent : List Sent)
    → insert_all sender (xs ++ ys) sent ≡ insert_all sender ys (insert_all sender xs sent)
unfolding insert_all
insert_all-append sender [] ys sent = refl
insert_all-append sender ((id, at) ∷ xs) ys sent = insert_all-append sender xs ys _

module _ {socket : Socket} (t : Transcript socket) where
  open t use {transcript, writes}

  write_each-transcript :
      (slices : List Bytes) (w w' : socket.Writer)
      → write_each socket slices w ≡ ok w'
      → transcript w' ≡ transcript w ++ concat slices
  unfolding write_each
  write_each-transcript [] w w' h =
      ap transcript (sym (ok-injective h)) ∙ sym (append-nil (transcript w))
  write_each-transcript (slice ∷ slices) w w' h =
      let (w1, first, later) = >>=-eq-ok (socket.write_all slice w) _ h in
      write_each-transcript slices w1 w' later
      ∙ ap (λ l. l ++ concat slices) (writes slice w w1 first)
      ∙ append_assoc (transcript w) slice (concat slices)

  -- A frame that is written in fragments is on the wire as a whole.
  pub write_fragmented-transcript :
      (sizes : List ℕ) (bytes : Bytes) (w w' : socket.Writer)
      → write_fragmented socket sizes bytes w ≡ ok w'
      → transcript w' ≡ transcript w ++ bytes
  write_fragmented-transcript [] bytes w w' h = unfold write_fragmented in writes bytes w w' h
  write_fragmented-transcript (first ∷ others) bytes w w' h =
      let (slices, cut, same) = write_fragmented-each first others bytes in
      write_each-transcript slices w w' (sym (same socket w) ∙ h)
      ∙ ap (λ l. transcript w ++ l) cut.together

  module _ (sender : Str) (start : SenderState socket) where
    pub and_then-OnWire :
        (events : List Emitted) (stage : Stage (SenderState socket))
        (k : SenderState socket → Stage (SenderState socket))
        → OnWire t sender start events stage
        → ((s : SenderState socket)
            → IsOnWire t sender start events s
            → OnWire t sender start events (k s))
        → OnWire t sender start events (stage and_then k)
    unfolding OnWire
    and_then-OnWire events (going s) k h step = step s h
    and_then-OnWire events (ended s) k h step = h
    and_then-OnWire events (stopped e s) k h step = h

    flushed-IsOnWire :
        (events : List Emitted) (s : SenderState socket) (w : socket.Writer)
        → transcript w ≡ transcript s.writer ++ s.batch.bytes
        → IsOnWire t sender start events s
        → IsOnWire t sender start events (flushed socket sender (record s { writer = w }))
    unfolding flushed
    flushed-IsOnWire events s w written h =
        let sent = h.on_record.delivered in
        let left = h.on_record.pending in
        record {
          on_record = record {
            delivered = sent ++ left;
            pending = [];
            split = h.on_record.split ∙ sym (append-nil (sent ++ left));
            recorded =
                ap (λ keys. insert_all sender keys s.ledger.sent) h.keyed
                ∙ ap (insert_all sender (map key left)) h.on_record.recorded
                ∙ sym (insert_all-append sender (map key sent) (map key left) start.ledger.sent)
                ∙ ap (λ keys. insert_all sender keys start.ledger.sent)
                    (sym (map-append key sent left));
            counted = omega (arith, h.on_record.counted, h.numbered, length-append sent left);
          };
          on_wire =
              written
              ∙ ap (λ l. l ++ s.batch.bytes) h.on_wire
              ∙ ap (λ l. (transcript start.writer ++ texts sent) ++ l) h.batched
              ∙ append_assoc (transcript start.writer) (texts sent) (texts left)
              ∙ ap (λ l. transcript start.writer ++ l) (sym (texts-append sent left));
          batched = refl;
          keyed = refl;
          numbered = refl;
        }

    failed-IsRecorded :
        (events : List Emitted) (s : SenderState socket) (e : AnyError)
        → IsRecorded t sender start events s
        → IsRecorded t sender start events
            (record s { counters = record_write_failure s.batch.events e s.counters })
    failed-IsRecorded events s e h = record {
      delivered = h.delivered;
      pending = h.pending;
      split = h.split;
      recorded = h.recorded;
      counted =
          ap (λ n. n % u64_mod) (record_write_failure-sent s.batch.events e s.counters) ∙ h.counted;
    }

    writer-IsOnWire :
        (events : List Emitted) (s : SenderState socket) (r : Result AnyError socket.Writer)
        → ((w : socket.Writer) → r ≡ ok w → transcript w ≡ transcript s.writer ++ s.batch.bytes)
        → IsOnWire t sender start events s
        → OnWire t sender start events
            (after_write socket s.batch.events s (flushed socket sender) r)
    unfolding after_write OnWire
    writer-IsOnWire events s (ok w) written h = flushed-IsOnWire events s w (written w refl) h
    writer-IsOnWire events s (err e) written h = failed-IsRecorded events s e h.on_record

    pub flush_batch-OnWire :
        (chunks : List ℕ) (events : List Emitted) (s : SenderState socket)
        → IsOnWire t sender start events s
        → OnWire t sender start events (flush_batch socket chunks sender s)
    unfolding flush_batch write_events OnWire
    flush_batch-OnWire chunks events s h = elim (Bool-cases (is_empty s.batch.bytes)) [
      | inl nothing ↦ rw nothing h
      | inr something ↦ rw something (
          writer-IsOnWire events s (write_fragmented socket chunks s.batch.bytes s.writer)
            (λ w. write_fragmented-transcript chunks s.batch.bytes s.writer w) h)
    ]

    pub dropped-IsOnWire :
        (events : List Emitted) (s : SenderState socket)
        → IsOnWire t sender start events s
        → IsOnWire t sender start events
            (record s { counters = record_local_drop s.batch.events s.counters })
    unfolding record_local_drop
    dropped-IsOnWire events s h = record {
      on_record = record {
        delivered = h.on_record.delivered;
        pending = h.on_record.pending;
        split = h.on_record.split;
        recorded = h.on_record.recorded;
        counted = h.on_record.counted;
      };
      on_wire = h.on_wire;
      batched = h.batched;
      keyed = h.keyed;
      numbered = h.numbered;
    }
