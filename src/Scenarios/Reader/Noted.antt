-- ===== src/Scenarios/Reader/Noted.antt =====
-- src/scenarios.rs: what a reader has counted and put into the ledger.
use tak_bench.Prelude.{
  ℕ, ◌+◌, ◌%◌, ◌≡◌, ◌≢◌, refl, ◌∙◌, ap, Option, none, some, List, [], ◌∷◌, ◌++◌, if◌then◌else◌,
  is_some, length, length-append, arith, inl, inr, Bool-cases,
}
use tak_bench.Prelude.Bytes.{Str, str_eq_iff}
use tak_bench.Prelude.Time.{u64_mod}
use tak_bench.Metrics.{Histograms, record_delivery}
use tak_bench.Protocol.Event.{Formats, ReceivedEvent}
use tak_bench.Scenarios.Ledger.{
  Uuid, Instant, Sent, Seen, lookup_sent, lookup_seen, insert_seen, lookup_seen-insert_seen,
}
use tak_bench.Scenarios.Reader.{ReaderState, count, deliver, note_correlation}

length-insert_seen :
    (s : Seen) (m : List Seen)
    → length (insert_seen s m) + (if is_some (lookup_seen s.receiver s.id m) then 1 else 0)
      ≡ length m + 1
unfolding insert_seen lookup_seen
length-insert_seen s [] = refl
length-insert_seen s (t ∷ rest) = ground (arith, length-insert_seen s rest)

module _ (h : Histograms) (fmt : Formats) where
  -- How many events carry a correlation identifier
  unfoldable pub correlated : List (ReceivedEvent fmt) → ℕ
  correlated [] = 0
  correlated (event ∷ rest) = (if is_some event.correlation_id then 1 else 0) + correlated rest

  correlated-append :
      (first second : List (ReceivedEvent fmt))
      → correlated (first ++ second) ≡ correlated first + correlated second
  unfolding correlated
  correlated-append [] second = omega arith
  correlated-append (event ∷ first) second = omega (arith, correlated-append first second)

  -- Between two states of a participant's reader, for the events that were noted
  pub record IsNoted (participant : Str) (events : List (ReceivedEvent fmt)) (s s' : ReaderState h)
      : Type 0 where
    pub all_received :
        s'.metrics.counters.received_messages % u64_mod
        ≡ (s.metrics.counters.received_messages + length events) % u64_mod
    pub told_apart :
        (s'.metrics.counters.duplicate_messages + length s'.ledger.seen) % u64_mod
        ≡ (s.metrics.counters.duplicate_messages + length s.ledger.seen + correlated events)
          % u64_mod
    pub sent_kept : s'.ledger.sent ≡ s.ledger.sent
    pub others_kept :
        (receiver : Str) (id : Uuid)
        → participant ≢ receiver
        → lookup_seen receiver id s'.ledger.seen ≡ lookup_seen receiver id s.ledger.seen

  module _ (participant : Str) where
    pub IsNoted-same :
        (s s' : ReaderState h)
        → s'.metrics.counters.received_messages ≡ s.metrics.counters.received_messages
        → s'.metrics.counters.duplicate_messages ≡ s.metrics.counters.duplicate_messages
        → s'.ledger ≡ s.ledger
        → IsNoted participant [] s s'
    unfolding correlated
    IsNoted-same s s' arrived duplicates ledger = record {
      all_received = omega (arith, arrived);
      told_apart = omega (arith, duplicates, ap (λ l. length l.seen) ledger);
      sent_kept = ap (λ l. l.sent) ledger;
      others_kept = λ receiver id other. ap (λ l. lookup_seen receiver id l.seen) ledger;
    }

    pub IsNoted-trans :
        (first second : List (ReceivedEvent fmt)) (s s' s'' : ReaderState h)
        → IsNoted participant first s s'
        → IsNoted participant second s' s''
        → IsNoted participant (first ++ second) s s''
    IsNoted-trans first second s s' s'' one other = record {
      all_received =
          omega (arith, one.all_received, other.all_received, length-append first second);
      told_apart = omega (arith, one.told_apart, other.told_apart, correlated-append first second);
      sent_kept = other.sent_kept ∙ one.sent_kept;
      others_kept = λ receiver id foreign.
          other.others_kept receiver id foreign ∙ one.others_kept receiver id foreign;
    }

    other_key :
        (entry : Seen) (receiver : Str) (id : Uuid) (m : List Seen)
        → entry.receiver ≢ receiver
        → lookup_seen receiver id (insert_seen entry m) ≡ lookup_seen receiver id m
    other_key entry receiver id m other =
        lookup_seen-insert_seen entry receiver id m
        ∙ ground (arith, str_eq_iff entry.receiver receiver, other)

    deliver-counters :
        (o : Option Sent) (now : Instant) (s : ReaderState h)
        → (deliver h o now s).metrics.counters ≡ s.metrics.counters
    unfolding deliver record_delivery
    deliver-counters none now s = refl
    deliver-counters (some sent) now s = refl

    deliver-ledger :
        (o : Option Sent) (now : Instant) (s : ReaderState h)
        → (deliver h o now s).ledger ≡ s.ledger
    unfolding deliver
    deliver-ledger none now s = refl
    deliver-ledger (some sent) now s = refl

    -- One more entry, or one more duplicate
    pub record IsOneMore (s s' : ReaderState h) : Type 0 where
      pub received_same :
          s'.metrics.counters.received_messages ≡ s.metrics.counters.received_messages
      pub one_more :
          (s'.metrics.counters.duplicate_messages + length s'.ledger.seen) % u64_mod
          ≡ (s.metrics.counters.duplicate_messages + length s.ledger.seen + 1) % u64_mod
      pub sent_same : s'.ledger.sent ≡ s.ledger.sent
      pub others_same :
          (receiver : Str) (id : Uuid)
          → participant ≢ receiver
          → lookup_seen receiver id s'.ledger.seen ≡ lookup_seen receiver id s.ledger.seen

    pub note_correlation-IsOneMore :
        (id : Uuid) (now : Instant) (s : ReaderState h)
        → IsOneMore s (note_correlation h participant id now s)
    unfolding note_correlation count
    note_correlation-IsOneMore id now s =
        let entry : Seen = record { receiver = participant; id = id; at = now } in
        let grown = length-insert_seen entry s.ledger.seen in
        elim (Bool-cases (is_some (lookup_seen participant id s.ledger.seen))) [
          | inl again ↦ rw again (record {
            received_same = refl;
            one_more = omega (arith, rw again at grown);
            sent_same = refl;
            others_same =
                λ receiver other_id other. other_key entry receiver other_id s.ledger.seen other;
          })
          | inr first ↦ rw first (
              let noted : ReaderState h = record s {
                ledger = record s.ledger { seen = insert_seen entry s.ledger.seen };
              } in
              let counters = deliver-counters (lookup_sent id s.ledger.sent) now noted in
              let ledger = deliver-ledger (lookup_sent id s.ledger.sent) now noted in
              record {
                received_same = ap (λ c. c.received_messages) counters;
                one_more = omega (
                  arith,
                  rw first at grown,
                  ap (λ c. c.duplicate_messages) counters,
                  ap (λ l. length l.seen) ledger,
                );
                sent_same = ap (λ l. l.sent) ledger;
                others_same = λ receiver other_id other.
                    ap (λ l. lookup_seen receiver other_id l.seen) ledger
                    ∙ other_key entry receiver other_id s.ledger.seen other;
              })
        ]
