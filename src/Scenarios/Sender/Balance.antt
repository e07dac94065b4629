-- ===== src/Scenarios/Sender/Balance.antt =====
-- src/scenarios.rs: the sender's counts at a stage of its loop, and what a flush does to them.
use tak_bench.Prelude.{
  ℕ, ◌+◌, ◌%◌, ◌≡◌, List, inl, inr, Bool-cases, arith, is_empty, subst, Result, ok, err,
}
use tak_bench.Prelude.Bytes.{Str}
use tak_bench.Prelude.Time.{u64_mod}
use tak_bench.Metrics.{Counters, fetch_add}
use tak_bench.Scenarios.Errors.{AnyError}
use tak_bench.Scenarios.Writing.{Socket, write_fragmented}
use tak_bench.Scenarios.Batch.{
  Stage, going, ended, stopped, ◌and_then◌, SenderState, write_events, flush_batch, flushed,
  after_write, record_write_failure,
}

pub add-mod :
    (a b c t : ℕ)
    → (a + b + c) % u64_mod ≡ t % u64_mod
    → ((a + c) % u64_mod + b) % u64_mod ≡ t % u64_mod
add-mod a b c t h = omega (arith, h)

pub add-mod-right :
    (a b c t : ℕ)
    → (a + b + c) % u64_mod ≡ t % u64_mod
    → (a + (b + c) % u64_mod) % u64_mod ≡ t % u64_mod
add-mod-right a b c t h = omega (arith, h)

pub add-mod-one :
    (a c t : ℕ)
    → (a + c) % u64_mod ≡ t % u64_mod
    → (a + (c + 1) % u64_mod) % u64_mod ≡ (t + 1) % u64_mod
add-mod-one a c t h = omega (arith, h)

-- The counts at a stage of the loop, for `total` events generated so far: while it goes on, an event
-- is sent, dropped or in the batch; afterwards it is sent or dropped.
unfoldable pub IsBalanced : {socket : Socket} → ℕ → Stage (SenderState socket) → Type 0
IsBalanced total (going s) =
    (s.counters.sent_messages + s.counters.dropped_messages + s.batch.events) % u64_mod
    ≡ total % u64_mod
IsBalanced total (ended s) =
    (s.counters.sent_messages + s.counters.dropped_messages) % u64_mod ≡ total % u64_mod
IsBalanced total (stopped e s) =
    (s.counters.sent_messages + s.counters.dropped_messages) % u64_mod ≡ total % u64_mod

pub record_write_failure-sent :
    (events : ℕ) (e : AnyError) (c : Counters)
    → (record_write_failure events e c).sent_messages ≡ c.sent_messages
unfolding record_write_failure
record_write_failure-sent events e c = ground arith

record_write_failure-dropped :
    (events : ℕ) (e : AnyError) (c : Counters)
    → (record_write_failure events e c).dropped_messages ≡ fetch_add c.dropped_messages events
unfolding record_write_failure
record_write_failure-dropped events e c = ground arith

module _ {socket : Socket} where
  pub balanced_going :
      (total : ℕ) (s : SenderState socket)
      → IsBalanced total (going s)
      → (s.counters.sent_messages + s.counters.dropped_messages + s.batch.events) % u64_mod
        ≡ total % u64_mod
  unfolding IsBalanced
  balanced_going total s h = h

  pub IsBalanced-writer :
      (total : ℕ) (s : SenderState socket) (w : socket.Writer)
      → IsBalanced total (going s)
      → IsBalanced {socket = socket} total (going (record s { writer = w }))
  unfolding IsBalanced
  IsBalanced-writer total s w h = h

  pub same_total :
      {total more : ℕ} (stage : Stage (SenderState socket))
      → total ≡ more
      → IsBalanced total stage
      → IsBalanced more stage
  same_total stage e h = subst (λ n. IsBalanced n stage) e h

  pub and_then-IsBalanced :
      (total : ℕ) (stage : Stage (SenderState socket))
      (k : SenderState socket → Stage (SenderState socket))
      → IsBalanced total stage
      → ((s : SenderState socket) → IsBalanced total (going s) → IsBalanced total (k s))
      → IsBalanced total (stage and_then k)
  unfolding IsBalanced
  and_then-IsBalanced total (going s) k h step = step s h
  and_then-IsBalanced total (ended s) k h step = h
  and_then-IsBalanced total (stopped e s) k h step = h

  pub start-IsBalanced :
      (s : SenderState socket)
      → s.batch.events ≡ 0
      → IsBalanced (s.counters.sent_messages + s.counters.dropped_messages) (going s)
  unfolding IsBalanced
  start-IsBalanced s h = omega (arith, h)

  pub after_write-IsBalanced :
      (total events : ℕ) (s : SenderState socket) (sent : SenderState socket → SenderState socket)
      (r : Result AnyError socket.Writer)
      → ((w : socket.Writer) → IsBalanced total (going (sent (record s { writer = w }))))
      → (s.counters.sent_messages + s.counters.dropped_messages + events) % u64_mod
        ≡ total % u64_mod
      → IsBalanced total (after_write socket events s sent r)
  unfolding after_write IsBalanced
  after_write-IsBalanced total events s sent (ok w) hok herr = hok w
  after_write-IsBalanced total events s sent (err e) hok herr =
      let c = s.counters in
      rw (record_write_failure-sent events e c) (
        rw (record_write_failure-dropped events e c)
          (add-mod-right c.sent_messages c.dropped_messages events total herr))

  pub flushed-IsBalanced :
      (total : ℕ) (sender : Str) (s : SenderState socket)
      → IsBalanced total (going s)
      → IsBalanced total (going (flushed socket sender s))
  unfolding flushed IsBalanced
  flushed-IsBalanced total sender s h = omega (arith, h)

  pub flush_batch-IsBalanced :
      (total : ℕ) (chunks : List ℕ) (sender : Str) (s : SenderState socket)
      → IsBalanced total (going s)
      → IsBalanced total (flush_batch socket chunks sender s)
  unfolding flush_batch write_events
  flush_batch-IsBalanced total chunks sender s h = elim (Bool-cases (is_empty s.batch.bytes)) [
    | inl nothing ↦ rw nothing h
    | inr something ↦ rw something (
        after_write-IsBalanced total s.batch.events s (flushed socket sender)
          (write_fragmented socket chunks s.batch.bytes s.writer)
          (λ w.
            flushed-IsBalanced total sender (record s { writer = w })
              (IsBalanced-writer total s w h))
          (balanced_going total s h))
  ]
