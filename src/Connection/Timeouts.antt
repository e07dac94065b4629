-- ===== src/Connection/Timeouts.antt =====
-- src/connection.rs: the errors of write_all tell a timeout from a failure.
use tak_bench.Prelude.{
  Option, none, some, is_some, not, subst, sym, refl, ap, ◌≡◌, ◌∙◌, ok, err, any, err-injective,
  Result, Bool, false,
}
use tak_bench.Prelude.Bytes.{Bytes, Str, bytes}
use tak_bench.Prelude.Time.{Duration}
use tak_bench.Connection.Stream.{
  Awaited, after, never, Stream, context, later, then_await, map_awaited, or_timed_out, ReturnsEnd,
  is_late, send, write_all,
}
use tak_bench.Scenarios.Errors.{AnyError, is_elapsed}

-- A failure that does not say that time has run out
abbrev IsUntimed : {A : Type 0} → Awaited (Result AnyError A) → Type 0
IsUntimed never = Unit
IsUntimed (after time (ok a)) = Unit
IsUntimed (after time (err e)) = any is_elapsed e ≡ false

later-IsUntimed :
    {A : Type 0} (time : Duration) (awaited : Awaited (Result AnyError A))
    → IsUntimed awaited
    → IsUntimed (later time awaited)
later-IsUntimed time never h = tt
later-IsUntimed time (after more (ok a)) h = tt
later-IsUntimed time (after more (err e)) h = h

context-IsUntimed :
    {A : Type 0} (text : Str) (awaited : Awaited (Result Bool A))
    → IsUntimed (map_awaited (context text) awaited)
context-IsUntimed text never = tt
context-IsUntimed text (after time (ok a)) = tt
context-IsUntimed text (after time (err invalid_data)) = refl

then_await-IsUntimed :
    {A B : Type 0} (text : Str) (awaited : Awaited (Result Bool A))
    (k : A → Awaited (Result AnyError B))
    → ((a : A) → IsUntimed (k a))
    → IsUntimed (then_await text awaited k)
then_await-IsUntimed text never k h = tt
then_await-IsUntimed text (after time (ok a)) k h = later-IsUntimed time (k a) (h a)
then_await-IsUntimed text (after time (err invalid_data)) k h = refl

-- What an untimed future has come to, or that time was up
end-is_elapsed :
    {A : Type 0} (end : Option (Result AnyError A)) (e : AnyError)
    → ((r : Result AnyError A) → end ≡ some r → (time : Duration) × IsUntimed (after time r))
    → or_timed_out end ≡ err e
    → any is_elapsed e ≡ not (is_some end)
end-is_elapsed none e untimed h = ap (any is_elapsed) (sym (err-injective h))
end-is_elapsed (some (ok a)) e untimed h = cc
end-is_elapsed (some (err failure)) e untimed h =
    ap (any is_elapsed) (sym (err-injective h)) ∙ (untimed (err failure) refl).1

module _ (stream : Stream) (returns : ReturnsEnd stream) (limit : Duration) where
  send-IsUntimed : (slice : Bytes) (w : stream.Writer) → IsUntimed (send stream slice w)
  unfolding send
  send-IsUntimed slice w =
      then_await-IsUntimed (bytes "writing CoT event") (stream.write slice w) _
        (λ w'. context-IsUntimed (bytes "flushing CoT event") (stream.flush w'))

  -- The error of a write says that time has run out exactly where it has.
  pub write_all-is_elapsed :
      (slice : Bytes) (w : stream.Writer) (e : AnyError)
      → write_all stream limit slice w ≡ err e
      → any is_elapsed e ≡ is_late stream limit slice w
  unfolding write_all
  write_all-is_elapsed slice w e h =
      end-is_elapsed (stream.timeout limit (send stream slice w)) e
        (λ r back.
          let (time, same) =
            returns (Result AnyError stream.Writer) limit (send stream slice w) r back in
          (time, subst IsUntimed same (send-IsUntimed slice w)))
        h
