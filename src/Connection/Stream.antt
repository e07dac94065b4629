-- ===== src/Connection/Stream.antt =====
-- src/connection.rs: send and write_all on an open connection. What the operating system answers to
-- a write and to a flush, and after which time, is a parameter.
use tak_bench.Prelude.{◌+◌, ◌≡◌, Bool, not, Option, none, some, is_some, [], ◌∷◌, Result, ok, err}
use tak_bench.Prelude.Bytes.{Bytes, Str, bytes}
use tak_bench.Prelude.Time.{Duration}
use tak_bench.Scenarios.Errors.{AnyError, io_cause, message_cause, elapsed_cause}

-- What a future comes to: its value after some time, or nothing
pub data Awaited (A : Type 0) : Type 0 where
  after : Duration → A → Awaited A
  never : Awaited A

-- A stream that is written to. A failure says whether its kind is `InvalidData`.
pub record Stream : Type 1 where
  pub Writer : Type 0
  pub write : Bytes → Writer → Awaited (Result Bool Writer)
  pub flush : Writer → Awaited (Result Bool Writer)
  -- `tokio::time::timeout`, `none` where the time is up first
  pub timeout : {A : Type 0} → Duration → Awaited A → Option A

abbrev pub context : {A : Type 0} → Str → Result Bool A → Result AnyError A
context text (ok a) = ok a
context text (err invalid_data) = err (message_cause text ∷ io_cause invalid_data ∷ [])

abbrev pub later : {A : Type 0} → Duration → Awaited A → Awaited A
later time (after more a) = after (time + more) a
later time never = never

-- The documentation of `timeout`: what it returns is what the future has come to.
abbrev pub ReturnsEnd : Stream → Type 1
ReturnsEnd stream =
    (A : Type 0) (limit : Duration) (future : Awaited A) (a : A)
    → stream.timeout limit future ≡ some a
    → (time : Duration) × (future ≡ after time a)

-- `.await.context(..)?`, and what follows
abbrev pub then_await :
    {A B : Type 0}
    → Str
    → Awaited (Result Bool A)
    → (A → Awaited (Result AnyError B))
    → Awaited (Result AnyError B)
then_await text never k = never
then_await text (after time (ok a)) k = later time (k a)
then_await text (after time (err invalid_data)) k =
    after time (err (message_cause text ∷ io_cause invalid_data ∷ []))

abbrev pub map_awaited : {A B : Type 0} → (A → B) → Awaited A → Awaited B
map_awaited f never = never
map_awaited f (after time a) = after time (f a)

abbrev pub timed_out : AnyError
timed_out = message_cause (bytes "write timed out") ∷ elapsed_cause ∷ []

-- `.await.context("write timed out")?`
abbrev pub or_timed_out : {A : Type 0} → Option (Result AnyError A) → Result AnyError A
or_timed_out none = err timed_out
or_timed_out (some r) = r

module _ (stream : Stream) where
  open stream use {Writer, write, flush, timeout}

  unfoldable pub send : Bytes → Writer → Awaited (Result AnyError Writer)
  send slice w =
      then_await (bytes "writing CoT event") (write slice w)
        λ w'. map_awaited (context (bytes "flushing CoT event")) (flush w')

  unfoldable pub write_all : Duration → Bytes → Writer → Result AnyError Writer
  write_all limit slice w = or_timed_out (timeout limit (send slice w))

  -- Whether the time is up first
  abbrev pub is_late : Duration → Bytes → Writer → Bool
  is_late limit slice w = not (is_some (timeout limit (send slice w)))
