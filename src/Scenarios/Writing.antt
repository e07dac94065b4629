-- ===== src/Scenarios/Writing.antt =====
-- src/scenarios.rs: write_fragmented, over any writer that takes a slice or fails.
use tak_bench.Prelude.{
  ℕ, zero, suc, ◌≤◌, ◌≡◌, ◌≢◌, ◌++◌, length-take, refl, List, [], ◌∷◌, max, length, take, drop,
  take-append-drop, length-drop, Result, ok, ◌>>=◌, All, arith, subst, Result-cases, inl, inr,
}
use tak_bench.Prelude.Bytes.{Bytes}
use tak_bench.Protocol.Streams.{concat}
use tak_bench.Scenarios.Errors.{AnyError}

-- The connected writer with `connection::write_all` and its timeout; Wire.Failed makes one of a stream.
pub record Socket : Type 1 where
  pub Writer : Type 0
  pub write_all : Bytes → Writer → Result AnyError Writer

-- The next chunk size of `chunks.iter().copied().cycle()`, and those that follow it in this round
abbrev pub next_chunk : ℕ → List ℕ → List ℕ → ℕ × List ℕ
next_chunk first others [] = (first, others)
next_chunk first others (chunk ∷ left) = (chunk, left)

-- The list of sizes, time and again
abbrev pub repeated : ℕ → List ℕ → List ℕ
repeated zero sizes = []
repeated (suc n) sizes = sizes ++ repeated n sizes

-- Each slice is as long as its size says, or one byte where that is zero; the last one may be shorter.
abbrev pub Follows : List ℕ → List Bytes → Type 0
Follows sizes [] = Unit
Follows [] (slice ∷ rest) = ⊥
Follows (size ∷ sizes) (slice ∷ []) = length slice ≤ max size 1
Follows (size ∷ sizes) (slice ∷ next ∷ rest) =
    (length slice ≡ max size 1) × Follows sizes (next ∷ rest)

-- The slices are not empty, make up the bytes, and follow the sizes.
pub record IsCut (sizes : List ℕ) (bytes : Bytes) (slices : List Bytes) : Type 0 where
  pub together : concat slices ≡ bytes
  pub filled : All (λ slice. slice ≢ []) slices
  pub sized : Follows (repeated (length bytes) sizes) slices

pub slices_of : ℕ → ℕ → List ℕ → List ℕ → Bytes → List Bytes
slices_of fuel first others left [] = []
slices_of zero first others left (b ∷ bytes) = []
slices_of (suc fuel) first others left (b ∷ bytes) =
    let (chunk, later) = next_chunk first others left in
    let size = max chunk 1 in
    take size (b ∷ bytes) ∷ slices_of fuel first others later (drop size (b ∷ bytes))

module _ (socket : Socket) where
  open socket use {Writer, write_all}

  -- The loop, for sizes `first ∷ others` of which `left` are still to be used in this round. Each
  -- write takes a byte at least, so the number of bytes is fuel enough.
  unfoldable pub write_chunks : ℕ → ℕ → List ℕ → List ℕ → Bytes → Writer → Result AnyError Writer
  write_chunks fuel first others left [] w = ok w
  write_chunks zero first others left (b ∷ bytes) w = ok w
  write_chunks (suc fuel) first others left (b ∷ bytes) w =
      let (chunk, later) = next_chunk first others left in
      let size = max chunk 1 in
      write_all (take size (b ∷ bytes)) w >>= λ w'.
      write_chunks fuel first others later (drop size (b ∷ bytes)) w'

  unfoldable pub write_fragmented : List ℕ → Bytes → Writer → Result AnyError Writer
  write_fragmented [] bytes w = write_all bytes w
  write_fragmented (first ∷ others) bytes w =
      write_chunks (length bytes) first others (first ∷ others) bytes w

  -- Slices written one after the other, up to the first failure
  unfoldable pub write_each : List Bytes → Writer → Result AnyError Writer
  write_each [] w = ok w
  write_each (slice ∷ slices) w = write_all slice w >>= λ w'. write_each slices w'

  write_chunks-each :
      (fuel first : ℕ) (others left : List ℕ) (bytes : Bytes) (w : Writer)
      → length bytes ≤ fuel
      → write_chunks fuel first others left bytes w
        ≡ write_each (slices_of fuel first others left bytes) w
  unfolding write_chunks write_each slices_of
  write_chunks-each zero first others left [] w h = refl
  write_chunks-each (suc fuel) first others left [] w h = refl
  write_chunks-each zero first others left (b ∷ bytes) w h = absurd (omega arith)
  write_chunks-each (suc fuel) first others left (b ∷ bytes) w h =
      let chosen = next_chunk first others left in
      let size = max chosen.0 1 in
      let rest = drop size (b ∷ bytes) in
      elim (Result-cases (write_all (take size (b ∷ bytes)) w)) [
        | inl wrote ↦ rw wrote.1 (
            write_chunks-each fuel first others chosen.1 rest wrote.0
              (omega (arith, h, length-drop size (b ∷ bytes))))
        | inr failed ↦ rw failed.1 refl
      ]

slices_of-together :
    (fuel first : ℕ) (others left : List ℕ) (bytes : Bytes)
    → length bytes ≤ fuel
    → concat (slices_of fuel first others left bytes) ≡ bytes
unfolding slices_of
slices_of-together zero first others left [] h = refl
slices_of-together (suc fuel) first others left [] h = refl
slices_of-together zero first others left (b ∷ bytes) h = absurd (omega arith)
slices_of-together (suc fuel) first others left (b ∷ bytes) h =
    let chosen = next_chunk first others left in
    let size = max chosen.0 1 in
    rw
      (slices_of-together fuel first others chosen.1 (drop size (b ∷ bytes))
        (omega (arith, h, length-drop size (b ∷ bytes))))
      (take-append-drop size (b ∷ bytes))

take-filled : (n : ℕ) (b : ℕ) (bytes : Bytes) → 1 ≤ n → take n (b ∷ bytes) ≢ []
take-filled zero b bytes h = absurd (omega arith)
take-filled (suc n) b bytes h = λ e. cc

slices_of-filled :
    (fuel first : ℕ) (others left : List ℕ) (bytes : Bytes)
    → All (λ slice. slice ≢ []) (slices_of fuel first others left bytes)
unfolding slices_of
slices_of-filled zero first others left [] = tt
slices_of-filled (suc fuel) first others left [] = tt
slices_of-filled zero first others left (b ∷ bytes) = tt
slices_of-filled (suc fuel) first others left (b ∷ bytes) =
    let chosen = next_chunk first others left in
    (
      take-filled (max chosen.0 1) b bytes (omega arith),
      slices_of-filled fuel first others chosen.1 (drop (max chosen.0 1) (b ∷ bytes)),
    )

Follows-cons :
    (size : ℕ) (sizes : List ℕ) (slice : Bytes) (rest : List Bytes)
    → length slice ≤ max size 1
    → (rest ≢ [] → length slice ≡ max size 1)
    → Follows sizes rest
    → Follows (size ∷ sizes) (slice ∷ rest)
Follows-cons size sizes slice [] short whole later = short
Follows-cons size sizes slice (next ∷ rest) short whole later = (whole (λ e. cc), later)

slices_of-nonempty :
    (fuel first : ℕ) (others left : List ℕ) (bytes : Bytes)
    → slices_of fuel first others left bytes ≢ []
    → 1 ≤ length bytes
unfolding slices_of
slices_of-nonempty fuel first others left [] h = absurd (h refl)
slices_of-nonempty fuel first others left (b ∷ bytes) h = omega arith

cut_off :
    (fuel size first : ℕ) (others left sizes : List ℕ) (b : ℕ) (bytes : Bytes)
    → Follows sizes (slices_of fuel first others left (drop (max size 1) (b ∷ bytes)))
    → Follows (size ∷ sizes) (
        take (max size 1) (b ∷ bytes)
        ∷ slices_of fuel first others left (drop (max size 1) (b ∷ bytes)))
cut_off fuel size first others left sizes b bytes later =
    let taken = length-take (max size 1) (b ∷ bytes) in
    let dropped = length-drop (max size 1) (b ∷ bytes) in
    Follows-cons size sizes (take (max size 1) (b ∷ bytes)) _ (omega (arith, taken))
      (λ (more : slices_of fuel first others left (drop (max size 1) (b ∷ bytes)) ≢ []). omega (
        arith,
        taken,
        dropped,
        slices_of-nonempty fuel first others left (drop (max size 1) (b ∷ bytes)) more,
      ))
      later

slices_of-Follows :
    (fuel n first : ℕ) (others left : List ℕ) (bytes : Bytes)
    → length bytes ≤ fuel
    → fuel ≤ n
    → Follows (left ++ repeated n (first ∷ others)) (slices_of fuel first others left bytes)
unfolding slices_of
slices_of-Follows fuel n first others left [] h le = tt
slices_of-Follows zero n first others left (b ∷ bytes) h le = absurd (omega arith)
slices_of-Follows (suc fuel) zero first others left (b ∷ bytes) h le = absurd (omega arith)
slices_of-Follows (suc fuel) (suc n) first others [] (b ∷ bytes) h le =
    cut_off fuel first first others others (others ++ repeated n (first ∷ others)) b bytes (
      slices_of-Follows fuel n first others others (drop (max first 1) (b ∷ bytes))
        (omega (arith, h, length-drop (max first 1) (b ∷ bytes))) (omega (arith, le)))
slices_of-Follows (suc fuel) (suc n) first others (size ∷ left) (b ∷ bytes) h le =
    cut_off fuel size first others left (left ++ repeated (suc n) (first ∷ others)) b bytes (
      slices_of-Follows fuel (suc n) first others left (drop (max size 1) (b ∷ bytes))
        (omega (arith, h, length-drop (max size 1) (b ∷ bytes))) (omega (arith, le)))

-- The first round
slices_of-start :
    (fuel first : ℕ) (others : List ℕ) (bytes : Bytes)
    → slices_of fuel first others [] bytes ≡ slices_of fuel first others (first ∷ others) bytes
unfolding slices_of
slices_of-start fuel first others [] = refl
slices_of-start zero first others (b ∷ bytes) = refl
slices_of-start (suc fuel) first others (b ∷ bytes) = refl

-- Where the list of sizes is not empty, a frame is cut into non-empty slices that make it up and follow
-- the sizes in turn, over and over, a size of zero as one and the last slice as short as need be; and
-- whatever the socket does, writing the frame in fragments is writing these slices one after the other,
-- up to the first failed write.
pub write_fragmented-each :
    (first : ℕ) (others : List ℕ) (bytes : Bytes)
    → (slices : List Bytes) × IsCut (first ∷ others) bytes slices
      × ((socket : Socket) (w : socket.Writer)
          → write_fragmented socket (first ∷ others) bytes w ≡ write_each socket slices w)
unfolding write_fragmented
write_fragmented-each first others bytes =
    let fuel = length bytes in
    (
      slices_of fuel first others (first ∷ others) bytes,
      record {
        together = slices_of-together fuel first others (first ∷ others) bytes (omega arith);
        filled = slices_of-filled fuel first others (first ∷ others) bytes;
        sized =
            subst (Follows (repeated fuel (first ∷ others)))
              (slices_of-start fuel first others bytes)
              (slices_of-Follows fuel fuel first others [] bytes (omega arith) (omega arith));
      },
      λ socket w. write_chunks-each socket fuel first others (first ∷ others) bytes w (omega arith),
    )
