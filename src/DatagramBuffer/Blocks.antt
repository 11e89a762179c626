-- ===== src/DatagramBuffer/Blocks.antt =====
-- A datagram buffer is the queue of the datagrams that it holds.
use harmony_os_reverse_tethe.Prelude.{
  ℕ, ◌+◌, ◌/◌, ◌%◌, ◌^◌, ◌≤◌, ◌<◌, ◌≡◌, ◌⊎◌, refl, List, [], ◌∷◌, ◌++◌, length, slice, copy_at,
  arith, length-replicate, ◌∙◌,
}
use harmony_os_reverse_tethe.Prelude.Slices.{slice-copy_at_apart}
use harmony_os_reverse_tethe.DatagramBuffer.{DatagramBuffer, new}

pub record IsValid (b : DatagramBuffer) : Type 0 where
  pub head_in : b.head < b.circular_buffer_length
  pub tail_in : b.tail < b.circular_buffer_length
  -- the space behind the circular part, for the last datagram in one block
  pub room : length b.buf ≡ b.circular_buffer_length + 2 ^ 16 + 1

pub new-IsValid : (capacity : ℕ) → IsValid (new capacity)
unfolding new
new-IsValid capacity = omega (arith, length-replicate {0} {A = ℕ} (capacity + (2 + 2 ^ 16)) 0)

-- A datagram's block at `t`: its length, and its bytes.
abbrev pub BlockAt : List ℕ → ℕ → List ℕ → Type 0
BlockAt buf t d =
    (slice t (t + 2) buf ≡ length d / 2 ^ 8 ∷ length d % 2 ^ 8 ∷ [])
    × (slice (t + 2) (t + 2 + length d) buf ≡ d)
    × (length d < 2 ^ 16)

-- The blocks of the datagrams stand one behind the other from `t` to `e`, and each starts in the
-- circular part.
abbrev pub Chain : List ℕ → ℕ → ℕ → ℕ → List (List ℕ) → Type 0
Chain buf circ t e [] = t ≡ e
Chain buf circ t e (d ∷ ds) = (t < circ) × BlockAt buf t d × Chain buf circ (t + 2 + length d) e ds

-- The datagrams that a buffer holds, oldest first: in one run, or in two with the wrap between.
pub data Holds (b : DatagramBuffer) (ds : List (List ℕ)) : Type 0 where
  straight : b.tail ≤ b.head → Chain b.buf b.circular_buffer_length b.tail b.head ds → Holds b ds
  wrapped :
      (front back : List (List ℕ)) (e : ℕ)
      → ds ≡ front ++ back
      → b.head < b.tail
      → b.circular_buffer_length ≤ e
      → e ≤ length b.buf
      → Chain b.buf b.circular_buffer_length b.tail e front
      → Chain b.buf b.circular_buffer_length 0 b.head back
      → Holds b ds

pub new-Holds : (capacity : ℕ) → Holds (new capacity) []
unfolding new
new-Holds capacity = straight (omega arith) refl

pub Chain-le : (buf : List ℕ) (circ t e : ℕ) (ds : List (List ℕ)) → Chain buf circ t e ds → t ≤ e
Chain-le buf circ t e [] c = omega arith
Chain-le buf circ t e (d ∷ ds) c = omega (arith, Chain-le buf circ (t + 2 + length d) e ds c.2)

-- A copy into the buffer apart from the chain leaves it.
module _ (circ h : ℕ) (src buf : List ℕ) (fits : h + length src ≤ length buf) where
  pub Chain-copy_at :
      (t e : ℕ) (ds : List (List ℕ))
      → (e ≤ h) ⊎ (h + length src ≤ t)
      → Chain buf circ t e ds
      → Chain (copy_at h src buf) circ t e ds
  Chain-copy_at t e [] apart c = c
  Chain-copy_at t e (d ∷ ds) apart (start, (header, body, small), rest) = (
    start,
    (
      slice-copy_at_apart t (t + 2) h src buf fits
            (omega (arith, Chain-le buf circ (t + 2 + length d) e ds rest))
          ∙ header,
      slice-copy_at_apart (t + 2) (t + 2 + length d) h src buf fits
            (omega (arith, Chain-le buf circ (t + 2 + length d) e ds rest))
          ∙ body,
      small,
    ),
    Chain-copy_at (t + 2 + length d) e ds (omega arith) rest,
  )

pub Chain-append :
    (buf : List ℕ) (circ t m e : ℕ) (ds es : List (List ℕ))
    → Chain buf circ t m ds
    → Chain buf circ m e es
    → Chain buf circ t e (ds ++ es)
Chain-append buf circ t m e [] es p q = rw p q
Chain-append buf circ t m e (d ∷ ds) es (start, block, rest) q =
    (start, block, Chain-append buf circ (t + 2 + length d) m e ds es rest q)
