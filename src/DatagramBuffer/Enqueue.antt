-- ===== src/DatagramBuffer/Enqueue.antt =====
-- `read_from` of the datagram buffer: a datagram joins the queue.
use harmony_os_reverse_tethe.Prelude.{
  ℕ, ◌+◌, ◌/◌, ◌%◌, ◌^◌, ◌≤◌, ◌<◌, ◌≡◌, ◌⊎◌, inl, inr, refl, List, [], ◌∷◌, ◌++◌, length, copy_at,
  ok, err, true, false, arith, ltb, length-copy_at, sym, ◌∙◌, Bool-cases,
}
use mathlib.Core.List.{append-nil, append_assoc}
use native.Mathlib.Nat.{mod-eq_of_lt}
use harmony_os_reverse_tethe.Prelude.Slices.{slice-copy_at_self, slice-copy_at_apart}
use harmony_os_reverse_tethe.ByteOrder.{ByteOrder}
use harmony_os_reverse_tethe.DatagramBuffer.{
  DatagramBuffer, full, is_empty, wrap, has_enough_space_for, read_from, write_length, put,
}
use harmony_os_reverse_tethe.DatagramBuffer.Blocks.{
  IsValid, BlockAt, Chain, Holds, straight, wrapped, Chain-copy_at, Chain-append,
}

-- The block that is written for a datagram, at the head.
abbrev header : List ℕ → List ℕ
header src = length src / 2 ^ 8 ∷ length src % 2 ^ 8 ∷ []

abbrev block_written : DatagramBuffer → List ℕ → List ℕ
block_written b src = copy_at (b.head + 2) src (copy_at b.head (header src) b.buf)

abbrev grown : DatagramBuffer → List ℕ → DatagramBuffer
grown b src = record b { buf = block_written b src; head = wrap b (b.head + 2 + length src) }

module _ (b : DatagramBuffer) (src : List ℕ) (v : IsValid b) (small : length src < 2 ^ 16) where
  read_from-grown :
      {E : Type 0} ⦃order : ByteOrder⦄
      → has_enough_space_for b (length src) ≡ true
      → read_from {E = E} b src ≡ ok (grown b src)
  unfolding read_from write_length put
  read_from-grown ⦃order⦄ h =
      rw (h, mod-eq_of_lt small, order.write_u16_lem (length src) small)
        (ground (arith, length-copy_at b.head (header src) b.buf))

  length-block_written : length (block_written b src) ≡ length b.buf
  length-block_written = omega (
    arith,
    length-copy_at b.head (header src) b.buf,
    length-copy_at (b.head + 2) src (copy_at b.head (header src) b.buf),
  )

  -- The two copies are apart.
  header_fits : b.head + length (header src) ≤ length b.buf
  header_fits = omega arith

  body_fits : b.head + 2 + length src ≤ length (copy_at b.head (header src) b.buf)
  body_fits = omega (arith, length-copy_at b.head (header src) b.buf)

  BlockAt-written : BlockAt (block_written b src) b.head src
  BlockAt-written = (
    slice-copy_at_apart b.head (b.head + 2) (b.head + 2) src (copy_at b.head (header src) b.buf)
          body_fits (omega arith)
        ∙ slice-copy_at_self b.head (header src) b.buf header_fits,
    slice-copy_at_self (b.head + 2) src (copy_at b.head (header src) b.buf) body_fits,
    small,
  )

  Chain-written :
      (t e : ℕ) (ds : List (List ℕ))
      → (e ≤ b.head) ⊎ (b.head + 2 + length src ≤ t)
      → Chain b.buf b.circular_buffer_length t e ds
      → Chain (block_written b src) b.circular_buffer_length t e ds
  Chain-written t e ds apart c =
      Chain-copy_at b.circular_buffer_length (b.head + 2) src (copy_at b.head (header src) b.buf)
        body_fits t e ds (omega arith)
        (Chain-copy_at b.circular_buffer_length b.head (header src) b.buf header_fits t e ds
          (omega arith) c)

  grown-IsValid : IsValid (grown b src)
  unfolding wrap
  grown-IsValid = ground (arith, length-block_written)

  -- The chain that ends at the head goes on to the end of the new block.
  Chain-grown :
      (t : ℕ) (ds : List (List ℕ))
      → Chain b.buf b.circular_buffer_length t b.head ds
      → Chain
          (block_written b src)
          b.circular_buffer_length
          t
          (b.head + 2 + length src)
          (ds ++ src ∷ [])
  Chain-grown t ds c =
      Chain-append (block_written b src) b.circular_buffer_length t b.head (b.head + 2 + length src)
        ds (src ∷ []) (Chain-written t b.head ds (omega arith) c) (v.head_in, BlockAt-written, refl)

  wrap_inside : (i : ℕ) → i < b.circular_buffer_length → wrap b i ≡ i
  unfolding wrap
  wrap_inside i h = ground arith

  wrap_past : (i : ℕ) → b.circular_buffer_length ≤ i → wrap b i ≡ 0
  unfolding wrap
  wrap_past i h = ground arith

  Holds-grown :
      (ds : List (List ℕ))
      → has_enough_space_for b (length src) ≡ true
      → (b.tail ≡ 0 → b.head + 2 + length src < b.circular_buffer_length)
      → Holds b ds
      → Holds (grown b src) (ds ++ src ∷ [])
  unfolding has_enough_space_for
  Holds-grown ds space keep (straight le c) =
      elim (Bool-cases (ltb (b.head + 2 + length src) b.circular_buffer_length)) [
        | inl inside ↦
            straight (ground (arith, wrap_inside (b.head + 2 + length src)))
              (rw (wrap_inside (b.head + 2 + length src) (ground arith)) (Chain-grown b.tail ds c))
        | inr past ↦
            wrapped (ds ++ src ∷ []) [] (b.head + 2 + length src) (sym (append-nil _))
              (ground (arith, wrap_past (b.head + 2 + length src))) (ground arith)
              (omega (arith, length-block_written)) (Chain-grown b.tail ds c)
              (sym (wrap_past (b.head + 2 + length src) (ground arith)))
      ]
  Holds-grown ds space keep (wrapped front back e split lt past inside c c') =
      let end : b.head + 2 + length src < b.tail = ground arith in
      wrapped front (back ++ src ∷ []) e (rw (split, append_assoc))
        (ground (arith, wrap_inside (b.head + 2 + length src))) past
        (omega (arith, length-block_written)) (Chain-written b.tail e front (omega arith) c)
        (rw (wrap_inside (b.head + 2 + length src) (omega arith)) (Chain-grown 0 back c'))

-- A valid buffer that holds a queue of datagrams takes one more of less than 2 ^ 16 bytes for which
-- it says that it has space, unless the block would end past the circular part while the tail is 0:
-- it is then valid and holds the queue with the datagram at the end.
pub read_from_appends :
    {E : Type 0} ⦃order : ByteOrder⦄ (b : DatagramBuffer) (src : List ℕ) (ds : List (List ℕ))
    → IsValid b
    → Holds b ds
    → length src < 2 ^ 16
    → has_enough_space_for b (length src) ≡ true
    → (b.tail ≡ 0 → b.head + 2 + length src < b.circular_buffer_length)
    → (c : DatagramBuffer) × (read_from {E = E} b src ≡ ok c) × IsValid c × Holds c (ds ++ src ∷ [])
read_from_appends b src ds v held small space keep = (
  grown b src,
  read_from-grown b src v small space,
  grown-IsValid b src v small,
  Holds-grown b src v small ds space keep held,
)

-- Where the tail of a valid buffer is 0 and the block of a datagram of less than 2 ^ 16 bytes would end past
-- the circular part, the datagram is accepted, and the buffer then counts as empty.
pub read_from_laps :
    {E : Type 0} ⦃order : ByteOrder⦄ (b : DatagramBuffer) (src : List ℕ)
    → IsValid b
    → length src < 2 ^ 16
    → b.tail ≡ 0
    → b.circular_buffer_length ≤ b.head + 2 + length src
    → (c : DatagramBuffer) × (read_from {E = E} b src ≡ ok c) × (is_empty c ≡ true)
unfolding is_empty has_enough_space_for
read_from_laps b src v small first past = (
  grown b src,
  read_from-grown b src v small (ground arith),
  ground (arith, wrap_past b src v small (b.head + 2 + length src)),
)

-- A datagram that there is no space for is refused with an error, and nothing is written.
pub read_from_full :
    {E : Type 0} ⦃order : ByteOrder⦄ (b : DatagramBuffer) (src : List ℕ)
    → length src ≤ 2 ^ 16
    → b.head < b.tail
    → b.tail < b.head + length src + 3
    → read_from {E = E} b src ≡ err full
unfolding read_from has_enough_space_for
read_from_full b src small wraps tight = ground arith

-- A datagram for which the buffer says that it has no space is refused.
pub read_from_no_space :
    {E : Type 0} ⦃order : ByteOrder⦄ (b : DatagramBuffer) (src : List ℕ)
    → length src < 2 ^ 16
    → has_enough_space_for b (length src) ≡ false
    → read_from {E = E} b src ≡ err full
unfolding read_from
read_from_no_space b src small no_space = rw (read_from, no_space) (ground arith)
