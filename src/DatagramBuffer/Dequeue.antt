-- ===== src/DatagramBuffer/Dequeue.antt =====
-- `write_to` of the datagram buffer: the oldest datagram leaves the queue.
use harmony_os_reverse_tethe.Prelude.{
  ℕ, ◌+◌, ◌/◌, ◌%◌, ◌^◌, ◌≤◌, ◌≡◌, ◌≢◌, ◌↔◌, List, [], ◌∷◌, ◌++◌, length, ok, true, arith,
  subslice-eq-ok,
}
use harmony_os_reverse_tethe.ByteOrder.{ByteOrder}
use harmony_os_reverse_tethe.DatagramBuffer.{
  DatagramBuffer, Sender, is_empty, wrap, read_length, write_to, sent, from_io,
}
use harmony_os_reverse_tethe.DatagramBuffer.Blocks.{
  IsValid, BlockAt, Holds, straight, wrapped, Chain-le,
}

-- The buffer without the block of a datagram of `n` bytes at its tail.
abbrev shrunk : DatagramBuffer → ℕ → DatagramBuffer
shrunk b n = record b { tail = wrap b (b.tail + 2 + n) }

-- A block stands at the tail, inside the storage.
pub record Front (b : DatagramBuffer) (d : List ℕ) : Type 0 where
  pub block : BlockAt b.buf b.tail d
  pub inside : b.tail + 2 + length d ≤ length b.buf
  pub differs : b.head ≢ b.tail

write_to-shrunk :
    {E : Type 0} ⦃order : ByteOrder⦄ (b : DatagramBuffer) (d : List ℕ) (destination : Sender E)
    → Front b d
    → write_to b destination ≡ ok (shrunk b (length d), sent (length d) (from_io (destination d)))
unfolding write_to read_length is_empty
write_to-shrunk {E} ⦃order⦄ b d destination f = ground (
  arith,
  f.differs,
  subslice-eq-ok {E = E} b.buf b.tail (b.tail + 2),
  subslice-eq-ok {E = E} b.buf (b.tail + 2) (b.tail + 2 + length d),
  order.read_u16_lem (length d / 2 ^ 8) (length d % 2 ^ 8),
)

Front-of_Holds :
    (b : DatagramBuffer) (d : List ℕ) (ds : List (List ℕ))
    → IsValid b
    → Holds b (d ∷ ds)
    → Front b d
Front-of_Holds b d ds v (straight le (start, block, rest)) = record {
  block = block;
  inside =
      omega (arith, Chain-le b.buf b.circular_buffer_length (b.tail + 2 + length d) b.head ds rest);
  differs =
      omega (arith, Chain-le b.buf b.circular_buffer_length (b.tail + 2 + length d) b.head ds rest);
}
Front-of_Holds b d ds v (wrapped [] back e split lt past inside c c') = absurd (omega arith)
Front-of_Holds b d ds v (wrapped (d' ∷ front) back e split lt past inside (start, block, rest) c') =
    let same : d ≡ d' = cc in
    record {
      block = rw same block;
      inside = rw same (
          omega
            (arith, Chain-le b.buf b.circular_buffer_length (b.tail + 2 + length d') e front rest));
      differs = omega arith;
    }

shrunk-IsValid : (b : DatagramBuffer) (n : ℕ) → IsValid b → IsValid (shrunk b n)
unfolding wrap
shrunk-IsValid b n v = ground arith

Holds-shrunk :
    (b : DatagramBuffer) (d : List ℕ) (ds : List (List ℕ))
    → IsValid b
    → Holds b (d ∷ ds)
    → Holds (shrunk b (length d)) ds
unfolding wrap
Holds-shrunk b d ds v (straight le (start, block, rest)) =
    let below = Chain-le b.buf b.circular_buffer_length (b.tail + 2 + length d) b.head ds rest in
    let same : wrap b (b.tail + 2 + length d) ≡ b.tail + 2 + length d = ground arith in
    straight (rw same below) (rw same rest)
Holds-shrunk b d ds v (wrapped [] back e split lt past inside c c') = absurd (omega arith)
Holds-shrunk b d ds v (wrapped (d' ∷ []) back e split lt past inside (start, block, end) c') =
    let first : d ≡ d' = cc in
    let others : ds ≡ back = cc in
    let same : wrap b (b.tail + 2 + length d') ≡ 0 = ground arith in
    rw (first, others) (straight (rw same (omega arith)) (rw same c'))
Holds-shrunk b d ds v
      (wrapped (d' ∷ d2 ∷ front) back e split lt past inside (start, block, rest) c') =
    let first : d ≡ d' = cc in
    let others : ds ≡ (d2 ∷ front) ++ back = cc in
    let same : wrap b (b.tail + 2 + length d') ≡ b.tail + 2 + length d' = ground arith in
    rw first
      (wrapped (d2 ∷ front) back e others (rw same (omega arith)) past inside (rw same rest) c')

-- From a valid buffer that holds a datagram, `write_to` takes the oldest one, whether it is then sent
-- or not, and hands exactly its bytes to the socket: the buffer is then valid and holds the others.
pub write_to_takes :
    {E : Type 0} ⦃order : ByteOrder⦄ (b : DatagramBuffer) (d : List ℕ) (ds : List (List ℕ))
    (destination : Sender E)
    → IsValid b
    → Holds b (d ∷ ds)
    → (c : DatagramBuffer) × (write_to b destination
        ≡ ok (c, sent (length d) (from_io (destination d))))
      × IsValid c
      × Holds c ds
write_to_takes b d ds destination v held = (
  shrunk b (length d),
  write_to-shrunk b d destination (Front-of_Holds b d ds v held),
  shrunk-IsValid b (length d) v,
  Holds-shrunk b d ds v held,
)

-- A valid buffer is empty exactly when it holds no datagram.
pub is_empty_iff :
    (b : DatagramBuffer) (ds : List (List ℕ))
    → IsValid b
    → Holds b ds
    → (is_empty b ≡ true) ↔ (ds ≡ [])
unfolding is_empty
is_empty_iff b [] v (straight le c) = ground arith
is_empty_iff b [] v (wrapped [] back e split lt past inside c c') = absurd (omega arith)
is_empty_iff b [] v (wrapped (d ∷ front) back e split lt past inside c c') = cc
is_empty_iff b (d ∷ ds) v held = let f = Front-of_Holds b d ds v held in ground (arith, f.differs)
