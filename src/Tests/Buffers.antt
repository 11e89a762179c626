-- ===== src/Tests/Buffers.antt =====
-- The buffers of relay/src/relay at small sizes.
use harmony_os_reverse_tethe.Prelude.{
  ℕ, zero, suc, ◌+◌, ◌^◌, ◌≡◌, Bool, true, [], ◌∷◌, ◌++◌, length, take, ok, refl, arith, replicate,
  length-replicate,
}
use harmony_os_reverse_tethe.ByteOrder.{big_endian}
use harmony_os_reverse_tethe.ByteBuffer
use harmony_os_reverse_tethe.ByteBuffer.Laws
use harmony_os_reverse_tethe.StreamBuffer
use harmony_os_reverse_tethe.StreamBuffer.Inv
use harmony_os_reverse_tethe.StreamBuffer.Refine
use harmony_os_reverse_tethe.DatagramBuffer
use harmony_os_reverse_tethe.DatagramBuffer.Blocks
use harmony_os_reverse_tethe.DatagramBuffer.Enqueue
use harmony_os_reverse_tethe.DatagramBuffer.Dequeue

-- Three of five bytes are there.
abbrev some_bytes : ByteBuffer.ByteBuffer
some_bytes = record { buf = 7 ∷ 8 ∷ 9 ∷ 0 ∷ 0 ∷ []; head = 3 }

abbrev one_byte : ByteBuffer.Source Bool
one_byte zero = ok []
one_byte (suc n) = ok (4 ∷ [])

one_byte-IsSource : ByteBuffer.Laws.IsSource one_byte
one_byte-IsSource zero bytes e = ground arith
one_byte-IsSource (suc n) bytes e = ground arith

-- The bytes 1, 2 and 3, with the end of the storage between them.
abbrev round : StreamBuffer.StreamBuffer
round = record { buf = 2 ∷ 3 ∷ 0 ∷ 0 ∷ 0 ∷ 1 ∷ []; head = 2; tail = 5 }

round-IsValid : StreamBuffer.Inv.IsValid round
round-IsValid = record { head_in = omega arith; tail_in = omega arith }

read_from_refines_example :
    (c : StreamBuffer.StreamBuffer) × (StreamBuffer.read_from {E = Bool} round (4 ∷ 5 ∷ []) ≡ ok c)
    × StreamBuffer.Inv.IsValid c
    × (StreamBuffer.capacity c ≡ StreamBuffer.capacity round)
    × (StreamBuffer.Refine.contents c ≡ 1 ∷ 2 ∷ 3 ∷ 4 ∷ 5 ∷ [])
unfolding StreamBuffer.remaining StreamBuffer.capacity StreamBuffer.size
read_from_refines_example =
    StreamBuffer.Refine.read_from_refines round (4 ∷ 5 ∷ []) round-IsValid (omega arith)

abbrev takes_one : StreamBuffer.Sink Bool
takes_one [] = ok 0
takes_one (x ∷ xs) = ok 1

takes_one-IsSink : StreamBuffer.Inv.IsSink takes_one
takes_one-IsSink [] w e = ground arith
takes_one-IsSink (x ∷ xs) w e = ground arith

-- After one byte went out.
abbrev round_after : StreamBuffer.StreamBuffer
round_after = record round { tail = 0 }

write_to_refines_example :
    StreamBuffer.Inv.IsValid round_after
    × (StreamBuffer.Refine.contents round
        ≡ take 1 (StreamBuffer.front round) ++ StreamBuffer.Refine.contents round_after)
unfolding StreamBuffer.write_to StreamBuffer.front StreamBuffer.advance StreamBuffer.optimize
    StreamBuffer.is_empty
write_to_refines_example =
    StreamBuffer.Refine.write_to_refines round takes_one 1 round-IsValid takes_one-IsSink refl

-- A small circular part with the space for one block behind it.
abbrev queue : DatagramBuffer.DatagramBuffer
queue = DatagramBuffer.new 20

read_from_appends_example :
    (c : DatagramBuffer.DatagramBuffer) × (DatagramBuffer.read_from {E = Bool} queue (5 ∷ 6 ∷ [])
      ≡ ok c)
    × DatagramBuffer.Blocks.IsValid c
    × DatagramBuffer.Blocks.Holds c ((5 ∷ 6 ∷ []) ∷ [])
unfolding DatagramBuffer.has_enough_space_for DatagramBuffer.new
read_from_appends_example =
    DatagramBuffer.Enqueue.read_from_appends queue (5 ∷ 6 ∷ []) []
      (DatagramBuffer.Blocks.new-IsValid 20) (DatagramBuffer.Blocks.new-Holds 20) (omega arith) refl
      (λ z. omega arith)

-- The datagram 5, 6 stands at the start.
abbrev pub one_datagram : DatagramBuffer.DatagramBuffer
one_datagram = record {
  buf = 0 ∷ 2 ∷ 5 ∷ 6 ∷ replicate (2 ^ 16 + 18) 0;
  head = 4;
  tail = 0;
  circular_buffer_length = 21;
}

pub one_datagram-IsValid : DatagramBuffer.Blocks.IsValid one_datagram
one_datagram-IsValid = record {
  head_in = omega arith;
  tail_in = omega arith;
  room = omega (arith, length-replicate {0} {A = ℕ} (2 ^ 16 + 18) 0);
}

pub one_datagram-Holds : DatagramBuffer.Blocks.Holds one_datagram ((5 ∷ 6 ∷ []) ∷ [])
one_datagram-Holds =
    DatagramBuffer.Blocks.straight (omega arith) (omega arith, (refl, refl, omega arith), refl)

abbrev to_network : DatagramBuffer.Sender Bool
to_network d = ok (length d)

write_to_takes_example :
    (c : DatagramBuffer.DatagramBuffer) × (DatagramBuffer.write_to one_datagram to_network
      ≡ ok (c, DatagramBuffer.sent 2 (DatagramBuffer.from_io (ok 2))))
    × DatagramBuffer.Blocks.IsValid c
    × DatagramBuffer.Blocks.Holds c []
write_to_takes_example =
    DatagramBuffer.Dequeue.write_to_takes one_datagram (5 ∷ 6 ∷ []) [] to_network
      one_datagram-IsValid one_datagram-Holds

-- The head near the end of the circular part.
abbrev near_end : DatagramBuffer.DatagramBuffer
near_end = record one_datagram { head = 18 }

near_end-IsValid : DatagramBuffer.Blocks.IsValid near_end
near_end-IsValid = record {
  head_in = omega arith;
  tail_in = omega arith;
  room = omega (arith, length-replicate {0} {A = ℕ} (2 ^ 16 + 18) 0);
}

read_from_laps_example :
    (c : DatagramBuffer.DatagramBuffer) × (DatagramBuffer.read_from {E = Bool} near_end (5 ∷ 6 ∷ [])
      ≡ ok c)
    × (DatagramBuffer.is_empty c ≡ true)
read_from_laps_example =
    DatagramBuffer.Enqueue.read_from_laps near_end (5 ∷ 6 ∷ []) near_end-IsValid (omega arith) refl
      (omega arith)
