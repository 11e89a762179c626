-- ===== src/DatagramBuffer.antt =====
-- relay/src/relay/datagram_buffer.rs: a circular buffer of datagrams, each in one block behind its
-- length in two bytes.
pub mod Blocks
pub mod Enqueue
pub mod Dequeue
use harmony_os_reverse_tethe.Prelude.{
  ℕ, ◌+◌, ◌-◌, ◌%◌, ◌^◌, Bool, true, not, List, leb, ◌==◌, if◌then◌else◌, length, copy_at,
  replicate, Outcome, ok, err, panic, ◌>>=◌, ◌>>◌, assert, fail_if, subslice,
}
use harmony_os_reverse_tethe.ByteOrder.{ByteOrder}

abbrev pub header_length : ℕ
header_length = 2

-- relay/src/relay/datagram.rs
abbrev pub max_datagram_length : ℕ
max_datagram_length = 2 ^ 16

abbrev pub max_block_length : ℕ
max_block_length = header_length + max_datagram_length

pub record DatagramBuffer : Type 0 where
  pub buf : List ℕ
  pub head : ℕ
  pub tail : ℕ
  pub circular_buffer_length : ℕ

-- `DatagramSender::send`: the number of bytes sent of the datagram that it is given.
abbrev pub Sender : Type 0 → Type 0
Sender E = List ℕ → Outcome E ℕ

-- The two errors that the buffer makes itself, and those of the socket.
pub data Error (E : Type 0) : Type 0 where
  full : Error E
  partial_write : Error E
  io : E → Error E

unfoldable pub new : ℕ → DatagramBuffer
new capacity = record {
  buf = replicate (capacity + max_block_length) 0;
  head = 0;
  tail = 0;
  circular_buffer_length = capacity + 1;
}

unfoldable pub is_empty : DatagramBuffer → Bool
is_empty b = b.head == b.tail

unfoldable pub has_enough_space_for : DatagramBuffer → ℕ → Bool
has_enough_space_for b datagram_length =
    if leb b.tail b.head then true else leb (header_length + datagram_length) (b.tail - b.head - 1)

-- An index past the circular part goes back to 0.
unfoldable pub wrap : DatagramBuffer → ℕ → ℕ
wrap b i = if leb b.circular_buffer_length i then 0 else i

-- `copy_from_slice` into `buf[i..i + src.len()]`, which panics out of bounds.
unfoldable pub put : {E : Type 0} → List ℕ → ℕ → List ℕ → Outcome E (List ℕ)
put buf i src = if leb (i + length src) (length buf) then ok (copy_at i src buf) else panic

-- The result of sending one datagram.
unfoldable pub sent : {E : Type 0} → ℕ → Outcome (Error E) ℕ → Outcome (Error E) (Unit {0})
sent len (ok w) = if w == len then ok tt else err partial_write
sent len (err e) = err e
sent len panic = panic

unfoldable pub from_io : {E : Type 0} → Outcome E ℕ → Outcome (Error E) ℕ
from_io (ok w) = ok w
from_io (err e) = err (io e)
from_io panic = panic

module _ ⦃order : ByteOrder⦄ where
  pub read_length : {E : Type 0} → DatagramBuffer → Outcome E (DatagramBuffer × ℕ)
  read_length b = do
    raw ← subslice b.buf b.tail (b.tail + 2)
    ok (record b { tail = b.tail + 2 }, order.read_u16 raw)

  pub write_length : {E : Type 0} → DatagramBuffer → ℕ → Outcome E DatagramBuffer
  unfolding put
  write_length b len = do
    buf ← put b.buf b.head (order.write_u16 len)
    ok (record b { buf = buf; head = b.head + 2 })

  -- The datagram leaves the buffer before it is sent: the new buffer stands beside the result.
  pub write_to :
      {E : Type 0}
      → DatagramBuffer
      → Sender E
      → Outcome E (DatagramBuffer × Outcome (Error E) (Unit {0}))
  unfolding is_empty read_length wrap sent from_io
  write_to b destination = do
    assert (not (is_empty b))
    header ← read_length b
    let c = header.0
    let len = header.1
    datagram ← subslice c.buf c.tail (c.tail + len)
    ok (record c { tail = wrap c (c.tail + len) }, sent len (from_io (destination datagram)))

  pub read_from : {E : Type 0} → DatagramBuffer → List ℕ → Outcome (Error E) DatagramBuffer
  unfolding has_enough_space_for write_length put wrap
  read_from b source = do
    assert (leb (length source) max_datagram_length)
    fail_if (not (has_enough_space_for b (length source))) full
    c ← write_length b (length source % 2 ^ 16)
    buf ← put c.buf c.head source
    ok (record c { buf = buf; head = wrap c (c.head + length source) })
