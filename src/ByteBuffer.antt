-- ===== src/ByteBuffer.antt =====
-- relay/src/relay/byte_buffer.rs: bytes read from a source, consumed from the front.
pub mod Laws
use harmony_os_reverse_tethe.Prelude.{
  ℕ, ◌+◌, ◌-◌, Bool, List, ltb, leb, if◌then◌else◌, length, take, drop, slice, copy_at, replicate,
  Outcome, ok, ◌>>=◌, ◌>>◌, assert,
}

pub record ByteBuffer : Type 0 where
  pub buf : List ℕ
  pub head : ℕ

-- What the `io::Read` source puts into a slice of the given length, or its error.
abbrev pub Source : Type 0 → Type 0
Source E = ℕ → Outcome E (List ℕ)

pub new : ℕ → ByteBuffer
new len = record { buf = replicate len 0; head = 0 }

-- The flag is false at the end of the stream.
unfoldable pub read_from : {E : Type 0} → ByteBuffer → Source E → Outcome E (ByteBuffer × Bool)
read_from b source = do
  assert (leb b.head (length b.buf))
  bytes ← source (length b.buf - b.head)
  let r = length bytes
  ok (record b { buf = copy_at b.head bytes b.buf; head = b.head + r }, ltb 0 r)

unfoldable pub peek : ByteBuffer → List ℕ
peek b = take b.head b.buf

-- The bytes left over are moved to the front of the storage.
shift : ByteBuffer → ℕ → ByteBuffer
shift b len =
    let head = b.head - len in
    record b {
      buf = (if ltb 0 head then copy_at 0 (slice len (len + head) b.buf) b.buf else b.buf);
      head = head;
    }

pub consume : {E : Type 0} → ByteBuffer → ℕ → Outcome E ByteBuffer
unfolding shift
consume b len = do assert (leb len b.head); ok (shift b len)
