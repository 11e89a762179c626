-- ===== src/StreamBuffer.antt =====
-- relay/src/relay/stream_buffer.rs: the circular buffer of a byte stream.
pub mod Inv
pub mod Refine
use harmony_os_reverse_tethe.Prelude.{
  ℕ, ◌+◌, ◌-◌, ◌%◌, Bool, not, List, [], ltb, leb, ◌==◌, if◌then◌else◌, length, take, drop, slice,
  copy_at, replicate, Outcome, ok, err, ◌>>=◌, ◌>>◌, assert,
}

pub record StreamBuffer : Type 0 where
  pub buf : List ℕ
  pub head : ℕ
  pub tail : ℕ

-- What the `io::Write` destination does with the slice that it is offered: how many bytes it
-- takes, or its error. `Write::write` returns at most the length of the slice.
abbrev pub Sink : Type 0 → Type 0
Sink E = List ℕ → Outcome E ℕ

pub new : ℕ → StreamBuffer
new capacity = record { buf = replicate (capacity + 1) 0; head = 0; tail = 0 }

unfoldable pub is_empty : StreamBuffer → Bool
is_empty b = b.head == b.tail

unfoldable pub size : StreamBuffer → ℕ
size b = if ltb b.head b.tail then b.head + length b.buf - b.tail else b.head - b.tail

unfoldable pub capacity : StreamBuffer → ℕ
capacity b = length b.buf - 1

unfoldable pub remaining : StreamBuffer → ℕ
unfolding size capacity
remaining b = capacity b - size b

-- Back to the start of the storage once the buffer is empty.
unfoldable pub optimize : StreamBuffer → StreamBuffer
unfolding is_empty
optimize b = if is_empty b then record b { head = 0; tail = 0 } else b

-- The slice that one call of `write_to` offers to the destination.
unfoldable pub front : StreamBuffer → List ℕ
front b = if ltb b.tail b.head then slice b.tail b.head b.buf else drop b.tail b.buf

-- Where the tail goes once `w` bytes are written.
unfoldable pub advance : StreamBuffer → ℕ → ℕ
advance b w = if ltb b.tail b.head then b.tail + w else (b.tail + w) % length b.buf

-- The new buffer, and the number of bytes written. An error leaves the buffer as it was.
unfoldable pub write_to : {E : Type 0} → StreamBuffer → Sink E → Outcome E (StreamBuffer × ℕ)
unfolding front advance optimize
write_to b dest =
    if b.head == b.tail
    then ok (b, 0)
    else (dest (front b) >>= λ w. ok (optimize (record b { tail = advance b w }), w))

-- The two copies of `read_from`: one run if the source fits on the right, else two.
pub store : StreamBuffer → List ℕ → List ℕ
store b source =
    if leb (length source) (length b.buf - b.head)
    then copy_at b.head source b.buf
    else copy_at 0 (drop (length b.buf - b.head) source)
        (copy_at b.head (take (length b.buf - b.head) source) b.buf)

-- The assertion is that the source fits.
pub read_from : {E : Type 0} → StreamBuffer → List ℕ → Outcome E StreamBuffer
unfolding remaining store
read_from b source = do
  assert (leb (length source) (remaining b))
  ok (record b { buf = store b source; head = (b.head + length source) % length b.buf })
