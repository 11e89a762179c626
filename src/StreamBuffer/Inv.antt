-- ===== src/StreamBuffer/Inv.antt =====
-- The bounds that every operation of the stream buffer keeps.
use harmony_os_reverse_tethe.Prelude.{
  ℕ, ◌+◌, ◌-◌, ◌≤◌, ◌<◌, ◌≡◌, ◌≢◌, List, length, drop, take, copy_at, ok, arith, length-take,
  length-drop, length-replicate, length-copy_at,
}
use harmony_os_reverse_tethe.StreamBuffer.{
  StreamBuffer, Sink, new, size, capacity, remaining, front, store, read_from,
}

pub record IsValid (b : StreamBuffer) : Type 0 where
  pub head_in : b.head < length b.buf
  pub tail_in : b.tail < length b.buf

pub new-IsValid : (c : ℕ) → IsValid (new c)
unfolding new
new-IsValid c = omega (arith, length-replicate {0} {A = ℕ} (c + 1) 0)

pub length-store :
    (b : StreamBuffer) (source : List ℕ)
    → IsValid b
    → length source ≤ remaining b
    → length (store b source) ≡ length b.buf
unfolding store remaining size capacity
length-store b source v h = ground (
  arith,
  length-take (length b.buf - b.head) source,
  length-drop (length b.buf - b.head) source,
  length-copy_at b.head source b.buf,
  length-copy_at b.head (take (length b.buf - b.head) source) b.buf,
  length-copy_at 0 (drop (length b.buf - b.head) source)
      (copy_at b.head (take (length b.buf - b.head) source) b.buf),
)

pub read_from-IsValid :
    {E : Type 0} (b : StreamBuffer) (source : List ℕ) {c : StreamBuffer}
    → IsValid b
    → read_from {E = E} b source ≡ ok c
    → IsValid c × (capacity c ≡ capacity b)
unfolding read_from capacity
read_from-IsValid b source v e = ground (arith, length-store b source v)

pub length-front : (b : StreamBuffer) → IsValid b → b.head ≢ b.tail → length (front b) ≤ size b
unfolding front size
length-front b v h =
    ground (arith, length-drop b.tail b.buf, length-take (b.head - b.tail) (drop b.tail b.buf))

-- `Write::write` takes at most what it is offered.
abbrev pub IsSink : {E : Type 0} → Sink E → Type 0
IsSink dest = (xs : List ℕ) (w : ℕ) → dest xs ≡ ok w → w ≤ length xs
