-- ===== src/ByteBuffer/Laws.antt =====
-- A byte buffer is the list of the bytes in front of its head.
use harmony_os_reverse_tethe.Prelude.{
  ℕ, ◌+◌, ◌-◌, ◌≤◌, ◌≡◌, refl, inl, inr, Bool-cases, List, ◌++◌, ltb, length, take, drop, slice,
  copy_at, ok, arith, length-take, length-drop, length-copy_at, length-replicate,
}
use harmony_os_reverse_tethe.Prelude.Pointwise.{list_ext, pointwise, get_elem?-ge}
use harmony_os_reverse_tethe.ByteBuffer.{ByteBuffer, Source, new, read_from, peek, shift, consume}

abbrev pub IsValid : ByteBuffer → Type 0
IsValid b = b.head ≤ length b.buf

pub new-IsValid : (n : ℕ) → IsValid (new n)
unfolding new
new-IsValid n = omega (arith, length-replicate {0} {A = ℕ} n 0)

-- `Read::read` fills at most the slice that it is given.
abbrev pub IsSource : {E : Type 0} → Source E → Type 0
IsSource source = (n : ℕ) (bytes : List ℕ) → source n ≡ ok bytes → length bytes ≤ n

length-peek : (b : ByteBuffer) → IsValid b → length (peek b) ≡ b.head
unfolding peek
length-peek b v = omega (arith, length-take b.head b.buf)

filled :
    (b : ByteBuffer) (bytes : List ℕ)
    → IsValid b
    → take (b.head + length bytes) (copy_at b.head bytes b.buf) ≡ take b.head b.buf ++ bytes
filled b bytes v =
    list_ext _ _
      λ i. simp (pointwise, length-take) (ground (arith, get_elem?-ge bytes (i - b.head)))

-- Where the source gives bytes, at most as many as it is asked for, `read_from` of a valid buffer succeeds and appends
-- them, and its flag says whether there are any; the buffer stays valid and of the same size.
pub read_from_lem :
    {E : Type 0} (b : ByteBuffer) (source : Source E) (bytes : List ℕ)
    → IsValid b
    → IsSource source
    → source (length b.buf - b.head) ≡ ok bytes
    → (c : ByteBuffer) × (read_from b source ≡ ok (c, ltb 0 (length bytes)))
      × (peek c ≡ peek b ++ bytes)
      × IsValid c
      × (length c.buf ≡ length b.buf)
unfolding read_from peek
read_from_lem b source bytes v s e = (
  record b { buf = copy_at b.head bytes b.buf; head = b.head + length bytes },
  ground arith,
  filled b bytes v,
  ground (arith, s (length b.buf - b.head) bytes, length-copy_at b.head bytes b.buf),
  ground (arith, s (length b.buf - b.head) bytes, length-copy_at b.head bytes b.buf),
)

peek-shift : (b : ByteBuffer) (n : ℕ) → IsValid b → n ≤ b.head → peek (shift b n) ≡ drop n (peek b)
unfolding peek shift
peek-shift b n v h = elim (Bool-cases (ltb 0 (b.head - n))) [
  | inl some_left ↦
      rw some_left (list_ext _ _ λ i. simp (pointwise, length-take, length-drop) (ground arith))
  | inr none_left ↦ rw none_left (list_ext _ _ λ i. simp pointwise (ground arith))
]

length-shift :
    (b : ByteBuffer) (n : ℕ) → IsValid b → n ≤ b.head → length (shift b n).buf ≡ length b.buf
unfolding shift
length-shift b n v h = ground (
  arith,
  length-copy_at 0 (slice n (n + (b.head - n)) b.buf) b.buf,
  length-take (n + (b.head - n) - n) (drop n b.buf),
  length-drop n b.buf,
)

head-shift : (b : ByteBuffer) (n : ℕ) → (shift b n).head ≡ b.head - n
unfolding shift
head-shift b n = refl

-- `consume` of a valid buffer drops the given number of bytes from the front, if it holds as many; the
-- buffer stays valid and of the same size.
pub consume_lem :
    {E : Type 0} (b : ByteBuffer) (n : ℕ)
    → IsValid b
    → n ≤ length (peek b)
    → (c : ByteBuffer) × (consume {E = E} b n ≡ ok c)
      × (peek c ≡ drop n (peek b))
      × IsValid c
      × (length c.buf ≡ length b.buf)
unfolding consume
consume_lem b n v h =
    let k : n ≤ b.head = omega (arith, length-peek b v) in
    (
      shift b n,
      ground arith,
      peek-shift b n v k,
      omega (arith, length-shift b n v k, head-shift b n),
      length-shift b n v k,
    )
