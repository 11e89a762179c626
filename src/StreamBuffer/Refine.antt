-- ===== src/StreamBuffer/Refine.antt =====
-- A stream buffer is the FIFO of the bytes that it holds.
use harmony_os_reverse_tethe.Prelude.{
  ℕ, Option, none, Bool-cases, inl, inr, leb, ◌+◌, ◌-◌, ◌%◌, ◌≤◌, ◌<◌, ◌≡◌, ◌≢◌, List, ◌++◌, length,
  drop, take, slice, ok, arith, ltb, if◌then◌else◌, take_of_zero, ap, length-take, length-drop,
  mod_wrap, length-append, refl, sym, get_elem?, false,
}
use harmony_os_reverse_tethe.Prelude.Pointwise.{
  list_ext, pointwise, get_elem?-append, get_elem?-take, get_elem?-drop, get_elem?-ge,
}
use harmony_os_reverse_tethe.StreamBuffer.{
  StreamBuffer, Sink, size, remaining, capacity, front, advance, write_to, optimize, is_empty,
  store, read_from,
}
use harmony_os_reverse_tethe.StreamBuffer.Inv.{IsValid, IsSink, length-store}

-- The bytes stored, oldest first.
abbrev pub contents : StreamBuffer → List ℕ
contents b =
    if ltb b.head b.tail then drop b.tail b.buf ++ take b.head b.buf else slice b.tail b.head b.buf

pub length-contents : (b : StreamBuffer) → IsValid b → length (contents b) ≡ size b
unfolding size
length-contents b v = ground (
  arith,
  length-append (drop b.tail b.buf) (take b.head b.buf),
  length-drop b.tail b.buf,
  length-take b.head b.buf,
  length-take (b.head - b.tail) (drop b.tail b.buf),
)

-- The index of the `i`-th byte stored.
abbrev place : StreamBuffer → ℕ → ℕ
place b i = if ltb (b.tail + i) (length b.buf) then b.tail + i else b.tail + i - length b.buf

get_elem?-contents :
    (b : StreamBuffer) (i : ℕ)
    → IsValid b
    → get_elem? (contents b) i ≡ (if ltb i (size b) then get_elem? b.buf (place b i) else none)
unfolding size
get_elem?-contents b i v = elim (Bool-cases (ltb b.head b.tail)) [
  | inl wraps ↦
      rw wraps (simp (pointwise, length-drop) (ground (arith, get_elem?-ge b.buf (b.tail + i))))
  | inr straight ↦ rw straight (simp pointwise (ground arith))
]

module _ (b : StreamBuffer) (src : List ℕ) (v : IsValid b) (fits : length src ≤ remaining b) where
  abbrev stored_at : ℕ → Option ℕ
  stored_at j =
      let k = if leb b.head j then j - b.head else j + length b.buf - b.head in
      if ltb k (length src) then get_elem? src k else get_elem? b.buf j

  get_elem?-store : (j : ℕ) → j < length b.buf → get_elem? (store b src) j ≡ stored_at j
  unfolding store remaining capacity size
  get_elem?-store j h = elim (Bool-cases (leb (length src) (length b.buf - b.head))) [
    | inl once ↦ rw once (simp (pointwise, length-take) (ground arith))
    | inr twice ↦ rw twice (simp (pointwise, length-take, length-drop) (ground arith))
  ]

  abbrev stored : StreamBuffer
  stored = record b { buf = store b src; head = (b.head + length src) % length b.buf }

  size-stored : size stored ≡ size b + length src
  unfolding size remaining capacity
  size-stored =
      ground (arith, length-store b src v fits, mod_wrap (b.head + length src) (length b.buf))

  stored-IsValid : IsValid stored
  stored-IsValid = ground (arith, length-store b src v fits)

  -- The `i`-th byte of the stored buffer, at its place in the new storage.
  stored-append : (i : ℕ) → get_elem? (contents stored) i ≡ get_elem? (contents b ++ src) i
  unfolding remaining capacity size
  stored-append i =
      rw (get_elem?-contents stored i stored-IsValid, get_elem?-append (contents b) src i)
        (rw (size-stored, length-contents b v)
          (ground (
            arith,
            length-store b src v fits,
            get_elem?-contents b i v,
            get_elem?-store (place b i),
            get_elem?-ge src (i - size b),
          )))

  contents-stored : contents stored ≡ contents b ++ src
  contents-stored = list_ext _ _ stored-append

-- `read_from` of a valid buffer takes a source that fits, and appends it to the bytes stored; the
-- buffer stays valid and of the same capacity.
pub read_from_refines :
    {E : Type 0} (b : StreamBuffer) (source : List ℕ)
    → IsValid b
    → length source ≤ remaining b
    → (c : StreamBuffer) × (read_from {E = E} b source ≡ ok c)
      × IsValid c
      × (capacity c ≡ capacity b)
      × (contents c ≡ contents b ++ source)
unfolding read_from capacity
read_from_refines b source v h = (
  stored b source v h,
  ground arith,
  stored-IsValid b source v h,
  ap (λ n. n - 1) (length-store b source v h),
  contents-stored b source v h,
)

-- The buffer after `w` bytes are taken from the front, before `optimize`.
abbrev taken : StreamBuffer → ℕ → StreamBuffer
unfolding advance
taken b w = record b { tail = advance b w }

taken-IsValid :
    (b : StreamBuffer) (w : ℕ)
    → IsValid b
    → b.head ≢ b.tail
    → w ≤ length (front b)
    → IsValid (taken b w)
unfolding advance front
taken-IsValid b w v n h =
    ground (arith, length-drop b.tail b.buf, length-take (b.head - b.tail) (drop b.tail b.buf))

size-taken :
    (b : StreamBuffer) (w : ℕ)
    → IsValid b
    → b.head ≢ b.tail
    → w ≤ length (front b)
    → size (taken b w) + w ≡ size b
unfolding advance front size
size-taken b w v n h = ground (
  arith,
  length-drop b.tail b.buf,
  length-take (b.head - b.tail) (drop b.tail b.buf),
  mod_wrap (b.tail + w) (length b.buf),
)

get_elem?-front :
    (b : StreamBuffer) (i : ℕ)
    → IsValid b
    → b.head ≢ b.tail
    → i < length (front b)
    → get_elem? (front b) i ≡ get_elem? b.buf (b.tail + i)
unfolding front
get_elem?-front b i v n h = elim (Bool-cases (ltb b.tail b.head)) [
  | inl straight ↦
      rw straight
        (simp pointwise (ground (arith, length-take (b.head - b.tail) (drop b.tail b.buf))))
  | inr wraps ↦ rw wraps (get_elem?-drop b.tail b.buf i)
]

length-front_lem :
    (b : StreamBuffer)
    → IsValid b
    → length (front b) ≡ (if ltb b.tail b.head then b.head - b.tail else length b.buf - b.tail)
unfolding front
length-front_lem b v =
    ground (arith, length-drop b.tail b.buf, length-take (b.head - b.tail) (drop b.tail b.buf))

module _ (b : StreamBuffer) (w : ℕ) (v : IsValid b) (n : b.head ≢ b.tail)
    (h : w ≤ length (front b)) where
  front-contents_at :
      (i : ℕ)
      → (if ltb i w then get_elem? (front b) i else get_elem? (contents (taken b w)) (i - w))
        ≡ get_elem? (contents b) i
  unfolding advance size
  front-contents_at i = ground (
    arith,
    get_elem?-contents b i v,
    get_elem?-contents (taken b w) (i - w) (taken-IsValid b w v n h),
    length-front_lem b v,
    get_elem?-front b i v n,
    mod_wrap (b.tail + w) (length b.buf),
  )

  -- What is offered and taken, and then what is left, are the bytes stored before.
  front-contents : take w (front b) ++ contents (taken b w) ≡ contents b
  front-contents = list_ext _ _ λ i.
      rw
        (
          get_elem?-append (take w (front b)) (contents (taken b w)) i,
          length-take w (front b),
          get_elem?-take w (front b) i,
        )
        (ground (arith, front-contents_at i))

contents-optimize : (b : StreamBuffer) → IsValid b → contents (optimize b) ≡ contents b
unfolding optimize is_empty
contents-optimize b v = ground (arith, take_of_zero (b.head - b.tail) (drop b.tail b.buf))

optimize-IsValid : (b : StreamBuffer) → IsValid b → IsValid (optimize b)
unfolding optimize is_empty
optimize-IsValid b v = ground arith

-- One write of a buffer that holds something.
module _ (b : StreamBuffer) (w : ℕ) (v : IsValid b) (n : b.head ≢ b.tail)
    (h : w ≤ length (front b)) where
  written-IsValid : IsValid (optimize (taken b w))
  written-IsValid = optimize-IsValid (taken b w) (taken-IsValid b w v n h)

  written-contents : contents b ≡ take w (front b) ++ contents (optimize (taken b w))
  written-contents =
      rw (contents-optimize (taken b w) (taken-IsValid b w v n h)) (sym (front-contents b w v n h))

-- Where `write_to` of a valid buffer succeeds with a destination that takes at most what it is offered, the
-- bytes that it took were the first ones stored, and the buffer is valid and keeps the others in order.
pub write_to_refines :
    {E : Type 0} (b : StreamBuffer) (dest : Sink E) (w : ℕ) {c : StreamBuffer}
    → IsValid b
    → IsSink dest
    → write_to b dest ≡ ok (c, w)
    → IsValid c × (contents b ≡ take w (front b) ++ contents c)
unfolding write_to
write_to_refines b dest w v s e =
    ground (arith, s (front b) w, written-IsValid b w v, written-contents b w v)

-- Where there is something to write and the destination takes it, so does `write_to`.
pub write_to-eq-ok :
    {E : Type 0} (b : StreamBuffer) (dest : Sink E) (w : ℕ)
    → is_empty b ≡ false
    → dest (front b) ≡ ok w
    → (c : StreamBuffer) × (write_to b dest ≡ ok (c, w))
unfolding write_to is_empty
write_to-eq-ok b dest w n e = (optimize (record b { tail = advance b w }), rw (n, e) refl)
