-- ===== src/IpPacket/Framing.antt =====
-- The length of the packet in front of a byte stream.
use harmony_os_reverse_tethe.Prelude.{
  ℕ, ◌^◌, ◌≤◌, ◌<◌, ◌≡◌, ◌≢◌, refl, List, [], ◌∷◌, ◌++◌, length, All, none, some, arith, ok, err,
  panic, index, byte, index-eq-ok, length-append, length-take, take, zero, suc, ap,
}
use harmony_os_reverse_tethe.Prelude.Swap.{IsSwap}
use harmony_os_reverse_tethe.ParseError.{PacketParseError}
use harmony_os_reverse_tethe.IpPacket.{
  max_ip_packet_length, front_packet_length, front_ipv4, front_ipv6,
}

abbrev pub IsByte : ℕ → Type 0
IsByte b = b < 2 ^ 8

pub byte-lt : (raw : List ℕ) (i : ℕ) → All IsByte raw → byte raw i < 2 ^ 8
byte-lt [] i h = omega arith
byte-lt (b ∷ raw) zero h = h.0
byte-lt (b ∷ raw) (suc i) h = byte-lt raw i h.1

-- Bytes that are pointwise small are bytes.
all-IsByte : (raw : List ℕ) → ((k : ℕ) → k < length raw → byte raw k < 2 ^ 8) → All IsByte raw
all-IsByte [] h = tt
all-IsByte (b ∷ raw) h = (h 0 (omega arith), all-IsByte raw (λ k l. h (suc k) (omega arith)))

pub IsSwap-IsByte : {raw r : List ℕ} {i j : ℕ} → IsSwap raw i j r → All IsByte raw → All IsByte r
IsSwap-IsByte {raw} {r} {i} {j} s h =
    all-IsByte r λ k l. ground (arith, s.at k, byte-lt raw i h, byte-lt raw j h, byte-lt raw k h)

pub byte-append : (raw more : List ℕ) (i : ℕ) → i < length raw → byte (raw ++ more) i ≡ byte raw i
byte-append [] more i h = absurd (omega arith)
byte-append (b ∷ raw) more zero h = refl
byte-append (b ∷ raw) more (suc i) h = byte-append raw more i (omega arith)

index-append :
    (raw more : List ℕ) (i : ℕ)
    → i < length raw
    → index {E = PacketParseError} (raw ++ more) i ≡ index {E = PacketParseError} raw i
index-append raw more i h =
    rw
      (
        index-eq-ok {E = PacketParseError} (raw ++ more) i (omega (arith, length-append raw more)),
        index-eq-ok {E = PacketParseError} raw i h,
      )
      (ap ok (byte-append raw more i h))

byte-take : (n : ℕ) (raw : List ℕ) (i : ℕ) → i < n → byte (take n raw) i ≡ byte raw i
byte-take zero raw i h = absurd (omega arith)
byte-take (suc n) [] i h = refl
byte-take (suc n) (b ∷ raw) zero h = refl
byte-take (suc n) (b ∷ raw) (suc i) h = byte-take n raw i (omega arith)

index-take :
    (n : ℕ) (raw : List ℕ) (i : ℕ)
    → i < n
    → n ≤ length raw
    → index {E = PacketParseError} (take n raw) i ≡ index {E = PacketParseError} raw i
index-take n raw i h k =
    rw
      (
        index-eq-ok {E = PacketParseError} (take n raw) i (omega (arith, length-take n raw)),
        index-eq-ok {E = PacketParseError} raw i (omega arith),
      )
      (ap ok (byte-take n raw i h))

module _ (raw : List ℕ) where
  -- The length of the front packet is read without an index out of range.
  pub front_packet_length-ne-panic : front_packet_length raw ≢ panic
  unfolding front_packet_length front_ipv4 front_ipv6
  front_packet_length-ne-panic h = ground (
    arith,
    index-eq-ok {E = PacketParseError} raw 0,
    index-eq-ok {E = PacketParseError} raw 2,
    index-eq-ok {E = PacketParseError} raw 3,
    index-eq-ok {E = PacketParseError} raw 4,
    index-eq-ok {E = PacketParseError} raw 5,
  )

  -- A packet in front is at least a header long, and is there as a whole.
  pub front_packet_length-bounds :
      {n : ℕ} → front_packet_length raw ≡ ok (some n) → (20 ≤ n) × (n ≤ length raw)
  unfolding front_packet_length front_ipv4 front_ipv6
  front_packet_length-bounds h = ground (
    arith,
    index-eq-ok {E = PacketParseError} raw 0,
    index-eq-ok {E = PacketParseError} raw 2,
    index-eq-ok {E = PacketParseError} raw 3,
    index-eq-ok {E = PacketParseError} raw 4,
    index-eq-ok {E = PacketParseError} raw 5,
  )

  -- A buffer of the largest packet's size is never full of an incomplete packet.
  pub front_packet_length_full :
      All IsByte raw → max_ip_packet_length ≤ length raw → front_packet_length raw ≢ ok none
  unfolding front_packet_length front_ipv4 front_ipv6
  front_packet_length_full bytes full h = ground (
    arith,
    index-eq-ok {E = PacketParseError} raw 0,
    index-eq-ok {E = PacketParseError} raw 2,
    index-eq-ok {E = PacketParseError} raw 3,
    index-eq-ok {E = PacketParseError} raw 4,
    index-eq-ok {E = PacketParseError} raw 5,
    byte-lt raw 2 bytes,
    byte-lt raw 3 bytes,
    byte-lt raw 4 bytes,
    byte-lt raw 5 bytes,
  )

module _ (raw more : List ℕ) where
  -- Bytes that arrive later do not change the length of a packet that is in front.
  pub front_packet_length-append :
      {n : ℕ}
      → front_packet_length raw ≡ ok (some n)
      → front_packet_length (raw ++ more) ≡ ok (some n)
  unfolding front_packet_length front_ipv4 front_ipv6
  front_packet_length-append h = ground (
    arith,
    index-eq-ok {E = PacketParseError} raw 0,
    index-eq-ok {E = PacketParseError} raw 2,
    index-eq-ok {E = PacketParseError} raw 3,
    index-eq-ok {E = PacketParseError} raw 4,
    index-eq-ok {E = PacketParseError} raw 5,
    index-append raw more 0,
    index-append raw more 2,
    index-append raw more 3,
    index-append raw more 4,
    index-append raw more 5,
    length-append raw more,
  )

  front_ipv4-append_err :
      {e : PacketParseError} → front_ipv4 raw ≡ err e → front_ipv4 (raw ++ more) ≡ err e
  unfolding front_ipv4
  front_ipv4-append_err h = ground (
    arith,
    index-eq-ok {E = PacketParseError} raw 0,
    index-eq-ok {E = PacketParseError} raw 2,
    index-eq-ok {E = PacketParseError} raw 3,
    index-append raw more 0,
    index-append raw more 2,
    index-append raw more 3,
    length-append raw more,
  )

  front_ipv6-ne-err : (e : PacketParseError) → front_ipv6 raw ≢ err e
  unfolding front_ipv6
  front_ipv6-ne-err e h =
      ground
        (arith, index-eq-ok {E = PacketParseError} raw 4, index-eq-ok {E = PacketParseError} raw 5)

  -- Bytes that are refused are refused with the same error once more bytes follow them.
  pub front_packet_length-append_err :
      {e : PacketParseError}
      → front_packet_length raw ≡ err e
      → front_packet_length (raw ++ more) ≡ err e
  unfolding front_packet_length
  front_packet_length-append_err {e} h = ground (
    arith,
    index-eq-ok {E = PacketParseError} raw 0,
    index-append raw more 0,
    front_ipv4-append_err {e = e},
    front_ipv6-ne-err e,
    length-append raw more,
  )

-- The packet in front stands alone: its bytes have the same front.
pub front_packet_length-take :
    (raw : List ℕ) (n : ℕ)
    → front_packet_length raw ≡ ok (some n)
    → front_packet_length (take n raw) ≡ ok (some n)
unfolding front_packet_length front_ipv4 front_ipv6
front_packet_length-take raw n h = ground (
  arith,
  front_packet_length-bounds raw h,
  index-eq-ok {E = PacketParseError} raw 0,
  index-eq-ok {E = PacketParseError} raw 2,
  index-eq-ok {E = PacketParseError} raw 3,
  index-eq-ok {E = PacketParseError} raw 4,
  index-eq-ok {E = PacketParseError} raw 5,
  index-take n raw 0,
  index-take n raw 2,
  index-take n raw 3,
  index-take n raw 4,
  index-take n raw 5,
  length-take n raw,
)
