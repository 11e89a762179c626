-- ===== src/IpPacketBuffer/Laws.antt =====
-- What the packet buffer hands out, and what `next` drops.
use harmony_os_reverse_tethe.Prelude.{
  ℕ, ◌≤◌, ◌≡◌, ◌≢◌, sym, ◌∙◌, List, ◌++◌, length, take, drop, All, Option, none, some, arith, true,
  ◌⊎◌, inl, inr, Outcome-cases, ok, err, panic, ◌>>=◌, >>=-eq-ok, >>=-ne-panic, length-take,
  subslice, subslice_front, take-take, take-append-drop,
}
use harmony_os_reverse_tethe.ByteOrder.{ByteOrder}
use harmony_os_reverse_tethe.ByteBuffer
use harmony_os_reverse_tethe.ByteBuffer.{ByteBuffer}
use harmony_os_reverse_tethe.ByteBuffer.Laws.{IsValid, consume_lem}
use harmony_os_reverse_tethe.IpPacket
use harmony_os_reverse_tethe.IpPacket.{
  IpPacket, raw_of, packet_length, front_packet_length, max_ip_packet_length,
}
use harmony_os_reverse_tethe.IpPacket.Framing.{
  IsByte, front_packet_length-ne-panic, front_packet_length-bounds, front_packet_length_full,
  front_packet_length-take,
}
use harmony_os_reverse_tethe.IpPacket.Safe.{parse-ne-panic, raw_of-parse}
use harmony_os_reverse_tethe.IpPacketBuffer.{IpPacketBuffer, packet, packet_of, next}
use harmony_os_reverse_tethe.ParseError.{PacketParseError}

-- The bytes that wait to be parsed.
abbrev pub bytes : IpPacketBuffer → List ℕ
bytes b = ByteBuffer.peek b.buf

module _ ⦃order : ByteOrder⦄ (b : IpPacketBuffer) where
  -- The two results of the packet parser on the packet in front.
  packet_of-some :
      (n : ℕ) {p : IpPacket}
      → front_packet_length (bytes b) ≡ ok (some n)
      → packet_of (bytes b) (some n) ≡ ok (some p)
      → raw_of p ≡ take n (bytes b)
  unfolding packet_of
  packet_of-some n {p} e h =
      let bounds = front_packet_length-bounds (bytes b) e in
      let (q, g, l) =
        >>=-eq-ok (IpPacket.parse (take n (bytes b))) (λ q. ok (some q))
          (rw (subslice_front {E = PacketParseError} (bytes b) n bounds.1) at h) in
      let same : q ≡ p = cc in
      rw same at (raw_of-parse (take n (bytes b)) n (front_packet_length-take (bytes b) n e) g)
      ∙ take-take n (bytes b)

  packet_of-ne-panic :
      (len : Option ℕ) → front_packet_length (bytes b) ≡ ok len → packet_of (bytes b) len ≢ panic
  unfolding packet_of
  packet_of-ne-panic none e = λ h. cc
  packet_of-ne-panic (some n) e =
      rw
        (subslice_front {E = PacketParseError} (bytes b) n
          (front_packet_length-bounds (bytes b) e).1)
        (>>=-ne-panic (IpPacket.parse (take n (bytes b))) _ (parse-ne-panic (take n (bytes b)))
          (λ q _ r. cc))

  -- Whatever the bytes, reading the packet in front does not panic.
  pub packet-ne-panic : packet b ≢ panic
  unfolding packet
  packet-ne-panic =
      >>=-ne-panic (front_packet_length (bytes b)) (packet_of (bytes b))
        (front_packet_length-ne-panic (bytes b)) packet_of-ne-panic

-- `next` drops the packet in front, of the length that the framing gives.
pub next-some :
    (b : IpPacketBuffer) (n : ℕ)
    → IsValid b.buf
    → front_packet_length (bytes b) ≡ ok (some n)
    → (c : IpPacketBuffer) × (next b ≡ ok (c, true))
      × (bytes c ≡ drop n (bytes b))
      × IsValid c.buf
      × (length c.buf.buf ≡ length b.buf.buf)
unfolding next
next-some b n v e =
    let (c, f, rest, valid, same) =
      consume_lem {E = PacketParseError} b.buf n v (front_packet_length-bounds (bytes b) e).1 in
    (record { buf = c }, rw (e, f), rest, valid, same)

packet-some :
    ⦃order : ByteOrder⦄ (b : IpPacketBuffer) (len : Option ℕ) {p : IpPacket}
    → front_packet_length (bytes b) ≡ ok len
    → packet_of (bytes b) len ≡ ok (some p)
    → (n : ℕ) × (front_packet_length (bytes b) ≡ ok (some n)) × (raw_of p ≡ take n (bytes b))
unfolding packet_of
packet-some b none e h = cc
packet-some b (some n) e h = (n, e, packet_of-some b n e h)

-- The packet that a valid buffer hands out has at least twenty bytes and is the front of its bytes, and `next` drops
-- exactly those and leaves a valid buffer.
pub packet-next :
    ⦃order : ByteOrder⦄ (b : IpPacketBuffer) {p : IpPacket}
    → IsValid b.buf
    → packet b ≡ ok (some p)
    → (c : IpPacketBuffer) × (next b ≡ ok (c, true))
      × (bytes b ≡ raw_of p ++ bytes c)
      × (20 ≤ packet_length p)
      × IsValid c.buf
unfolding packet
packet-next b v h =
    let (len, e, k) = >>=-eq-ok (front_packet_length (bytes b)) (packet_of (bytes b)) h in
    let (n, f, front) = packet-some b len e k in
    let (c, g, rest, valid, _) = next-some b n v f in
    let bounds = front_packet_length-bounds (bytes b) f in
    (
      c,
      g,
      rw (front, rest) (sym (take-append-drop n (bytes b))),
      rw front (omega (arith, length-take n (bytes b))),
      valid,
    )

packet_of-ne-none : ⦃order : ByteOrder⦄ (raw : List ℕ) (n : ℕ) → packet_of raw (some n) ≢ ok none
unfolding packet_of
packet_of-ne-none raw n h =
    let (front, e, k) =
      >>=-eq-ok (subslice raw 0 n) (λ s. IpPacket.parse s >>= λ p. ok (some p)) h in
    let (p, f, l) = >>=-eq-ok (IpPacket.parse front) (λ p. ok (some p)) k in cc

not_waiting :
    ⦃order : ByteOrder⦄ (b : IpPacketBuffer) (len : Option ℕ)
    → All IsByte (bytes b)
    → length (bytes b) ≡ max_ip_packet_length
    → front_packet_length (bytes b) ≡ ok len
    → packet_of (bytes b) len ≢ ok none
not_waiting b none small full e k = front_packet_length_full (bytes b) small (omega arith) e
not_waiting b (some n) small full e k = packet_of-ne-none (bytes b) n k

-- A buffer full of bytes never waits for more of them: reading the packet in front does not panic, and
-- gives a packet, which is the front of the bytes, or an error.
pub packet_full :
    ⦃order : ByteOrder⦄ (b : IpPacketBuffer)
    → All IsByte (bytes b)
    → length (bytes b) ≡ max_ip_packet_length
    → ((p : IpPacket) × (packet b ≡ ok (some p)) × (raw_of p ≡ take (packet_length p) (bytes b)))
      ⊎ ((reason : PacketParseError) × (packet b ≡ err reason))
unfolding packet
packet_full b small full = elim (Outcome-cases (packet b)) [
  | inl (none, e) ↦
      let (len, f, k) = >>=-eq-ok (front_packet_length (bytes b)) (packet_of (bytes b)) e in
      absurd (not_waiting b len small full f k)
  | inl (some p, e) ↦
      let (len, f, k) = >>=-eq-ok (front_packet_length (bytes b)) (packet_of (bytes b)) e in
      let (n, g, front) = packet-some b len f k in
      let bounds = front_packet_length-bounds (bytes b) g in
      let whole : packet_length p ≡ n = rw front (omega (arith, length-take n (bytes b))) in
      inl (p, e, rw whole front)
  | inr (inl (reason, e)) ↦ inr (reason, e)
  | inr (inr e) ↦ absurd (packet-ne-panic b e)
]
