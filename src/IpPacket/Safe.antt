-- ===== src/IpPacket/Safe.antt =====
-- No sequence of bytes makes the packet parsers index out of range, and a packet that is parsed is
-- the packet in front.
use harmony_os_reverse_tethe.Prelude.{
  ℕ, ◌+◌, ◌≡◌, ◌≢◌, inl, inr, List, [], ◌∷◌, take, some, arith, ok, panic, index-eq-ok,
  Outcome-cases,
}
use harmony_os_reverse_tethe.ByteOrder.{ByteOrder, u16_at}
use harmony_os_reverse_tethe.Ipv6Packet
use harmony_os_reverse_tethe.Ipv6Packet.{Ipv6Packet, check_transport, map_err, or_unsupported}
use harmony_os_reverse_tethe.ParseError.{PacketParseError}
use harmony_os_reverse_tethe.IpPacket.{
  raw_of, IpPacket, validate_ipv4, parse, front_packet_length, front_ipv4, front_ipv6,
}
use harmony_os_reverse_tethe.IpPacket.Checks.{
  total, validate_ipv4-ne-panic, validate_ipv4-IsValidIpv4,
}
use harmony_os_reverse_tethe.IpPacket.Ipv4.{parse_ipv4}
use harmony_os_reverse_tethe.IpPacket.Ipv6.{parse_ipv6-ne-panic, parse_ipv6-ok}

-- The parser never indexes out of range, whatever the bytes: it returns a packet or an error.
pub parse-ne-panic : ⦃order : ByteOrder⦄ (raw : List ℕ) → parse raw ≢ panic
unfolding parse
parse-ne-panic [] h = cc
parse-ne-panic (first ∷ rest) h = ground (
  arith,
  Outcome-cases (validate_ipv4 (first ∷ rest)),
  validate_ipv4-ne-panic (first ∷ rest),
  validate_ipv4-IsValidIpv4 (first ∷ rest),
  parse_ipv4 {E = PacketParseError} (first ∷ rest),
  parse_ipv6-ne-panic (first ∷ rest),
)

module _ (raw : List ℕ) (n : ℕ) where
  front_ipv4-some : front_ipv4 raw ≡ ok (some n) → n ≡ total raw
  unfolding front_ipv4
  front_ipv4-some h = ground (
    arith,
    index-eq-ok {E = PacketParseError} raw 0,
    index-eq-ok {E = PacketParseError} raw 2,
    index-eq-ok {E = PacketParseError} raw 3,
  )

  front_ipv6-some : front_ipv6 raw ≡ ok (some n) → n ≡ 40 + u16_at raw 4
  unfolding front_ipv6
  front_ipv6-some h =
      ground
        (arith, index-eq-ok {E = PacketParseError} raw 4, index-eq-ok {E = PacketParseError} raw 5)

-- Where a packet stands in front and the parser returns a packet, it has exactly the bytes of the front length.
pub raw_of-parse :
    ⦃order : ByteOrder⦄ (raw : List ℕ) (n : ℕ) {p : IpPacket}
    → front_packet_length raw ≡ ok (some n)
    → parse raw ≡ ok p
    → raw_of p ≡ take n raw
unfolding parse front_packet_length
raw_of-parse [] n h e = cc
raw_of-parse (first ∷ rest) n h e = elim (Outcome-cases (Ipv6Packet.parse (first ∷ rest))) [
  | inl (q, f) ↦ ground (
    arith,
    f,
    parse_ipv6-ok (first ∷ rest) f,
    Outcome-cases (validate_ipv4 (first ∷ rest)),
    validate_ipv4-IsValidIpv4 (first ∷ rest),
    parse_ipv4 {E = PacketParseError} (first ∷ rest),
    front_ipv4-some (first ∷ rest) n,
    front_ipv6-some (first ∷ rest) n,
    index-eq-ok {E = PacketParseError} (first ∷ rest) 0,
  )
  | inr other ↦ ground (
    arith,
    other,
    Outcome-cases (validate_ipv4 (first ∷ rest)),
    validate_ipv4-IsValidIpv4 (first ∷ rest),
    parse_ipv4 {E = PacketParseError} (first ∷ rest),
    front_ipv4-some (first ∷ rest) n,
    index-eq-ok {E = PacketParseError} (first ∷ rest) 0,
  )
]
