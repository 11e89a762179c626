-- ===== src/IpPacket/Checks.antt =====
-- The checks of a transport header and of an IPv4 header: they index nothing out of range, and what
-- they guarantee.
use harmony_os_reverse_tethe.Prelude.{
  ℕ, ◌+◌, ◌*◌, ◌%◌, ◌^◌, ◌≤◌, ◌≡◌, ◌≢◌, List, length, slice, arith, Outcome, ok, panic, byte,
  index-eq-ok, subslice-eq-ok,
}
use harmony_os_reverse_tethe.Ipv4Header.{Protocol, protocol_of}
use harmony_os_reverse_tethe.Ipv6Packet.{check_transport}
use harmony_os_reverse_tethe.ParseError.{PacketParseError}
use harmony_os_reverse_tethe.IpPacket.{validate_ipv4}

-- The least length of a transport header.
abbrev pub least_header : Protocol → ℕ
least_header Protocol.tcp = 20
least_header Protocol.udp = 8
least_header Protocol.other = 0

pub check_transport-ne-panic : (p : Protocol) (payload : List ℕ) → check_transport p payload ≢ panic
unfolding check_transport
check_transport-ne-panic Protocol.tcp payload h =
    ground (arith, index-eq-ok {E = PacketParseError} payload 12)
check_transport-ne-panic Protocol.udp payload h = ground (
  arith,
  index-eq-ok {E = PacketParseError} payload 4,
  index-eq-ok {E = PacketParseError} payload 5,
)
check_transport-ne-panic Protocol.other payload h = cc

pub check_transport-length :
    (p : Protocol) (payload : List ℕ)
    → check_transport p payload ≡ ok tt
    → least_header p ≤ length payload
unfolding check_transport
check_transport-length Protocol.tcp payload h = ground arith
check_transport-length Protocol.udp payload h = ground arith
check_transport-length Protocol.other payload h = omega arith

-- The header length and the total length that the bytes of an IPv4 packet give.
abbrev pub ihl : List ℕ → ℕ
ihl raw = byte raw 0 % 2 ^ 4 * 4

abbrev pub total : List ℕ → ℕ
total raw = byte raw 2 * 2 ^ 8 + byte raw 3

-- What `validate_ipv4` guarantees.
pub record IsValidIpv4 (raw : List ℕ) : Type 0 where
  pub header_in : 20 ≤ ihl raw
  pub header_le : ihl raw ≤ total raw
  pub total_le : total raw ≤ length raw
  pub checked : check_transport (protocol_of (byte raw 9)) (slice (ihl raw) (total raw) raw) ≡ ok tt

abbrev checks : List ℕ → Outcome PacketParseError (Unit {0})
checks raw = check_transport (protocol_of (byte raw 9)) (slice (ihl raw) (total raw) raw)

module _ (raw : List ℕ) where
  pub validate_ipv4-ne-panic : validate_ipv4 raw ≢ panic
  unfolding validate_ipv4
  validate_ipv4-ne-panic h = ground (
    arith,
    index-eq-ok {E = PacketParseError} raw 0,
    index-eq-ok {E = PacketParseError} raw 2,
    index-eq-ok {E = PacketParseError} raw 3,
    index-eq-ok {E = PacketParseError} raw 6,
    index-eq-ok {E = PacketParseError} raw 7,
    index-eq-ok {E = PacketParseError} raw 9,
    subslice-eq-ok {E = PacketParseError} raw (ihl raw) (total raw),
    check_transport-ne-panic (protocol_of (byte raw 9)) (slice (ihl raw) (total raw) raw),
  )

  pub validate_ipv4-IsValidIpv4 : validate_ipv4 raw ≡ ok tt → IsValidIpv4 raw
  unfolding validate_ipv4
  validate_ipv4-IsValidIpv4 h = ground (
    arith,
    index-eq-ok {E = PacketParseError} raw 0,
    index-eq-ok {E = PacketParseError} raw 2,
    index-eq-ok {E = PacketParseError} raw 3,
    index-eq-ok {E = PacketParseError} raw 6,
    index-eq-ok {E = PacketParseError} raw 7,
    index-eq-ok {E = PacketParseError} raw 9,
    subslice-eq-ok {E = PacketParseError} raw (ihl raw) (total raw),
  )
