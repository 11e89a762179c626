-- ===== src/IpPacket.antt =====
-- relay/src/relay/ip_packet.rs: a packet of either version, and the length of the packet in front.
pub mod Checks
pub mod Ipv4
pub mod Ipv6
pub mod Safe
pub mod Framing
use harmony_os_reverse_tethe.Prelude.{
  ℕ, ◌+◌, ◌-◌, ◌*◌, ◌/◌, ◌%◌, ◌^◌, List, length, Option, none, some, not, ◌||◌, Bool, ltb, leb,
  ◌==◌, if◌then◌else◌, Outcome, ok, err, ◌>>=◌, ◌>>◌, fail_if, index, subslice, get_elem?,
}
use harmony_os_reverse_tethe.ByteOrder.{ByteOrder}
use harmony_os_reverse_tethe.Ipv4Header.{Protocol, protocol_of}
use harmony_os_reverse_tethe.Ipv4Packet
use harmony_os_reverse_tethe.Ipv4Packet.{Ipv4Packet}
use harmony_os_reverse_tethe.Ipv6Packet
use harmony_os_reverse_tethe.Ipv6Packet.{Ipv6Packet, check_transport}
use harmony_os_reverse_tethe.ParseError.{
  PacketParseError, malformed, unsupported, ipv4_fragment, unsupported_ip_version,
  truncated_ip_packet, truncated_ipv4_packet, invalid_ipv4_packet_length,
}

abbrev pub max_ip_packet_length : ℕ
max_ip_packet_length = 40 + (2 ^ 16 - 1)

pub data IpPacket : Type 0 where
  ipv4 : Ipv4Packet → IpPacket
  ipv6 : Ipv6Packet → IpPacket

abbrev pub raw_of : IpPacket → List ℕ
raw_of (ipv4 p) = p.raw
raw_of (ipv6 p) = p.raw

-- `IpPacket::length`
abbrev pub packet_length : IpPacket → ℕ
packet_length p = length (raw_of p)

unfoldable pub front_ipv4 : List ℕ → Outcome PacketParseError (Option ℕ)
front_ipv4 raw = if ltb (length raw) 4 then ok none else do
  first ← index raw 0
  high ← index raw 2
  low ← index raw 3
  let header_length = first % 2 ^ 4 * 4
  let total_length = high * 2 ^ 8 + low
  fail_if (ltb header_length 20 || ltb total_length header_length)
      (malformed invalid_ipv4_packet_length)
  ok (if ltb (length raw) total_length then none else some total_length)

unfoldable pub front_ipv6 : List ℕ → Outcome PacketParseError (Option ℕ)
front_ipv6 raw = if ltb (length raw) 6 then ok none else do
  high ← index raw 4
  low ← index raw 5
  let total_length = 40 + (high * 2 ^ 8 + low)
  ok (if ltb (length raw) total_length then none else some total_length)

-- The length of the packet at the start of the bytes, `none` while it is not there as a whole.
unfoldable pub front_packet_length : List ℕ → Outcome PacketParseError (Option ℕ)
front_packet_length raw =
    if length raw == 0
    then ok none
    else (index raw 0 >>= λ first.
        if first / 2 ^ 4 == 4
        then front_ipv4 raw
        else (if first / 2 ^ 4 == 6
            then front_ipv6 raw
            else err (malformed unsupported_ip_version)))

unfoldable pub validate_ipv4 : List ℕ → Outcome PacketParseError (Unit {0})
validate_ipv4 raw = do
  fail_if (ltb (length raw) 4) (malformed truncated_ipv4_packet)
  first ← index raw 0
  high ← index raw 2
  low ← index raw 3
  let header_length = first % 2 ^ 4 * 4
  let total_length = high * 2 ^ 8 + low
  fail_if
      (ltb (length raw) total_length || (ltb header_length 20 || ltb total_length header_length))
      (malformed invalid_ipv4_packet_length)
  flags ← index raw 6
  offset ← index raw 7
  let more_fragments = flags / 2 ^ 5 % 2 == 1
  let fragment_offset = not (flags % 2 ^ 5 == 0) || not (offset == 0)
  fail_if (more_fragments || fragment_offset) (unsupported ipv4_fragment)
  payload ← subslice raw header_length total_length
  protocol ← index raw 9
  check_transport (protocol_of protocol) payload

module _ ⦃order : ByteOrder⦄ where
  unfoldable pub parse_version : List ℕ → Option ℕ → Outcome PacketParseError IpPacket
  parse_version raw none = err (malformed truncated_ip_packet)
  parse_version raw (some first) =
      if first / 2 ^ 4 == 4
      then (validate_ipv4 raw >>= λ _. Ipv4Packet.parse raw >>= λ p. ok (ipv4 p))
      else (if first / 2 ^ 4 == 6
          then (Ipv6Packet.parse raw >>= λ p. ok (ipv6 p))
          else err (malformed unsupported_ip_version))

  -- On the first byte, if there is one.
  unfoldable pub parse : List ℕ → Outcome PacketParseError IpPacket
  unfolding parse_version
  parse raw = parse_version raw (get_elem? raw 0)
