-- ===== src/ParseError.antt =====
-- The errors of relay/src/relay/ip_packet.rs, and those of the header parser as they appear there.
-- Each literal of `Malformed(&'static str)` is a constructor of `Message`.
use harmony_os_reverse_tethe.Prelude.{ℕ}
use harmony_os_reverse_tethe.Ipv6Header.{
  Ipv6HeaderError, truncated_header, invalid_version, truncated_payload,
}

pub data UnsupportedPacket : Type 0 where
  ipv4_fragment : UnsupportedPacket
  ipv6_extension_header : ℕ → UnsupportedPacket
  ipv6_fragment_header : UnsupportedPacket
  ipv6_next_header : ℕ → UnsupportedPacket

pub data Message : Type 0 where
  unsupported_ip_version truncated_ip_packet : Message
  truncated_ipv4_packet invalid_ipv4_packet_length : Message
  truncated_ipv6_packet invalid_ipv6_version : Message
  truncated_tcp_header invalid_tcp_header_length : Message
  truncated_udp_header invalid_udp_length : Message
  unsupported_transport_header : Message

pub data PacketParseError : Type 0 where
  malformed : Message → PacketParseError
  unsupported : UnsupportedPacket → PacketParseError

-- `impl From<Ipv6HeaderError> for PacketParseError` of relay/src/relay/ipv6_packet.rs.
unfoldable pub from_header_error : Ipv6HeaderError → PacketParseError
from_header_error truncated_header = malformed truncated_ipv6_packet
from_header_error truncated_payload = malformed truncated_ipv6_packet
from_header_error invalid_version = malformed invalid_ipv6_version
