-- ===== src/IpPacket/Ipv4.antt =====
-- The IPv4 parser on bytes that are checked.
use harmony_os_reverse_tethe.Prelude.{
  ℕ, ◌≤◌, ◌≡◌, refl, List, length, slice, Option, none, some, arith, ok, byte, subslice-eq-ok,
}
use harmony_os_reverse_tethe.Prelude.Slices.{length-slice}
use harmony_os_reverse_tethe.ByteOrder.{ByteOrder}
use harmony_os_reverse_tethe.TcpHeader
use harmony_os_reverse_tethe.UdpHeader
use harmony_os_reverse_tethe.Ipv4Packet.{Ipv4Packet}
use harmony_os_reverse_tethe.TransportHeader.{TransportHeaderData}
use harmony_os_reverse_tethe.Ipv4Header
use harmony_os_reverse_tethe.Ipv4Header.{Protocol, protocol_of}
use harmony_os_reverse_tethe.Ipv4Packet
use harmony_os_reverse_tethe.TransportHeader
use harmony_os_reverse_tethe.IpPacket.Checks.{
  check_transport-length, least_header, ihl, total, IsValidIpv4,
}

-- What the transport parser reads.
abbrev pub transport_of : Protocol → List ℕ → Option TransportHeaderData
transport_of Protocol.tcp payload = some (TransportHeader.tcp (TcpHeader.header_of payload))
transport_of Protocol.udp payload = some (TransportHeader.udp (UdpHeader.header_of payload))
transport_of Protocol.other payload = none

-- The packet that the parser makes of valid bytes.
abbrev pub ipv4_packet_of : List ℕ → Ipv4Packet
ipv4_packet_of raw = record {
  raw = slice 0 (total raw) raw;
  ipv4_header_data = Ipv4Header.header_of raw;
  transport_header_data =
      transport_of (protocol_of (byte raw 9)) (slice (ihl raw) (length raw) raw);
}

module _ {E : Type 0} ⦃order : ByteOrder⦄ where
  pub parse_transport :
      (p : Protocol) (payload : List ℕ)
      → least_header p ≤ length payload
      → TransportHeader.parse {E = E} p payload ≡ ok (transport_of p payload)
  parse_transport Protocol.tcp payload h = TransportHeader.parse_tcp payload h
  parse_transport Protocol.udp payload h = TransportHeader.parse_udp payload h
  parse_transport Protocol.other payload h = unfold TransportHeader.parse in refl

  pub parse_ipv4 :
      (raw : List ℕ) → IsValidIpv4 raw → Ipv4Packet.parse {E = E} raw ≡ ok (ipv4_packet_of raw)
  unfolding Ipv4Packet.parse
  parse_ipv4 raw v = ground (
    arith,
    Ipv4Header.parse-eq-ok {E = E} raw,
    subslice-eq-ok {E = E} raw (ihl raw) (length raw),
    parse_transport (protocol_of (byte raw 9)) (slice (ihl raw) (length raw) raw),
    check_transport-length (protocol_of (byte raw 9)) (slice (ihl raw) (total raw) raw) v.checked,
    subslice-eq-ok {E = E} raw 0 (total raw),
    length-slice (ihl raw) (total raw) raw,
    length-slice (ihl raw) (length raw) raw,
  )
