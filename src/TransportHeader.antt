-- ===== src/TransportHeader.antt =====
-- relay/src/relay/transport_header.rs: a TCP or a UDP header.
pub mod Edit
use harmony_os_reverse_tethe.Prelude.{
  ℕ, ◌≤◌, ◌≡◌, List, length, Option, none, some, Outcome, ok, ◌>>=◌,
}
use harmony_os_reverse_tethe.ByteOrder.{ByteOrder}
use harmony_os_reverse_tethe.Ipv4Header.{Protocol}
use harmony_os_reverse_tethe.TcpHeader
use harmony_os_reverse_tethe.TcpHeader.{TcpHeaderData}
use harmony_os_reverse_tethe.UdpHeader
use harmony_os_reverse_tethe.UdpHeader.{UdpHeaderData, udp_header_length}

pub data TransportHeaderData : Type 0 where
  tcp : TcpHeaderData → TransportHeaderData
  udp : UdpHeaderData → TransportHeaderData

abbrev pub source_port : TransportHeaderData → ℕ
source_port (tcp h) = h.source_port
source_port (udp h) = h.source_port

abbrev pub destination_port : TransportHeaderData → ℕ
destination_port (tcp h) = h.destination_port
destination_port (udp h) = h.destination_port

abbrev pub header_length : TransportHeaderData → ℕ
header_length (tcp h) = h.header_length
header_length (udp h) = udp_header_length

module _ {E : Type 0} ⦃order : ByteOrder⦄ where
  unfoldable pub parse : Protocol → List ℕ → Outcome E (Option TransportHeaderData)
  parse Protocol.udp raw = do h ← UdpHeader.parse raw; ok (some (udp h))
  parse Protocol.tcp raw = do h ← TcpHeader.parse raw; ok (some (tcp h))
  parse Protocol.other raw = ok none

  pub parse_tcp :
      (raw : List ℕ)
      → 20 ≤ length raw
      → parse Protocol.tcp raw ≡ ok (some (tcp (TcpHeader.header_of raw)))
  unfolding parse
  parse_tcp raw h = rw (TcpHeader.parse-eq-ok {E = E} raw h)

  pub parse_udp :
      (raw : List ℕ)
      → 8 ≤ length raw
      → parse Protocol.udp raw ≡ ok (some (udp (UdpHeader.header_of raw)))
  unfolding parse
  parse_udp raw h = rw (UdpHeader.parse-eq-ok {E = E} raw h)
