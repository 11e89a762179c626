-- ===== src/Tests/Packets.antt =====
-- A UDP datagram in an IPv4 packet, parsed and framed.
use harmony_os_reverse_tethe.Prelude.{
  ℕ, zero, suc, ◌-◌, ◌+◌, ◌^◌, ◌≤◌, ◌≡◌, ◌≢◌, ◌⊎◌, true, List, [], ◌∷◌, ◌++◌, length, drop, take,
  some, ok, err, panic, refl, arith, All, replicate, length-replicate, index, subslice, take_all,
}
use harmony_os_reverse_tethe.ByteOrder.{big_endian, read_u16_at, read_u32_at}
use harmony_os_reverse_tethe.ByteBuffer
use harmony_os_reverse_tethe.Ipv4Header
use harmony_os_reverse_tethe.UdpHeader
use harmony_os_reverse_tethe.TransportHeader
use harmony_os_reverse_tethe.Ipv4Packet
use harmony_os_reverse_tethe.Ipv6Packet
use harmony_os_reverse_tethe.IpPacket
use harmony_os_reverse_tethe.IpPacket.Safe
use harmony_os_reverse_tethe.IpPacket.Framing.{IsByte}
use harmony_os_reverse_tethe.IpPacketBuffer
use harmony_os_reverse_tethe.ParseError.{PacketParseError}
use harmony_os_reverse_tethe.IpPacketBuffer.Laws.{packet-next, packet_full, bytes}

-- Header 20 bytes, protocol 17, ports 1 and 2, no payload.
abbrev pub datagram : List ℕ
datagram =
    0x45 ∷ 0 ∷ 0 ∷ 28 ∷ 0 ∷ 0 ∷ 0 ∷ 0 ∷ 0 ∷ 17 ∷ 0 ∷ 0 ∷ 10 ∷ 0 ∷ 0 ∷ 1 ∷ 10 ∷ 0 ∷ 0 ∷ 2 ∷ 0 ∷ 1 ∷ 0
    ∷ 2 ∷ 0 ∷ 8 ∷ 0 ∷ 0 ∷ []

parse-ne-panic_example : IpPacket.parse datagram ≢ panic
parse-ne-panic_example = IpPacket.Safe.parse-ne-panic datagram

abbrev pub parsed : IpPacket.IpPacket
parsed = IpPacket.ipv4 (record {
  raw = datagram;
  ipv4_header_data = Ipv4Header.header_of datagram;
  transport_header_data = some (TransportHeader.udp (UdpHeader.header_of (drop 20 datagram)));
})

pub front-datagram : IpPacket.front_packet_length datagram ≡ ok (some 28)
unfolding IpPacket.front_packet_length IpPacket.front_ipv4 index
front-datagram = refl

pub parse-datagram : IpPacket.parse datagram ≡ ok parsed
unfolding IpPacket.parse IpPacket.parse_version IpPacket.validate_ipv4 Ipv6Packet.check_transport
    Ipv4Packet.parse Ipv4Header.parse Ipv4Header.protocol_of TransportHeader.parse UdpHeader.parse
    read_u16_at read_u32_at index subslice
parse-datagram = refl

-- The datagram, and two bytes of the next packet.
abbrev pub stream : IpPacketBuffer.IpPacketBuffer
stream = record { buf = record { buf = datagram ++ 0x45 ∷ 0 ∷ 9 ∷ 9 ∷ []; head = 30 } }

packet-stream : IpPacketBuffer.packet stream ≡ ok (some parsed)
unfolding IpPacketBuffer.packet IpPacketBuffer.packet_of ByteBuffer.peek
    IpPacket.front_packet_length IpPacket.front_ipv4 IpPacket.parse IpPacket.parse_version
    IpPacket.validate_ipv4 Ipv6Packet.check_transport Ipv4Packet.parse Ipv4Header.parse
    Ipv4Header.protocol_of TransportHeader.parse UdpHeader.parse read_u16_at read_u32_at index
    subslice
packet-stream = refl

packet-next_example :
    (c : IpPacketBuffer.IpPacketBuffer) × (IpPacketBuffer.next stream ≡ ok (c, true))
    × (bytes stream ≡ datagram ++ bytes c)
    × (20 ≤ 28)
    × (c.buf.head ≤ length c.buf.buf)
packet-next_example = packet-next stream (omega arith) packet-stream

-- A buffer full of zeros.
abbrev full_buffer : IpPacketBuffer.IpPacketBuffer
full_buffer = record {
  buf = record { buf = replicate (40 + (2 ^ 16 - 1)) 0; head = 40 + (2 ^ 16 - 1) };
}

bytes-full_buffer : bytes full_buffer ≡ replicate (40 + (2 ^ 16 - 1)) 0
unfolding ByteBuffer.peek
bytes-full_buffer =
    take_all (40 + (2 ^ 16 - 1)) (replicate (40 + (2 ^ 16 - 1)) 0)
      (omega (arith, length-replicate {0} {A = ℕ} (40 + (2 ^ 16 - 1)) 0))

replicate-IsByte : (n : ℕ) → All IsByte (replicate n 0)
replicate-IsByte zero = tt
replicate-IsByte (suc n) = (omega arith, replicate-IsByte n)

packet_full_example :
    ((p : IpPacket.IpPacket) × (IpPacketBuffer.packet full_buffer ≡ ok (some p))
      × (IpPacket.raw_of p ≡ take (IpPacket.packet_length p) (bytes full_buffer)))
    ⊎ ((reason : PacketParseError) × (IpPacketBuffer.packet full_buffer ≡ err reason))
packet_full_example =
    packet_full full_buffer (rw bytes-full_buffer (replicate-IsByte (40 + (2 ^ 16 - 1))))
      (rw bytes-full_buffer (omega (arith, length-replicate {0} {A = ℕ} (40 + (2 ^ 16 - 1)) 0)))
