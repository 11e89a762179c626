-- ===== src/IpPacketBuffer.antt =====
-- relay/src/relay/ip_packet_buffer.rs: the packets in the bytes that come from the device.
pub mod Laws
use harmony_os_reverse_tethe.Prelude.{
  ℕ, List, length, Option, none, some, Bool, true, false, Outcome, ok, ◌>>=◌, subslice,
}
use harmony_os_reverse_tethe.ByteOrder.{ByteOrder}
use harmony_os_reverse_tethe.ByteBuffer
use harmony_os_reverse_tethe.ByteBuffer.{ByteBuffer, Source}
use harmony_os_reverse_tethe.IpPacket
use harmony_os_reverse_tethe.IpPacket.{IpPacket, max_ip_packet_length, front_packet_length}
use harmony_os_reverse_tethe.ParseError.{PacketParseError}

pub record IpPacketBuffer : Type 0 where
  pub buf : ByteBuffer

pub new : IpPacketBuffer
new = record { buf = ByteBuffer.new max_ip_packet_length }

unfoldable pub read_from :
    {E : Type 0} → IpPacketBuffer → Source E → Outcome E (IpPacketBuffer × Bool)
read_from b source = do
  result ← ByteBuffer.read_from b.buf source
  ok (record { buf = result.0 }, result.1)

unfoldable pub next_of : ByteBuffer → Option ℕ → Outcome PacketParseError (IpPacketBuffer × Bool)
next_of buf none = ok (record { buf = buf }, false)
next_of buf (some len) = do c ← ByteBuffer.consume buf len; ok (record { buf = c }, true)

-- Drops the packet in front, if there is one.
unfoldable pub next : IpPacketBuffer → Outcome PacketParseError (IpPacketBuffer × Bool)
unfolding next_of
next b = do len ← front_packet_length (ByteBuffer.peek b.buf); next_of b.buf len

module _ ⦃order : ByteOrder⦄ where
  unfoldable pub packet_of : List ℕ → Option ℕ → Outcome PacketParseError (Option IpPacket)
  packet_of bytes none = ok none
  packet_of bytes (some len) = do raw ← subslice bytes 0 len; p ← IpPacket.parse raw; ok (some p)

  -- The packet in front, once it is there as a whole.
  unfoldable pub packet : IpPacketBuffer → Outcome PacketParseError (Option IpPacket)
  unfolding packet_of
  packet b = do
    len ← front_packet_length (ByteBuffer.peek b.buf)
    packet_of (ByteBuffer.peek b.buf) len
