-- ===== src/Packetizer.antt =====
-- relay/src/relay/packetizer.rs: headers in front of a payload, in one buffer. The headers are those of a
-- reference packet with source and destination exchanged; only their lengths and checksums change. A `u16`
-- sum wraps around.
pub mod Header
pub mod Transport
pub mod Ports
pub mod Packet
pub mod Layout
pub mod Build
pub mod Laws
pub mod New
use harmony_os_reverse_tethe.Prelude.{
  ℕ, ◌+◌, ◌-◌, ◌%◌, ◌^◌, List, ltb, min, Bool, true, false, Option, none, some, length, replicate,
  Outcome, ok, ◌>>=◌, subslice, write_at, copy_from_slice,
}
use harmony_os_reverse_tethe.ByteOrder.{ByteOrder}
use harmony_os_reverse_tethe.ByteBuffer.{Source}
use harmony_os_reverse_tethe.Ipv4Header.{Ipv4HeaderData}
use harmony_os_reverse_tethe.Ipv4Header.Edit
use harmony_os_reverse_tethe.Ipv4Header.Edit.{Ipv4HeaderMut}
use harmony_os_reverse_tethe.TransportHeader
use harmony_os_reverse_tethe.TransportHeader.{TransportHeaderData}
use harmony_os_reverse_tethe.TransportHeader.Edit as TransportEdit
use harmony_os_reverse_tethe.TransportHeader.Edit.{TransportHeaderMut}
use harmony_os_reverse_tethe.Ipv4Packet.{Ipv4Packet}
use harmony_os_reverse_tethe.Ipv4Packet.Parts as PacketParts

abbrev pub max_packet_length : ℕ
max_packet_length = 2 ^ 16

pub record Packetizer : Type 0 where
  pub buffer : List ℕ
  pub transport_index : ℕ
  pub payload_index : ℕ
  pub ipv4_header_data : Ipv4HeaderData
  pub transport_header_data : TransportHeaderData

-- `[0; MAX_PACKET_LENGTH]`
unfoldable pub zeros : List ℕ
zeros = replicate max_packet_length 0

-- `ReadAdapter::recv` of relay/src/relay/datagram.rs.
unfoldable pub recv : {E : Type 0} → Option ℕ → Source E → Source E
recv none read len = read len
recv (some max_chunk_size) read len = read (min max_chunk_size len)

module _ {E : Type 0} where
  -- A change of the IPv4 header, through `ipv4_header_mut`.
  unfoldable pub with_ipv4_header :
      (Ipv4HeaderMut → Outcome E Ipv4HeaderMut) → Packetizer → Outcome E Packetizer
  with_ipv4_header change p = do
    raw ← subslice p.buffer 0 p.transport_index
    header ← change (record { raw = raw; header_data = p.ipv4_header_data })
    buffer ← write_at p.buffer 0 header.raw
    ok (record p { buffer = buffer; ipv4_header_data = header.header_data })

  -- A change of the transport header, through `transport_header_mut`.
  unfoldable pub with_transport_header :
      (TransportHeaderMut → Outcome E TransportHeaderMut) → Packetizer → Outcome E Packetizer
  with_transport_header change p = do
    raw ← subslice p.buffer p.transport_index p.payload_index
    header ← change (TransportEdit.bind p.transport_header_data raw)
    buffer ← write_at p.buffer p.transport_index (TransportEdit.raw_of header)
    ok (record p { buffer = buffer; transport_header_data = TransportEdit.data_clone header })

  -- The bytes of both references, copied in.
  unfoldable pub reference : Ipv4HeaderMut → TransportHeaderMut → Outcome E Packetizer
  reference ip transport = do
    let transport_index = ip.header_data.header_length
    let header = TransportEdit.data_clone transport
    let payload_index = transport_index + TransportHeader.header_length header
    once ← copy_from_slice zeros 0 transport_index ip.raw
    twice ← copy_from_slice once transport_index payload_index (TransportEdit.raw_of transport)
    ok (record {
      buffer = twice;
      transport_index = transport_index;
      payload_index = payload_index;
      ipv4_header_data = ip.header_data;
      transport_header_data = header;
    })

  unfoldable pub new : Ipv4HeaderMut → TransportHeaderMut → Outcome E Packetizer
  unfolding reference with_ipv4_header with_transport_header
  new ip transport = do
    p ← reference ip transport
    q ← with_ipv4_header Edit.swap_source_and_destination p
    with_transport_header TransportEdit.swap_source_and_destination q

  -- The packet that the first bytes of the buffer are.
  unfoldable pub inflate : Packetizer → ℕ → Outcome E Ipv4Packet
  inflate p packet_length = do
    raw ← subslice p.buffer 0 packet_length
    ok (PacketParts.new raw p.ipv4_header_data p.transport_header_data)

  module _ ⦃order : ByteOrder⦄ where
    -- The packet shares the buffer: its checksums are written there.
    unfoldable pub build : Packetizer → ℕ → Outcome E (Packetizer × Ipv4Packet)
    unfolding with_ipv4_header with_transport_header inflate
    build p payload_length = do
      let total_length = (p.payload_index + payload_length) % 2 ^ 16
      q ← with_ipv4_header (λ h. Edit.set_total_length h total_length) p
      r ← with_transport_header (λ h. TransportEdit.set_payload_length h payload_length) q
      bare ← inflate r total_length
      packet ← PacketParts.compute_checksums bare
      buffer ← write_at r.buffer 0 packet.raw
      ok (record r { buffer = buffer }, packet)

    unfoldable pub packetize_empty_payload : Packetizer → Outcome E (Packetizer × Ipv4Packet)
    unfolding build
    packetize_empty_payload p = build p 0

    -- What is received stands behind the headers.
    unfoldable pub receive : Packetizer → Source E → Outcome E (Packetizer × ℕ)
    receive p source = do
      bytes ← source (length p.buffer - p.payload_index)
      buffer ← write_at p.buffer p.payload_index bytes
      ok (record p { buffer = buffer }, length bytes)

    unfoldable pub packetize : Packetizer → Source E → Outcome E (Packetizer × Ipv4Packet)
    unfolding receive build
    packetize p source = do received ← receive p source; build received.0 (received.1 % 2 ^ 16)

    unfoldable pub read_packet : Packetizer × ℕ → Bool → Outcome E (Packetizer × Option Ipv4Packet)
    unfolding build
    read_packet received false = ok (received.0, none)
    read_packet received true = do
      built ← build received.0 (received.1 % 2 ^ 16)
      ok (built.0, some built.1)

    -- No packet at the end of the stream.
    unfoldable pub packetize_read :
        Packetizer → Option ℕ → Source E → Outcome E (Packetizer × Option Ipv4Packet)
    unfolding receive read_packet recv
    packetize_read p max_chunk_size read = do
      received ← receive p (recv max_chunk_size read)
      read_packet received (ltb 0 received.1)
