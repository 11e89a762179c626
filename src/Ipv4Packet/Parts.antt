-- ===== src/Ipv4Packet/Parts.antt =====
-- The parts of a packet in relay/src/relay/ipv4_packet.rs: the headers, each with its bytes, and the payload. What is
-- changed in a mutable part is written back to the packet's bytes.
use harmony_os_reverse_tethe.Prelude.{
  ℕ, ◌+◌, List, length, Option, none, some, Outcome, ok, ◌>>=◌, subslice, write_at,
}
use harmony_os_reverse_tethe.ByteOrder.{ByteOrder}
use harmony_os_reverse_tethe.Ipv4Header.{Ipv4HeaderData}
use harmony_os_reverse_tethe.Ipv4Header.Edit.{Ipv4HeaderMut}
use harmony_os_reverse_tethe.Ipv4Header.Checksum as Ipv4Checksum
use harmony_os_reverse_tethe.TransportHeader
use harmony_os_reverse_tethe.TransportHeader.{TransportHeaderData}
use harmony_os_reverse_tethe.TransportHeader.Edit as TransportEdit
use harmony_os_reverse_tethe.TransportHeader.Edit.{TransportHeaderMut}
use harmony_os_reverse_tethe.Ipv4Packet.{Ipv4Packet}

-- `Ipv4Packet::new`
unfoldable pub new : List ℕ → Ipv4HeaderData → TransportHeaderData → Ipv4Packet
new raw ip transport = record {
  raw = raw;
  ipv4_header_data = ip;
  transport_header_data = some transport;
}

-- The transport header and the payload.
abbrev pub Transport : Type 0
Transport = Option (TransportHeaderMut × List ℕ)

module _ {E : Type 0} where
  unfoldable pub ipv4_header : Ipv4Packet → Outcome E Ipv4HeaderMut
  ipv4_header p = do
    slice ← subslice p.raw 0 p.ipv4_header_data.header_length
    ok (record { raw = slice; header_data = p.ipv4_header_data })

  unfoldable pub transport_header_at :
      Ipv4Packet → Option TransportHeaderData → Outcome E (Option TransportHeaderMut)
  transport_header_at p none = ok none
  transport_header_at p (some transport) = do
    let start = p.ipv4_header_data.header_length
    slice ← subslice p.raw start (start + TransportHeader.header_length transport)
    ok (some (TransportEdit.bind transport slice))

  unfoldable pub transport_header : Ipv4Packet → Outcome E (Option TransportHeaderMut)
  unfolding transport_header_at
  transport_header p = transport_header_at p p.transport_header_data

  unfoldable pub headers : Ipv4Packet → Outcome E (Ipv4HeaderMut × Option TransportHeaderMut)
  unfolding ipv4_header transport_header
  headers p = do ip ← ipv4_header p; transport ← transport_header p; ok (ip, transport)

  unfoldable pub split_transport : Ipv4Packet → Option TransportHeaderData → Outcome E Transport
  split_transport p none = ok none
  split_transport p (some transport) = do
    behind ← subslice p.raw p.ipv4_header_data.header_length (length p.raw)
    header ← subslice behind 0 (TransportHeader.header_length transport)
    payload ← subslice behind (TransportHeader.header_length transport) (length behind)
    ok (some (TransportEdit.bind transport header, payload))

  -- `split`, and `split_mut`, whose parts may be changed.
  unfoldable pub split : Ipv4Packet → Outcome E (Ipv4HeaderMut × Transport)
  unfolding ipv4_header split_transport
  split p = do
    ip ← ipv4_header p
    transport ← split_transport p p.transport_header_data
    ok (ip, transport)

  module _ ⦃order : ByteOrder⦄ where
    unfoldable pub transport_checksum :
        Ipv4HeaderData → Ipv4Packet → Transport → Outcome E Ipv4Packet
    transport_checksum ip p none = ok p
    transport_checksum ip p (some (header, payload)) = do
      summed ← TransportEdit.update_checksum header ip payload
      raw ← write_at p.raw ip.header_length (TransportEdit.raw_of summed)
      ok (record p { raw = raw })

    unfoldable pub compute_checksums : Ipv4Packet → Outcome E Ipv4Packet
    unfolding split transport_checksum
    compute_checksums p = do
      parts ← split p
      ip ← Ipv4Checksum.update_checksum parts.0
      raw ← write_at p.raw 0 ip.raw
      transport_checksum ip.header_data (record p { raw = raw }) parts.1
