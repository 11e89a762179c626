-- ===== src/TransportHeader/Edit.antt =====
-- `TransportHeader` and `TransportHeaderMut` of relay/src/relay/transport_header.rs: a header's bytes with its fields. The
-- two differ in what may be changed, and are one type here.
use harmony_os_reverse_tethe.Prelude.{ℕ, List, Outcome, ok, ◌>>=◌}
use harmony_os_reverse_tethe.ByteOrder.{ByteOrder}
use harmony_os_reverse_tethe.Ipv4Header.{Ipv4HeaderData}
use harmony_os_reverse_tethe.TcpHeader.Edit
use harmony_os_reverse_tethe.TcpHeader.Edit.{TcpHeaderMut}
use harmony_os_reverse_tethe.TcpHeader.Checksum as TcpChecksum
use harmony_os_reverse_tethe.UdpHeader.Edit as UdpEdit
use harmony_os_reverse_tethe.UdpHeader.Edit.{UdpHeaderMut}
use harmony_os_reverse_tethe.TransportHeader.{TransportHeaderData}

pub data TransportHeaderMut : Type 0 where
  tcp : TcpHeaderMut → TransportHeaderMut
  udp : UdpHeaderMut → TransportHeaderMut

-- `TransportHeaderMut::new`, which `bind` and `bind_mut` call.
unfoldable pub bind : TransportHeaderData → List ℕ → TransportHeaderMut
bind (TransportHeaderData.tcp h) raw = tcp (record { raw = raw; header_data = h })
bind (TransportHeaderData.udp h) raw = udp (record { raw = raw; header_data = h })

unfoldable pub raw_of : TransportHeaderMut → List ℕ
raw_of (tcp h) = h.raw
raw_of (udp h) = h.raw

unfoldable pub data_clone : TransportHeaderMut → TransportHeaderData
data_clone (tcp h) = TransportHeaderData.tcp h.header_data
data_clone (udp h) = TransportHeaderData.udp h.header_data

unfoldable pub swap_source_and_destination :
    {E : Type 0} → TransportHeaderMut → Outcome E TransportHeaderMut
swap_source_and_destination (tcp h) = do
  swapped ← Edit.swap_source_and_destination h
  ok (tcp swapped)
swap_source_and_destination (udp h) = do
  swapped ← UdpEdit.swap_source_and_destination h
  ok (udp swapped)

module _ {E : Type 0} ⦃order : ByteOrder⦄ where
  -- TCP does not store the length of its payload.
  unfoldable pub set_payload_length : TransportHeaderMut → ℕ → Outcome E TransportHeaderMut
  set_payload_length (tcp h) payload_length = ok (tcp h)
  set_payload_length (udp h) payload_length = do
    edited ← UdpEdit.set_payload_length h payload_length
    ok (udp edited)

  unfoldable pub update_checksum :
      TransportHeaderMut → Ipv4HeaderData → List ℕ → Outcome E TransportHeaderMut
  update_checksum (tcp h) ip payload = do
    summed ← TcpChecksum.update_checksum h ip payload
    ok (tcp summed)
  update_checksum (udp h) ip payload = do summed ← UdpEdit.update_checksum h; ok (udp summed)
