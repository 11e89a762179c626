-- ===== src/Ipv6Packetizer.antt =====
-- relay/src/relay/ipv6_packetizer.rs: an IPv6 header and a transport header in front of a payload, in one buffer, with the
-- transport checksum over the pseudo header of RFC 8200. A `u16` sum wraps around.
pub mod Checksum
pub mod Parts
pub mod Layout
pub mod Packet
pub mod Build
pub mod Laws
pub mod Packetize
pub mod New
use harmony_os_reverse_tethe.Prelude.{
  ℕ, ◌+◌, ◌-◌, ◌/◌, ◌%◌, ◌^◌, List, ltb, ◌==◌, if◌then◌else◌, Bool, true, false, Option, none, some,
  length, Outcome, ok, err, panic, ◌>>=◌, subslice, write_at, copy_from_slice,
}
use harmony_os_reverse_tethe.ByteOrder.{ByteOrder}
use harmony_os_reverse_tethe.ByteBuffer.{Source}
use harmony_os_reverse_tethe.Checksum.{fold, complement, word_sum}
use harmony_os_reverse_tethe.Checksum.Words.{read_words}
use harmony_os_reverse_tethe.Ipv4Header.{Protocol}
use harmony_os_reverse_tethe.Ipv6Header
use harmony_os_reverse_tethe.Ipv6Header.{Ipv6HeaderData, ipv6_header_length}
use harmony_os_reverse_tethe.Ipv6Packet
use harmony_os_reverse_tethe.Ipv6Packet.{Ipv6Packet}
use harmony_os_reverse_tethe.TransportHeader
use harmony_os_reverse_tethe.TransportHeader.{TransportHeaderData}
use harmony_os_reverse_tethe.TransportHeader.Edit as TransportEdit
use harmony_os_reverse_tethe.TransportHeader.Edit.{TransportHeaderMut}
use harmony_os_reverse_tethe.Packetizer.{zeros, recv}

-- `Ipv6Header`, a header's bytes with its fields.
pub record Ipv6HeaderRef : Type 0 where
  pub raw : List ℕ
  pub header_data : Ipv6HeaderData

pub record Ipv6Packetizer : Type 0 where
  pub buffer : List ℕ
  pub payload_index : ℕ
  pub ipv6_header_data : Ipv6HeaderData
  pub transport_header_data : TransportHeaderData
  pub protocol : Protocol

-- `Result::expect`
abbrev pub expect : {E F A : Type 0} → Outcome F A → Outcome E A
expect (ok a) = ok a
expect (err e) = panic
expect panic = panic

-- `match next_header` of `new`.
unfoldable pub reply_protocol : ℕ → Protocol
reply_protocol next_header = if next_header == 6 then Protocol.tcp else Protocol.udp

unfoldable pub checksum_offset : Protocol → ℕ
checksum_offset Protocol.tcp = 16
checksum_offset Protocol.udp = 6
checksum_offset Protocol.other = 6

-- A UDP checksum of zero is sent as all ones.
unfoldable pub sent_checksum : Protocol → ℕ → ℕ
sent_checksum Protocol.tcp checksum = checksum
sent_checksum Protocol.udp checksum = if checksum == 0 then 0xffff else checksum
sent_checksum Protocol.other checksum = checksum

-- What the pseudo header adds besides the addresses.
abbrev pub upper_layer : ℕ → ℕ → ℕ
upper_layer transport_length next_header =
    transport_length / 2 ^ 16 + transport_length % 2 ^ 16 + next_header

module _ {E : Type 0} where
  -- The copied transport header, with its ports exchanged.
  unfoldable pub swap_ports :
      List ℕ → ℕ → ℕ → TransportHeaderData → Outcome E (List ℕ × TransportHeaderData)
  swap_ports buffer start end_ header = do
    raw ← subslice buffer start end_
    swapped ← TransportEdit.swap_source_and_destination (TransportEdit.bind header raw)
    after ← write_at buffer start (TransportEdit.raw_of swapped)
    ok (after, TransportEdit.data_clone swapped)

  module _ ⦃order : ByteOrder⦄ where
    unfoldable pub new : Ipv6HeaderRef → TransportHeaderMut → Outcome E Ipv6Packetizer
    unfolding swap_ports reply_protocol zeros
    new ip transport = do
      let reference = TransportEdit.data_clone transport
      let payload_index = ipv6_header_length + TransportHeader.header_length reference
      a ← copy_from_slice zeros 0 ipv6_header_length ip.raw
      b ← copy_from_slice a 8 24 ip.header_data.destination
      c ← copy_from_slice b 24 40 ip.header_data.source
      d ← copy_from_slice c ipv6_header_length payload_index (TransportEdit.raw_of transport)
      swapped ← swap_ports d ipv6_header_length payload_index reference
      raw ← subslice swapped.0 0 ipv6_header_length
      header ← expect (Ipv6Header.parse_header_only raw)
      ok (record {
        buffer = swapped.0;
        payload_index = payload_index;
        ipv6_header_data = header;
        transport_header_data = swapped.1;
        protocol = reply_protocol ip.header_data.next_header;
      })

    unfoldable pub update_checksum : Ipv6Packetizer → ℕ → Outcome E Ipv6Packetizer
    unfolding checksum_offset sent_checksum fold read_words
    update_checksum p total_length = do
      let checksum_index = ipv6_header_length + checksum_offset p.protocol
      reset ← write_at p.buffer checksum_index (order.write_u16 0)
      addresses ← read_words reset 4 16
      transport ← subslice reset ipv6_header_length total_length
      let sum =
          addresses
          + upper_layer (total_length - ipv6_header_length) p.ipv6_header_data.next_header
          + word_sum transport
      let checksum = sent_checksum p.protocol (complement (fold 2 sum))
      summed ← write_at reset checksum_index (order.write_u16 checksum)
      ok (record p { buffer = summed })

    unfoldable pub set_lengths : Ipv6Packetizer → ℕ → ℕ → Outcome E Ipv6Packetizer
    set_lengths p transport_length payload_length = do
      counted ← write_at p.buffer 4 (order.write_u16 transport_length)
      raw ← subslice counted ipv6_header_length p.payload_index
      header ←
          TransportEdit.set_payload_length (TransportEdit.bind p.transport_header_data raw)
            payload_length
      buffer ← write_at counted ipv6_header_length (TransportEdit.raw_of header)
      ok (record p { buffer = buffer; transport_header_data = TransportEdit.data_clone header })

    unfoldable pub build : Ipv6Packetizer → ℕ → Outcome E (Ipv6Packetizer × Ipv6Packet)
    unfolding set_lengths update_checksum
    build p payload_length = do
      let transport_length =
          ((p.payload_index - ipv6_header_length) % 2 ^ 16 + payload_length) % 2 ^ 16
      let total_length = ipv6_header_length + transport_length
      q ← set_lengths p transport_length payload_length
      r ← update_checksum q total_length
      raw ← subslice r.buffer 0 total_length
      packet ← expect (Ipv6Packet.parse raw)
      ok (r, packet)

    unfoldable pub packetize_empty_payload :
        Ipv6Packetizer → Outcome E (Ipv6Packetizer × Ipv6Packet)
    unfolding build
    packetize_empty_payload p = build p 0

    unfoldable pub receive : Ipv6Packetizer → Source E → Outcome E (Ipv6Packetizer × ℕ)
    receive p source = do
      bytes ← source (length p.buffer - p.payload_index)
      buffer ← write_at p.buffer p.payload_index bytes
      ok (record p { buffer = buffer }, length bytes)

    unfoldable pub packetize : Ipv6Packetizer → Source E → Outcome E (Ipv6Packetizer × Ipv6Packet)
    unfolding receive build
    packetize p source = do received ← receive p source; build received.0 (received.1 % 2 ^ 16)

    unfoldable pub read_packet :
        Ipv6Packetizer × ℕ → Bool → Outcome E (Ipv6Packetizer × Option Ipv6Packet)
    unfolding build
    read_packet received false = ok (received.0, none)
    read_packet received true = do
      built ← build received.0 (received.1 % 2 ^ 16)
      ok (built.0, some built.1)

    -- No packet at the end of the stream.
    unfoldable pub packetize_read :
        Ipv6Packetizer → Option ℕ → Source E → Outcome E (Ipv6Packetizer × Option Ipv6Packet)
    unfolding receive read_packet recv
    packetize_read p max_chunk_size read = do
      received ← receive p (recv max_chunk_size read)
      read_packet received (ltb 0 received.1)
