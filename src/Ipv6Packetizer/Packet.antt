-- ===== src/Ipv6Packetizer/Packet.antt =====
-- An IPv6 packet that a receiver accepts, and what the parser of relay/src/relay/ipv6_packet.rs makes of its bytes.
use mathlib.Core.List.{append_assoc, append-nil}
use harmony_os_reverse_tethe.Prelude.{
  ℕ, ◌+◌, ◌-◌, ◌/◌, ◌^◌, ◌≤◌, ◌<◌, ◌≡◌, refl, sym, ap, ◌∙◌, List, [], ◌++◌, length, drop, slice,
  byte, some, ◌==◌, true, false, get_elem?, get_elem?-eq-get_or, arith, ok, index-eq-ok, subslice,
  subslice-eq-ok, length-append,
}
use harmony_os_reverse_tethe.Prelude.Layout.{slice-append_front, subslice-middle, subslice-start}
use harmony_os_reverse_tethe.ByteOrder.{ByteOrder, u16_at, read_u16_at-eq-ok}
use harmony_os_reverse_tethe.ParseError.{PacketParseError}
use harmony_os_reverse_tethe.IpPacket
use harmony_os_reverse_tethe.IpPacket.{ipv6}
use harmony_os_reverse_tethe.IpPacket.Framing.{byte-append}
use harmony_os_reverse_tethe.IpPacket.Ipv4.{parse_transport}
use harmony_os_reverse_tethe.Checksum.{fold, word_sum}
use harmony_os_reverse_tethe.Checksum.Words.{words}
use harmony_os_reverse_tethe.Ipv6Header
use harmony_os_reverse_tethe.Ipv6Header.{Ipv6HeaderData, Ipv6HeaderError}
use harmony_os_reverse_tethe.Ipv6Packet
use harmony_os_reverse_tethe.Ipv6Packet.{Ipv6Packet}
use harmony_os_reverse_tethe.TransportHeader
use harmony_os_reverse_tethe.TransportHeader.{TransportHeaderData}
use harmony_os_reverse_tethe.Packetizer.Transport.{IsTransport, protocol_of, Counts}
use harmony_os_reverse_tethe.Packetizer.Packet.{check_transport-ok, data_of-append, least_header-le}
use harmony_os_reverse_tethe.Ipv6Packetizer.{upper_layer}
use harmony_os_reverse_tethe.Ipv6Packetizer.Parts.{IsHeader}

-- A receiver's sum: the addresses, the length and the next header, and everything behind the header.
abbrev pub receiver_sum : List ℕ → ℕ → ℕ
receiver_sum raw next_header =
    words raw 4 16 + upper_layer (length raw - 40) next_header + word_sum (drop 40 raw)

pub record IsPacket (raw payload : List ℕ) (ip : Ipv6HeaderData) (d : TransportHeaderData)
    : Type 0 where
  pub header : List ℕ
  pub transport : List ℕ
  pub laid : raw ≡ header ++ (transport ++ payload)
  pub is_header : IsHeader header ip
  pub is_transport : IsTransport transport d
  pub protocol : Ipv6Packet.protocol_of ip.next_header ≡ ok (protocol_of d)
  pub counted : u16_at header 4 ≡ length transport + length payload
  pub counts : Counts d transport (length payload)
  pub sums : fold 2 (receiver_sum raw ip.next_header) ≡ 2 ^ 16 - 1

-- The packet with these bytes and headers.
abbrev pub packet_of : List ℕ → Ipv6HeaderData → TransportHeaderData → Ipv6Packet
packet_of raw ip d = record {
  raw = raw;
  ipv6_header_data = record ip { payload_length = length raw - 40 };
  transport_header_data = d;
}

module _ {raw payload : List ℕ} {ip : Ipv6HeaderData} {d : TransportHeaderData}
    (v : IsPacket raw payload ip d) where
  at_header : (k : ℕ) → k < 40 → byte raw k ≡ byte v.header k
  at_header k h =
      ap (λ l. byte l k) v.laid
      ∙ byte-append v.header (v.transport ++ payload) k (omega (arith, v.is_header.sized))

  length-raw : length raw ≡ 40 + (length v.transport + length payload)
  length-raw = omega (
    arith,
    v.is_header.sized,
    ap length v.laid,
    length-append v.header (v.transport ++ payload),
    length-append v.transport payload,
  )

  payload_length-raw : u16_at raw 4 ≡ length raw - 40
  payload_length-raw =
      omega (arith, at_header 4 (omega arith), at_header 5 (omega arith), v.counted, length-raw)

  slice-raw : (i j : ℕ) → i ≤ j → j ≤ 40 → slice i j raw ≡ slice i j v.header
  slice-raw i j h k =
      ap (slice i j) v.laid
      ∙ slice-append_front i j v.header (v.transport ++ payload) h
          (omega (arith, v.is_header.sized))

  module _ ⦃order : ByteOrder⦄ where
    header_parses : Ipv6Header.parse raw ≡ ok (record ip { payload_length = length raw - 40 })
    unfolding Ipv6Header.parse
    header_parses = ground (
      arith,
      length-raw,
      payload_length-raw,
      index-eq-ok {E = Ipv6HeaderError} raw 0,
      read_u16_at-eq-ok {E = Ipv6HeaderError} raw 4,
      index-eq-ok {E = Ipv6HeaderError} raw 6,
      subslice-eq-ok {E = Ipv6HeaderError} raw 8 24,
      subslice-eq-ok {E = Ipv6HeaderError} raw 24 40,
      at_header 0,
      at_header 6,
      v.is_header.version,
      v.is_header.next,
      v.is_header.source ∙ sym (slice-raw 8 24 (omega arith) (omega arith)),
      v.is_header.destination ∙ sym (slice-raw 24 40 (omega arith) (omega arith)),
    )

    -- The parser gives back the packet.
    pub parse_ipv6-IsPacket : Ipv6Packet.parse raw ≡ ok (packet_of raw ip d)
    unfolding Ipv6Packet.parse
    parse_ipv6-IsPacket =
        let total : 40 + (length raw - 40) ≡ length raw = omega (arith, length-raw) in
        let segment : subslice {E = PacketParseError} raw 40 (length raw)
            ≡ ok (v.transport ++ payload) =
          ap (λ l. subslice {E = PacketParseError} l 40 (length raw))
            (v.laid ∙ ap (λ l. v.header ++ l) (sym (append-nil (v.transport ++ payload))))
          ∙ subslice-middle {E = PacketParseError} 40 (length raw) v.header (v.transport ++ payload)
              [] v.is_header.sized (omega (arith, length-raw, length-append v.transport payload)) in
        let front : subslice {E = PacketParseError} raw 0 (length raw) ≡ ok raw =
          ap (λ l. subslice {E = PacketParseError} l 0 (length raw)) (sym (append-nil raw))
          ∙ subslice-start {E = PacketParseError} (length raw) raw [] refl in
        rw
          (
            Ipv6Packet.parse,
            header_parses,
            v.protocol,
            total,
            segment,
            check_transport-ok d v.transport payload v.is_transport v.counts,
            parse_transport {E = PacketParseError} (protocol_of d) (v.transport ++ payload)
                (least_header-le d v.transport payload v.is_transport),
            data_of-append d v.transport payload v.is_transport,
            front,
          )
          refl

    pub parse-IsPacket : IpPacket.parse raw ≡ ok (ipv6 (packet_of raw ip d))
    unfolding IpPacket.parse
    parse-IsPacket =
        let first : get_elem? raw 0 ≡ some (byte raw 0) =
          get_elem?-eq-get_or raw 0 0 (omega (arith, length-raw)) in
        let six : byte raw 0 / 2 ^ 4 ≡ 6 =
          omega (arith, at_header 0 (omega arith), v.is_header.version) in
        let not_four : (byte raw 0 / 2 ^ 4 == 4) ≡ false = ground arith in
        let is_six : (byte raw 0 / 2 ^ 4 == 6) ≡ true = ground arith in
        rw (IpPacket.parse, first, IpPacket.parse_version, not_four, is_six, parse_ipv6-IsPacket)
          refl

  pub payload-IsPacket : {E : Type 0} → Ipv6Packet.payload {E = E} (packet_of raw ip d) ≡ ok payload
  unfolding Ipv6Packet.payload
  payload-IsPacket {E} =
      ap (λ l. subslice {E = E} l (40 + TransportHeader.header_length d) (length raw))
        (v.laid
          ∙ sym (append_assoc v.header v.transport payload)
          ∙ ap (λ l. (v.header ++ v.transport) ++ l) (sym (append-nil payload)))
      ∙ subslice-middle {E = E} (40 + TransportHeader.header_length d) (length raw)
          (v.header ++ v.transport) payload []
          (omega
            (arith, length-append v.header v.transport, v.is_header.sized, v.is_transport.sized))
          (omega (arith, length-raw, v.is_transport.sized))
