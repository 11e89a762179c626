-- ===== src/Ipv6Packetizer/Packetize.antt =====
-- `packetize` of relay/src/relay/ipv6_packetizer.rs: what it hands out, whatever is received.
use harmony_os_reverse_tethe.Prelude.{
  ℕ, ◌+◌, ◌-◌, ◌%◌, ◌^◌, ◌≤◌, ◌≡◌, refl, sym, ap, ◌∙◌, List, ◌++◌, length, All, take, drop, arith,
  ok, write_at, length-append, length-take, length-drop, take-append-drop,
}
use mathlib.Core.List.{append_assoc}
use harmony_os_reverse_tethe.Prelude.Layout.{write_at-middle}
use harmony_os_reverse_tethe.ByteOrder.{ByteOrder}
use harmony_os_reverse_tethe.ByteBuffer.{Source}
use harmony_os_reverse_tethe.IpPacket
use harmony_os_reverse_tethe.IpPacket.{ipv6}
use harmony_os_reverse_tethe.IpPacket.Framing.{IsByte}
use harmony_os_reverse_tethe.Checksum.{fold}
use harmony_os_reverse_tethe.Ipv6Header.{Ipv6HeaderData}
use harmony_os_reverse_tethe.Ipv6Packet
use harmony_os_reverse_tethe.Ipv6Packet.{Ipv6Packet}
use harmony_os_reverse_tethe.TransportHeader.{TransportHeaderData}
use harmony_os_reverse_tethe.Packetizer.{max_packet_length}
use harmony_os_reverse_tethe.Ipv6Packetizer.{Ipv6Packetizer, build, receive, packetize}
use harmony_os_reverse_tethe.Ipv6Packetizer.Layout.{laid_out}
use harmony_os_reverse_tethe.Ipv6Packetizer.Packet.{receiver_sum, parse-IsPacket, payload-IsPacket}
use harmony_os_reverse_tethe.Ipv6Packetizer.Laws.{IsValid, build-laid_out}

-- What stands behind the headers once bytes were received.
receive-laid_out :
    {E : Type 0} ⦃order : ByteOrder⦄ (header transport rest bytes : List ℕ) (ip : Ipv6HeaderData)
    (d : TransportHeaderData) (source : Source E)
    → length header ≡ 40
    → length bytes ≤ length rest
    → source (length (header ++ (transport ++ rest)) - (40 + length transport)) ≡ ok bytes
    → receive {E = E} (laid_out header transport rest ip d) source
      ≡ ok (laid_out header transport (bytes ++ drop (length bytes) rest) ip d, length bytes)
unfolding receive
receive-laid_out {E} header transport rest bytes ip d source sized fits given =
    let old = take (length bytes) rest in
    let more = drop (length bytes) rest in
    let laid : header ++ (transport ++ rest) ≡ (header ++ transport) ++ (old ++ more) =
      sym (append_assoc header transport rest)
      ∙ ap (λ l. (header ++ transport) ++ l) (sym (take-append-drop (length bytes) rest)) in
    let written : write_at {E = E} (header ++ (transport ++ rest)) (40 + length transport) bytes
        ≡ ok (header ++ (transport ++ (bytes ++ more))) =
      ap (λ l. write_at {E = E} l (40 + length transport) bytes) laid
      ∙ write_at-middle {E = E} (40 + length transport) (header ++ transport) old bytes more
          (omega (arith, length-append header transport))
          (omega (arith, length-take (length bytes) rest))
      ∙ ap ok (append_assoc header transport (bytes ++ more)) in
    rw (receive, given, written) refl

module _ {E : Type 0} ⦃order : ByteOrder⦄ (p : Ipv6Packetizer) (source : Source E) (bytes : List ℕ)
    (v : IsValid p) (given : source (length p.buffer - p.payload_index) ≡ ok bytes)
    (small : All IsByte bytes) (fits : p.payload_index + length bytes ≤ max_packet_length) where
  payload_index-IsValid : p.payload_index ≡ 40 + length v.transport
  payload_index-IsValid = ap (λ (p : Ipv6Packetizer). p.payload_index) v.laid

  packetize-build :
      packetize {E = E} p source
      ≡ build {E = E}
          (laid_out v.header v.transport
            (bytes ++ drop (length bytes) v.rest)
            p.ipv6_header_data
            p.transport_header_data)
          (length bytes)
  unfolding packetize
  packetize-build =
      let wraps : length bytes % 2 ^ 16 ≡ length bytes = omega (arith, payload_index-IsValid) in
      ap (λ p. packetize {E = E} p source) v.laid
      ∙ rw
          (
            packetize,
            receive-laid_out v.header v.transport v.rest bytes p.ipv6_header_data
                p.transport_header_data source v.is_header.sized
                (omega (arith, payload_index-IsValid, v.full))
                (ap (λ (p : Ipv6Packetizer). source (length p.buffer - p.payload_index))
                    (sym v.laid)
                  ∙ given),
            wraps,
          )
          refl

  -- A valid packetizer and a payload of bytes that the source gives, no longer than the room behind the headers,
  -- which is what the source is offered: no `expect` panics; the parser accepts the bytes of the packet, gives the
  -- very packet back, and its payload is what was received; a receiver's sum over pseudo header, transport header
  -- and payload folds to all ones; and the packetizer stays valid, with the same headers.
  pub packetize_ipv6-parse :
      (q : Ipv6Packetizer) × (packet : Ipv6Packet) × (packetize {E = E} p source ≡ ok (q, packet))
      × (IpPacket.parse packet.raw ≡ ok (ipv6 packet))
      × (Ipv6Packet.payload {E = E} packet ≡ ok bytes)
      × (fold 2 (receiver_sum packet.raw packet.ipv6_header_data.next_header) ≡ 2 ^ 16 - 1)
      × IsValid q
      × (q.ipv6_header_data ≡ p.ipv6_header_data)
      × (q.transport_header_data ≡ p.transport_header_data)
  packetize_ipv6-parse =
      let more = drop (length bytes) v.rest in
      let (h, t, is_header, is_transport, same, is_packet, runs) =
        build-laid_out {E = E} v.header v.transport bytes more p.ipv6_header_data
          p.transport_header_data v.is_header v.is_transport v.protocol small
          (omega (arith, payload_index-IsValid)) in
      (
        _,
        _,
        packetize-build ∙ runs,
        parse-IsPacket is_packet,
        payload-IsPacket is_packet {E = E},
        is_packet.sums,
        record {
          header = h;
          transport = t;
          rest = bytes ++ more;
          laid = refl;
          is_header = is_header;
          is_transport = is_transport;
          protocol = v.protocol;
          full = omega (
            arith,
            same,
            v.full,
            payload_index-IsValid,
            length-append bytes more,
            length-drop (length bytes) v.rest,
          );
        },
        refl,
        refl,
      )
