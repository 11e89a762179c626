-- ===== src/Packetizer/Laws.antt =====
-- What `packetize` hands out, read back by the parser of relay/src/relay/ip_packet.rs.
use mathlib.Core.List.{append_assoc}
use harmony_os_reverse_tethe.Prelude.{
  ℕ, ◌+◌, ◌-◌, ◌%◌, ◌^◌, ◌≤◌, ◌<◌, ◌≡◌, refl, sym, ap, ◌∙◌, List, ◌++◌, length, All, some, arith,
  ok, write_at, length-append, length-take, length-drop, take, drop, take-append-drop,
}
use harmony_os_reverse_tethe.Prelude.Layout.{write_at-middle}
use harmony_os_reverse_tethe.ByteOrder.{ByteOrder}
use harmony_os_reverse_tethe.ByteBuffer.{Source}
use harmony_os_reverse_tethe.IpPacket
use harmony_os_reverse_tethe.IpPacket.{ipv4}
use harmony_os_reverse_tethe.IpPacket.Framing.{IsByte}
use harmony_os_reverse_tethe.Ipv4Packet
use harmony_os_reverse_tethe.Ipv4Packet.{Ipv4Packet}
use harmony_os_reverse_tethe.Ipv4Packet.Parts
use harmony_os_reverse_tethe.Ipv4Header.{Ipv4HeaderData}
use harmony_os_reverse_tethe.TransportHeader.{TransportHeaderData}
use harmony_os_reverse_tethe.Packetizer.{
  Packetizer, max_packet_length, build, inflate, receive, packetize,
}
use harmony_os_reverse_tethe.Packetizer.Packet.{IsPacket, parse-IsPacket, payload-IsPacket}
use harmony_os_reverse_tethe.Packetizer.Build.{IsValid, build-laid_out}
use harmony_os_reverse_tethe.Packetizer.Layout.{laid_out, inflate-laid_out}

-- The packet in front of a packetizer's buffer.
pub record Holds (E : Type 0) (q : Packetizer) (payload : List ℕ) (ip : Ipv4HeaderData)
    (d : TransportHeaderData) (packet : Ipv4Packet) : Type 0 where
  pub valid : IsValid q
  pub is_new : packet ≡ Parts.new packet.raw ip d
  pub is_packet : IsPacket packet.raw payload ip d
  pub inflates : inflate {E = E} q (length packet.raw) ≡ ok packet

module _ {E : Type 0} ⦃order : ByteOrder⦄ where
  -- What is received stands behind the headers.
  receive-laid_out :
      (header transport rest bytes : List ℕ) (ip : Ipv4HeaderData) (d : TransportHeaderData)
      (source : Source E)
      → length bytes ≤ length rest
      → source (length (header ++ (transport ++ rest)) - (length header + length transport))
        ≡ ok bytes
      → receive {E = E} (laid_out header transport rest ip d) source
        ≡ ok (laid_out header transport (bytes ++ drop (length bytes) rest) ip d, length bytes)
  unfolding receive
  receive-laid_out header transport rest bytes ip d source fits given =
      let old = take (length bytes) rest in
      let more = drop (length bytes) rest in
      let laid : header ++ (transport ++ rest) ≡ (header ++ transport) ++ (old ++ more) =
        sym (append_assoc header transport rest)
        ∙ ap (λ l. (header ++ transport) ++ l) (sym (take-append-drop (length bytes) rest)) in
      let written : write_at {E = E} (header ++ (transport ++ rest))
            (length header + length transport) bytes
          ≡ ok (header ++ (transport ++ (bytes ++ more))) =
        ap (λ l. write_at {E = E} l (length header + length transport) bytes) laid
        ∙ write_at-middle {E = E} (length header + length transport) (header ++ transport) old bytes
            more (length-append header transport) (omega (arith, length-take (length bytes) rest))
        ∙ ap ok (append_assoc header transport (bytes ++ more)) in
      rw (receive, given, written) refl

  -- A build of a valid packetizer, with the payload behind the headers.
  build-Holds :
      (p : Packetizer) (v : IsValid p) (bytes more : List ℕ) (total : ℕ)
      → total ≡ length v.header + length v.transport + length bytes
      → All IsByte bytes
      → length v.header + length v.transport + length bytes < 2 ^ 16
      → length v.header + length v.transport + length (bytes ++ more) ≡ max_packet_length
      → (q : Packetizer) × (packet : Ipv4Packet) × (build {E = E}
            (laid_out v.header v.transport
              (bytes ++ more)
              p.ipv4_header_data
              p.transport_header_data)
            (length bytes)
          ≡ ok (q, packet))
        × Holds E q bytes
            (record p.ipv4_header_data { total_length = total })
            p.transport_header_data
            packet
  unfolding Parts.new
  build-Holds p v bytes more total is_total small fits full =
      let ip = p.ipv4_header_data in
      let d = p.transport_header_data in
      let counted = record ip { total_length = total } in
      let (h, t, same, same', is_header, is_transport, is_packet, runs) =
        build-laid_out {E = E} v.header v.transport bytes more ip d v.is_header v.is_transport
          v.protocol small fits total is_total in
      let inflated : inflate {E = E} (laid_out h t (bytes ++ more) counted d)
            (length (h ++ (t ++ bytes)))
          ≡ ok (Parts.new (h ++ (t ++ bytes)) counted d) =
        inflate-laid_out h t bytes more counted d (length (h ++ (t ++ bytes)))
          (omega (arith, length-append h (t ++ bytes), length-append t bytes)) in
      (
        laid_out h t (bytes ++ more) counted d,
        Parts.new (h ++ (t ++ bytes)) counted d,
        runs,
        record {
          valid = record {
            header = h;
            transport = t;
            rest = bytes ++ more;
            laid = refl;
            is_header = is_header;
            is_transport = is_transport;
            protocol = v.protocol;
            full = omega (arith, same, same', full);
          };
          is_new = unfold Parts.new in refl;
          is_packet = unfold Parts.new in is_packet;
          inflates = inflated;
        },
      )

  module _ (p : Packetizer) (source : Source E) (bytes : List ℕ) (v : IsValid p)
      (given : source (length p.buffer - p.payload_index) ≡ ok bytes) (small : All IsByte bytes)
      (fits : p.payload_index + length bytes < 2 ^ 16) where
    payload_index-IsValid : p.payload_index ≡ length v.header + length v.transport
    payload_index-IsValid = ap (λ (p : Packetizer). p.payload_index) v.laid

    packetize-build :
        packetize {E = E} p source
        ≡ build {E = E}
            (laid_out v.header v.transport
              (bytes ++ drop (length bytes) v.rest)
              p.ipv4_header_data
              p.transport_header_data)
            (length bytes)
    unfolding packetize
    packetize-build =
        let wraps : length bytes % 2 ^ 16 ≡ length bytes = omega arith in
        ap (λ p. packetize {E = E} p source) v.laid
        ∙ rw
            (
              packetize,
              receive-laid_out v.header v.transport v.rest bytes p.ipv4_header_data
                  p.transport_header_data source (omega (arith, payload_index-IsValid, v.full))
                  (ap (λ (p : Packetizer). source (length p.buffer - p.payload_index)) (sym v.laid)
                    ∙ given),
              wraps,
            )
            refl

    -- A valid packetizer and a payload of bytes that the source gives, with which the packet is shorter than 2 ^ 16:
    -- the packet consists of the headers and the payload, its lengths and checksums are right, and the packetizer stays
    -- valid and hands out the same packet again by `inflate`.
    pub packetize-Holds :
        (q : Packetizer) × (packet : Ipv4Packet) × (packetize {E = E} p source ≡ ok (q, packet))
        × Holds E q bytes
            (record p.ipv4_header_data { total_length = p.payload_index + length bytes })
            p.transport_header_data
            packet
    packetize-Holds =
        let (q, packet, runs, holds) =
          build-Holds p v bytes (drop (length bytes) v.rest) (p.payload_index + length bytes)
            (omega (arith, payload_index-IsValid)) small (omega (arith, payload_index-IsValid))
            (omega (
              arith,
              payload_index-IsValid,
              v.full,
              length-append bytes (drop (length bytes) v.rest),
              length-drop (length bytes) v.rest,
            )) in
        (q, packet, packetize-build ∙ runs, holds)

    -- A valid packetizer and a payload of bytes that the source gives, with which the packet is shorter than 2 ^ 16:
    -- the parser accepts the bytes of the packet, gives the very packet back, and its payload is what was received.
    pub packetize-parse :
        (q : Packetizer) × (packet : Ipv4Packet) × (packetize {E = E} p source ≡ ok (q, packet))
        × (IpPacket.parse packet.raw ≡ ok (ipv4 packet))
        × (Ipv4Packet.payload {E = E} packet ≡ ok (some bytes))
    packetize-parse =
        let (q, packet, runs, holds) = packetize-Holds in
        (
          q,
          packet,
          runs,
          parse-IsPacket holds.is_packet ∙ ap (λ p. ok (ipv4 p)) (sym holds.is_new),
          ap (Ipv4Packet.payload {E = E}) holds.is_new ∙ payload-IsPacket holds.is_packet {E = E},
        )
