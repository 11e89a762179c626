-- ===== src/Ipv6Packetizer/Laws.antt =====
-- What the IPv6 packetizer hands out, read back by the parser of relay/src/relay/ip_packet.rs.
use harmony_os_reverse_tethe.Prelude.{
  ℕ, ◌+◌, ◌-◌, ◌%◌, ◌^◌, ◌<◌, ◌≡◌, refl, sym, ap, ◌∙◌, List, ◌++◌, length, All, arith, ok, subslice,
  length-append,
}
use harmony_os_reverse_tethe.Prelude.Layout.{subslice-start}
use harmony_os_reverse_tethe.ByteOrder.{ByteOrder}
use harmony_os_reverse_tethe.IpPacket.Framing.{IsByte}
use harmony_os_reverse_tethe.Ipv6Header.{Ipv6HeaderData}
use harmony_os_reverse_tethe.Ipv6Packet
use harmony_os_reverse_tethe.Ipv6Packet.{Ipv6Packet}
use harmony_os_reverse_tethe.TransportHeader.{TransportHeaderData}
use harmony_os_reverse_tethe.Packetizer.{max_packet_length}
use harmony_os_reverse_tethe.Packetizer.Layout.{regrouped}
use harmony_os_reverse_tethe.Packetizer.Transport.{
  IsTransport, protocol_of, set_payload_length-IsTransport,
}
use harmony_os_reverse_tethe.Ipv6Packetizer.{Ipv6Packetizer, set_lengths, update_checksum, build}
use harmony_os_reverse_tethe.Ipv6Packetizer.Parts.{
  IsHeader, counted, counted-IsHeader, payload_length-counted,
}
use harmony_os_reverse_tethe.Ipv6Packetizer.Layout.{
  laid_out, set_lengths-laid_out, update_checksum-laid_out,
}
use harmony_os_reverse_tethe.Ipv6Packetizer.Packet.{IsPacket, packet_of, parse_ipv6-IsPacket}
use harmony_os_reverse_tethe.Ipv6Packetizer.Build.{
  eight-le, checksum, checksum_small, after, length-after, after-IsTransport, after-Counts,
  receiver-folds,
}

-- The buffer begins with the two headers that the packetizer describes, and holds the largest packet.
pub record IsValid (p : Ipv6Packetizer) : Type 0 where
  pub header : List ℕ
  pub transport : List ℕ
  pub rest : List ℕ
  pub laid : p ≡ laid_out header transport rest p.ipv6_header_data p.transport_header_data
  pub is_header : IsHeader header p.ipv6_header_data
  pub is_transport : IsTransport transport p.transport_header_data
  pub protocol :
      Ipv6Packet.protocol_of p.ipv6_header_data.next_header
      ≡ ok (protocol_of p.transport_header_data)
  pub full : 40 + length transport + length rest ≡ max_packet_length

module _ {E : Type 0} ⦃order : ByteOrder⦄ (header transport payload more : List ℕ)
    (ip : Ipv6HeaderData) (d : TransportHeaderData) where
  -- The steps of a build, from the headers that they leave.
  build_steps :
      (h t1 t2 : List ℕ) (n : ℕ) (packet : Ipv6Packet)
      → length transport + length payload ≡ n
      → n < 2 ^ 16
      → set_lengths {E = E} (laid_out header transport (payload ++ more) ip d) n (length payload)
        ≡ ok (laid_out h t1 (payload ++ more) ip d)
      → update_checksum {E = E} (laid_out h t1 (payload ++ more) ip d) (40 + n)
        ≡ ok (record (laid_out h t1 (payload ++ more) ip d) {
          buffer = h ++ (t2 ++ (payload ++ more));
        })
      → length h ≡ 40
      → length t1 ≡ length transport
      → length t2 ≡ length t1
      → Ipv6Packet.parse (h ++ (t2 ++ payload)) ≡ ok packet
      → build {E = E} (laid_out header transport (payload ++ more) ip d) (length payload)
        ≡ ok (laid_out h t2 (payload ++ more) ip d, packet)
  unfolding build
  build_steps h t1 t2 n packet is_n small set summed lh l1 l2 parsed =
      let wraps : ((40 + length transport - 40) % 2 ^ 16 + length payload) % 2 ^ 16 ≡ n =
        omega arith in
      let front : subslice {E = E} (h ++ (t2 ++ (payload ++ more))) 0 (40 + n)
          ≡ ok (h ++ (t2 ++ payload)) =
        ap (λ l. subslice {E = E} l 0 (40 + n)) (regrouped h t2 payload more)
        ∙ subslice-start {E = E} (40 + n) (h ++ (t2 ++ payload)) more
            (omega (arith, length-append h (t2 ++ payload), length-append t2 payload)) in
      rw (build, wraps, set, summed, front, parsed)
        (ap
          (λ m. ok (
            record {
              buffer = h ++ (t2 ++ (payload ++ more));
              payload_index = 40 + m;
              ipv6_header_data = ip;
              transport_header_data = d;
              protocol = protocol_of d;
            },
            packet,
          ))
          (sym l2))

  pub build-laid_out :
      IsHeader header ip
      → IsTransport transport d
      → Ipv6Packet.protocol_of ip.next_header ≡ ok (protocol_of d)
      → All IsByte payload
      → length transport + length payload < 2 ^ 16
      → (h t : List ℕ) × IsHeader h ip
        × IsTransport t d
        × (length t ≡ length transport)
        × IsPacket (h ++ (t ++ payload)) payload ip d
        × (build {E = E} (laid_out header transport (payload ++ more) ip d) (length payload)
            ≡ ok (laid_out h t (payload ++ more) ip d, packet_of (h ++ (t ++ payload)) ip d))
  build-laid_out v w protocol bytes fits =
      let n = length transport + length payload in
      let small : n < 2 ^ 16 = fits in
      let h = counted header ip n v small in
      let is_header = counted-IsHeader header ip n v small in
      let (t1, set, w1, same, counts) =
        set_payload_length-IsTransport {E = E} d transport (length payload) w
          (omega (arith, eight-le d transport w)) in
      let fits1 : length t1 + length payload < 2 ^ 16 = omega arith in
      let c = checksum h t1 payload ip d is_header w1 bytes fits1 in
      let t2 = after h t1 payload ip d is_header w1 bytes fits1 in
      let raw = h ++ (t2 ++ payload) in
      let same2 = length-after h t1 payload ip d is_header w1 bytes fits1 in
      let is_packet : IsPacket raw payload ip d = record {
        header = h;
        transport = t2;
        laid = refl;
        is_header = is_header;
        is_transport = after-IsTransport h t1 payload ip d is_header w1 bytes fits1;
        protocol = protocol;
        counted = omega (arith, payload_length-counted header ip n v small, same, same2);
        counts = after-Counts h t1 payload ip d is_header w1 bytes fits1 (length payload) counts;
        sums = receiver-folds h t1 payload ip d is_header w1 bytes fits1;
      } in
      (
        h,
        t2,
        is_header,
        is_packet.is_transport,
        same2 ∙ same,
        is_packet,
        build_steps h t1 t2 n (packet_of raw ip d) refl small
            (set_lengths-laid_out header transport ip d v w (payload ++ more) t1 n (length payload)
              small set same)
            (update_checksum-laid_out h t1 ip d is_header w1 payload more c (40 + n) refl
              (checksum_small h t1 payload ip d is_header w1 bytes fits1) (omega (arith, same)))
            is_header.sized same same2 (parse_ipv6-IsPacket is_packet),
      )
