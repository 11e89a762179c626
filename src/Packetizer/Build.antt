-- ===== src/Packetizer/Build.antt =====
-- What a packetizer builds: a packet that is accepted, and a packetizer that is valid again.
use harmony_os_reverse_tethe.Prelude.{
  ℕ, ◌+◌, ◌%◌, ◌^◌, ◌<◌, ◌≡◌, refl, ap, ◌∙◌, List, ◌++◌, length, All, arith, ok,
}
use harmony_os_reverse_tethe.ByteOrder.{ByteOrder}
use harmony_os_reverse_tethe.IpPacket.Framing.{IsByte, byte-lt}
use harmony_os_reverse_tethe.Ipv4Header.{Ipv4HeaderData}
use harmony_os_reverse_tethe.Ipv4Header.Edit.{set_total_length}
use harmony_os_reverse_tethe.Ipv4Header.Checksum as Ipv4Checksum
use harmony_os_reverse_tethe.TransportHeader
use harmony_os_reverse_tethe.TransportHeader.Edit.{bind, set_payload_length, update_checksum}
use harmony_os_reverse_tethe.TransportHeader.{TransportHeaderData}
use harmony_os_reverse_tethe.Ipv4Packet.Parts
use harmony_os_reverse_tethe.Packetizer.{Packetizer, max_packet_length, build}
use harmony_os_reverse_tethe.Packetizer.Header.{
  IsHeader, set_total_length-IsHeader, update_checksum-IsHeader,
}
use harmony_os_reverse_tethe.Packetizer.Transport.{
  IsTransport, protocol_of, set_payload_length-IsTransport, update_checksum-IsTransport,
}
use harmony_os_reverse_tethe.Packetizer.Packet.{IsPacket}
use harmony_os_reverse_tethe.Packetizer.Layout.{
  laid_out, with_ipv4_header-laid_out, with_transport_header-laid_out, inflate-laid_out,
  write_packet, compute_checksums-laid,
}

-- The buffer begins with the two headers that the packetizer describes, and holds the largest packet.
pub record IsValid (p : Packetizer) : Type 0 where
  pub header : List ℕ
  pub transport : List ℕ
  pub rest : List ℕ
  pub laid : p ≡ laid_out header transport rest p.ipv4_header_data p.transport_header_data
  pub is_header : IsHeader header p.ipv4_header_data
  pub is_transport : IsTransport transport p.transport_header_data
  pub protocol : p.ipv4_header_data.protocol ≡ protocol_of p.transport_header_data
  pub full : length header + length transport + length rest ≡ max_packet_length

-- Addresses have 32 bits.
addresses :
    {raw : List ℕ} {d : Ipv4HeaderData}
    → IsHeader raw d
    → (d.source < 2 ^ 32) × (d.destination < 2 ^ 32)
addresses {raw} {d} v = omega (
  arith,
  ap (λ (h : Ipv4HeaderData). h.source) v.reads,
  ap (λ (h : Ipv4HeaderData). h.destination) v.reads,
  byte-lt raw 12 v.bytes,
  byte-lt raw 13 v.bytes,
  byte-lt raw 14 v.bytes,
  byte-lt raw 15 v.bytes,
  byte-lt raw 16 v.bytes,
  byte-lt raw 17 v.bytes,
  byte-lt raw 18 v.bytes,
  byte-lt raw 19 v.bytes,
)

module _ {E : Type 0} ⦃order : ByteOrder⦄ (header transport payload more : List ℕ)
    (ip : Ipv4HeaderData) (d : TransportHeaderData) where
  -- The steps of a build, from what each does to its header.
  build_steps :
      (h1 h2 t1 t2 : List ℕ) (total : ℕ)
      → let counted = record ip { total_length = total } in
        (length header + length transport + length payload) % 2 ^ 16 ≡ total
        → total ≡ length header + length transport + length payload
        → length header ≡ ip.header_length
        → length transport ≡ TransportHeader.header_length d
        → set_total_length {E = E} (record { raw = header; header_data = ip }) total
          ≡ ok (record { raw = h1; header_data = counted })
        → length h1 ≡ length header
        → set_payload_length {E = E} (bind d transport) (length payload) ≡ ok (bind d t1)
        → length t1 ≡ length transport
        → Ipv4Checksum.update_checksum {E = E} (record { raw = h1; header_data = counted })
          ≡ ok (record { raw = h2; header_data = counted })
        → length h2 ≡ length h1
        → update_checksum {E = E} (bind d t1) counted payload ≡ ok (bind d t2)
        → length t2 ≡ length t1
        → build {E = E} (laid_out header transport (payload ++ more) ip d) (length payload)
          ≡ ok (
            laid_out h2 t2 (payload ++ more) counted d,
            Parts.new (h2 ++ (t2 ++ payload)) counted d,
          )
  unfolding build Parts.new
  build_steps h1 h2 t1 t2 total wraps is_total hs ts set l1 counts l2 summed l3 verified l4 =
      let counted = record ip { total_length = total } in
      rw
        (
          build,
          wraps,
          with_ipv4_header-laid_out header transport (payload ++ more) ip d
              (λ h. set_total_length h total) h1 counted set l1,
          with_transport_header-laid_out h1 transport (payload ++ more) counted d
              (λ h. set_payload_length h (length payload)) t1 d counts l2,
          inflate-laid_out {E = E} h1 t1 payload more counted d total (omega (arith, l1, l2)),
          compute_checksums-laid {E = E} h1 t1 payload counted d h2 t2 (l1 ∙ hs) (l2 ∙ ts) summed l3
              verified l4,
          write_packet {E = E} h1 t1 payload more h2 t2 l3 l4,
        )
        (rw (l3, l4) refl)

  pub build-laid_out :
      IsHeader header ip
      → IsTransport transport d
      → ip.protocol ≡ protocol_of d
      → All IsByte payload
      → length header + length transport + length payload < 2 ^ 16
      → (total : ℕ) → total ≡ length header + length transport + length payload
      → (h t : List ℕ) × (length h ≡ length header)
        × (length t ≡ length transport)
        × IsHeader h (record ip { total_length = total })
        × IsTransport t d
        × IsPacket (h ++ (t ++ payload)) payload (record ip { total_length = total }) d
        × (build {E = E} (laid_out header transport (payload ++ more) ip d) (length payload)
            ≡ ok (
              laid_out h t (payload ++ more) (record ip { total_length = total }) d,
              Parts.new (h ++ (t ++ payload)) (record ip { total_length = total }) d,
            ))
  build-laid_out v w protocol small fits total is_total =
      let counted = record ip { total_length = total } in
      let (h1, set, v1, same1) = set_total_length-IsHeader {E = E} v total (omega arith) in
      let (t1, counts, w1, same2, c1) =
        set_payload_length-IsTransport {E = E} d transport (length payload) w
          (omega (arith, v.least)) in
      let (h2, summed, v2, same3, sums) = update_checksum-IsHeader {E = E} v1 in
      let (s, e) = addresses v1 in
      let (t2, verified, w2, same4, c2, verifies) =
        update_checksum-IsTransport {E = E} d counted t1 payload (length payload) w1 c1
          (omega (arith, v.sized, same2)) (omega arith) s e small in
      (
        h2,
        t2,
        same3 ∙ same1,
        same4 ∙ same2,
        v2,
        w2,
        record {
          header = h2;
          transport = t2;
          laid = refl;
          is_header = v2;
          is_transport = w2;
          protocol = protocol;
          counted = omega (arith, same1, same2, same3, same4);
          counts = c2;
          sums = sums;
          verifies = verifies;
        },
        build_steps h1 h2 t1 t2 total (omega arith) is_total v.sized w.sized set same1 counts same2
            summed same3 verified same4,
      )
