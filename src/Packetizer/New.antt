-- ===== src/Packetizer/New.antt =====
-- `Packetizer::new`: from the headers of a packet, those of the replies.
use harmony_os_reverse_tethe.Prelude.{
  ℕ, ◌+◌, ◌≤◌, ◌≡◌, refl, sym, ap, ◌∙◌, List, ◌++◌, length, arith, ok, write_at,
  copy_from_slice-write_at, length-replicate,
}
use harmony_os_reverse_tethe.Prelude.Layout.{in_three, write_at-start, write_at-middle}
use harmony_os_reverse_tethe.Ipv4Header.{Ipv4HeaderData}
use harmony_os_reverse_tethe.Ipv4Header.Edit
use harmony_os_reverse_tethe.Ipv4Header.Edit.{Ipv4HeaderMut}
use harmony_os_reverse_tethe.TcpHeader.{TcpHeaderData}
use harmony_os_reverse_tethe.TransportHeader
use harmony_os_reverse_tethe.TransportHeader.{TransportHeaderData}
use harmony_os_reverse_tethe.TransportHeader.Edit as TransportEdit
use harmony_os_reverse_tethe.TransportHeader.Edit.{bind}
use harmony_os_reverse_tethe.Packetizer.{Packetizer, max_packet_length, zeros, reference, new}
use harmony_os_reverse_tethe.Packetizer.Header.{IsHeader, length-header, swap-IsHeader}
use harmony_os_reverse_tethe.Packetizer.Header as Header
use harmony_os_reverse_tethe.Packetizer.Transport.{IsTransport, protocol_of, tcp-inj}
use harmony_os_reverse_tethe.Packetizer.Ports.{turned, swap-IsTransport}
use harmony_os_reverse_tethe.Packetizer.Build.{IsValid}
use harmony_os_reverse_tethe.Packetizer.Layout.{
  laid_out, with_ipv4_header-laid_out, with_transport_header-laid_out, raw_of-bind, data_clone-bind,
}

pub length-zeros : length zeros ≡ max_packet_length
unfolding zeros
length-zeros = length-replicate {0} {A = ℕ} max_packet_length 0

pub transport-le : (d : TransportHeaderData) (raw : List ℕ) → IsTransport raw d → length raw ≤ 60
transport-le (TransportHeaderData.tcp h) raw v =
    omega (arith, v.sized, ap (λ (h : TcpHeaderData). h.header_length) (tcp-inj v.reads))
transport-le (TransportHeaderData.udp h) raw v = omega (arith, v.sized)

pub protocol_of-turned : (d : TransportHeaderData) → protocol_of (turned d) ≡ protocol_of d
protocol_of-turned (TransportHeaderData.tcp h) = refl
protocol_of-turned (TransportHeaderData.udp h) = refl

module _ {E : Type 0} (header transport : List ℕ) (ip : Ipv4HeaderData) (d : TransportHeaderData)
    (v : IsHeader header ip) (w : IsTransport transport d) where
  -- The references stand at the front of the zeros.
  reference-laid_out :
      (rest : List ℕ) × (reference {E = E}
          (record { raw = header; header_data = ip })
          (bind d transport)
        ≡ ok (laid_out header transport rest ip d))
      × (length header + length transport + length rest ≡ max_packet_length)
  unfolding reference
  reference-laid_out =
      let fits : length header + length transport ≤ length zeros =
        omega (arith, length-zeros, length-header v, transport-le d transport w) in
      let (a, b, rest, cut, la, lb, whole) =
        in_three (length header) (length transport) zeros fits in
      let first : write_at {E = E} zeros 0 header ≡ ok (header ++ (b ++ rest)) =
        ap (λ l. write_at {E = E} l 0 header) cut
        ∙ write_at-start {E = E} a header (b ++ rest) (sym la) in
      (
        rest,
        rw
            (
              reference,
              raw_of-bind d transport,
              data_clone-bind d transport,
              copy_from_slice-write_at {E = E} zeros 0 ip.header_length header
                  (omega (arith, v.sized)),
              first,
              copy_from_slice-write_at {E = E} (header ++ (b ++ rest)) ip.header_length
                  (ip.header_length + TransportHeader.header_length d) transport
                  (ap (λ n. ip.header_length + n) w.sized),
              write_at-middle {E = E} ip.header_length header b transport rest v.sized (sym lb),
              sym v.sized,
              sym w.sized,
            )
            refl,
        omega (arith, la, lb, whole, length-zeros),
      )

  -- The headers of a packet: bytes that read as their data, of version 4, no fragment, and of the protocol that the
  -- transport header has. The packetizer that is made of them is valid, and its headers have source and destination of
  -- those exchanged, both addresses and ports.
  pub new-IsValid :
      ip.protocol ≡ protocol_of d
      → (p : Packetizer) × (new {E = E}
            (record { raw = header; header_data = ip })
            (bind d transport)
          ≡ ok p)
        × IsValid p
        × (p.ipv4_header_data ≡ record ip { source = ip.destination; destination = ip.source })
        × (p.transport_header_data ≡ turned d)
  unfolding new
  new-IsValid protocol =
      let (rest, runs, full) = reference-laid_out in
      let (h, swaps, v', same) = swap-IsHeader {E = E} v in
      let (t, swaps', w', same') = swap-IsTransport {E = E} d transport w in
      (
        laid_out h t rest (Header.turned ip) (turned d),
        rw
            (
              new,
              runs,
              with_ipv4_header-laid_out {E = E} header transport rest ip d
                  Edit.swap_source_and_destination h (Header.turned ip) swaps same,
              with_transport_header-laid_out {E = E} h transport rest (Header.turned ip) d
                  TransportEdit.swap_source_and_destination t (turned d) swaps' same',
            )
            refl,
        record {
          header = h;
          transport = t;
          rest = rest;
          laid = refl;
          is_header = v';
          is_transport = w';
          protocol = protocol ∙ sym (protocol_of-turned d);
          full = omega (arith, same, same', full);
        },
        refl,
        refl,
      )
