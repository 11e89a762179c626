-- ===== src/Packetizer/Ports.antt =====
-- The transport header of a reply: the ports of the reference, exchanged.
use harmony_os_reverse_tethe.Prelude.{ℕ, ◌≤◌, ◌≡◌, refl, ap, ◌∙◌, List, length, arith, ok}
use harmony_os_reverse_tethe.Prelude.Swap.{IsSwap, swap_at_lem}
use harmony_os_reverse_tethe.IpPacket.Framing.{IsSwap-IsByte}
use harmony_os_reverse_tethe.TcpHeader.Edit
use harmony_os_reverse_tethe.UdpHeader.Edit as UdpEdit
use harmony_os_reverse_tethe.TransportHeader.{TransportHeaderData}
use harmony_os_reverse_tethe.TransportHeader.Edit.{bind, swap_source_and_destination}
use harmony_os_reverse_tethe.Packetizer.Transport.{IsTransport, data_of}

abbrev pub turned : TransportHeaderData → TransportHeaderData
turned (TransportHeaderData.tcp h) =
    TransportHeaderData.tcp
      (record h { source_port = h.destination_port; destination_port = h.source_port })
turned (TransportHeaderData.udp h) =
    TransportHeaderData.udp
      (record h { source_port = h.destination_port; destination_port = h.source_port })

-- The two swaps of the port bytes.
module _ {raw a r : List ℕ} (s1 : IsSwap raw 0 2 a) (s2 : IsSwap a 1 3 r) where
  data_of-swaps : (d : TransportHeaderData) → data_of (turned d) r ≡ turned (data_of d raw)
  data_of-swaps (TransportHeaderData.tcp h) =
      rw
        (
          s2.at 0 ∙ s1.at 0,
          s2.at 1 ∙ s1.at 3,
          s2.at 2 ∙ s1.at 2,
          s2.at 3 ∙ s1.at 1,
          s2.at 4 ∙ s1.at 4,
          s2.at 5 ∙ s1.at 5,
          s2.at 6 ∙ s1.at 6,
          s2.at 7 ∙ s1.at 7,
          s2.at 8 ∙ s1.at 8,
          s2.at 9 ∙ s1.at 9,
          s2.at 10 ∙ s1.at 10,
          s2.at 11 ∙ s1.at 11,
          s2.at 12 ∙ s1.at 12,
          s2.at 13 ∙ s1.at 13,
          s2.at 14 ∙ s1.at 14,
          s2.at 15 ∙ s1.at 15,
        )
        refl
  data_of-swaps (TransportHeaderData.udp h) =
      rw (s2.at 0 ∙ s1.at 0, s2.at 1 ∙ s1.at 3, s2.at 2 ∙ s1.at 2, s2.at 3 ∙ s1.at 1) refl

  swaps-IsTransport : (d : TransportHeaderData) → IsTransport raw d → IsTransport r (turned d)
  swaps-IsTransport (TransportHeaderData.tcp h) v = record {
    long = omega (arith, s1.same, s2.same, v.long);
    sized = s2.same ∙ s1.same ∙ v.sized;
    reads = data_of-swaps (TransportHeaderData.tcp h) ∙ ap turned v.reads;
    bytes = IsSwap-IsByte s2 (IsSwap-IsByte s1 v.bytes);
  }
  swaps-IsTransport (TransportHeaderData.udp h) v = record {
    long = omega (arith, s1.same, s2.same, v.long);
    sized = s2.same ∙ s1.same ∙ v.sized;
    reads = data_of-swaps (TransportHeaderData.udp h) ∙ ap turned v.reads;
    bytes = IsSwap-IsByte s2 (IsSwap-IsByte s1 v.bytes);
  }

  swap_runs :
      {E : Type 0} (d : TransportHeaderData)
      → swap_source_and_destination {E = E} (bind d raw) ≡ ok (bind (turned d) r)
  unfolding swap_source_and_destination bind Edit.swap_source_and_destination
      UdpEdit.swap_source_and_destination
  swap_runs {E} (TransportHeaderData.tcp h) =
      rw (Edit.swap_source_and_destination, s1.runs {E = E}, s2.runs {E = E}) refl
  swap_runs {E} (TransportHeaderData.udp h) =
      rw (UdpEdit.swap_source_and_destination, s1.runs {E = E}, s2.runs {E = E}) refl

least_four : (d : TransportHeaderData) (raw : List ℕ) → IsTransport raw d → 4 ≤ length raw
least_four (TransportHeaderData.tcp h) raw v = omega (arith, v.long)
least_four (TransportHeaderData.udp h) raw v = omega (arith, v.long)

pub swap-IsTransport :
    {E : Type 0} (d : TransportHeaderData) (raw : List ℕ)
    → IsTransport raw d
    → (r : List ℕ) × (swap_source_and_destination {E = E} (bind d raw) ≡ ok (bind (turned d) r))
      × IsTransport r (turned d)
      × (length r ≡ length raw)
swap-IsTransport d raw v =
    let long = least_four d raw v in
    let (a, s1) = swap_at_lem raw 0 2 (omega arith) (omega arith) in
    let (r, s2) = swap_at_lem a 1 3 (omega (arith, s1.same)) (omega (arith, s1.same)) in
    (r, swap_runs s1 s2 d, swaps-IsTransport s1 s2 d v, s2.same ∙ s1.same)
