-- ===== src/Ipv6Packetizer/New.antt =====
-- `Ipv6Packetizer::new`: from the headers of a packet, those of the replies.
use harmony_os_reverse_tethe.Prelude.{
  ℕ, ◌+◌, ◌-◌, ◌≤◌, ◌<◌, ◌≡◌, refl, sym, ap, ◌∙◌, inl, List, [], ◌++◌, length, All, byte, slice,
  drop, copy_at, arith, ok, subslice-eq-ok, index-eq-ok, write_at, copy_from_slice,
  copy_from_slice-write_at, length-copy_at,
}
use harmony_os_reverse_tethe.Prelude.Slices.{slice-copy_at_self, slice-copy_at_apart, length-slice}
use harmony_os_reverse_tethe.Prelude.Layout.{
  in_three, subslice-start, subslice-middle, write_at-start, write_at-middle, write_at-inside,
  All-copy_at, All-take, All-drop, get_or-copy_at_front,
}
use harmony_os_reverse_tethe.ByteOrder.{ByteOrder, u16_at, read_u16_at-eq-ok}
use harmony_os_reverse_tethe.IpPacket.Framing.{IsByte}
use harmony_os_reverse_tethe.Ipv6Header
use harmony_os_reverse_tethe.Ipv6Header.{Ipv6HeaderData, Ipv6HeaderError}
use harmony_os_reverse_tethe.Ipv6Packet
use harmony_os_reverse_tethe.TransportHeader.{TransportHeaderData}
use harmony_os_reverse_tethe.TransportHeader.Edit.{bind, swap_source_and_destination}
use harmony_os_reverse_tethe.Packetizer.{zeros}
use harmony_os_reverse_tethe.Packetizer.New.{length-zeros, transport-le, protocol_of-turned}
use harmony_os_reverse_tethe.Packetizer.Layout.{raw_of-bind, data_clone-bind}
use harmony_os_reverse_tethe.Packetizer.Ports.{turned, swap-IsTransport}
use harmony_os_reverse_tethe.Packetizer.Transport.{IsTransport, protocol_of}
use harmony_os_reverse_tethe.Ipv6Packetizer.{Ipv6Packetizer, reply_protocol, swap_ports, new}
use harmony_os_reverse_tethe.Ipv6Packetizer.Parts.{IsHeader}
use harmony_os_reverse_tethe.Ipv6Packetizer.Layout.{laid_out}
use harmony_os_reverse_tethe.Ipv6Packetizer.Laws.{IsValid}

reply_protocol-eq :
    (n : ℕ) (d : TransportHeaderData)
    → Ipv6Packet.protocol_of n ≡ ok (protocol_of d)
    → reply_protocol n ≡ protocol_of d
unfolding reply_protocol Ipv6Packet.protocol_of
reply_protocol-eq n (TransportHeaderData.tcp h) e = ground arith
reply_protocol-eq n (TransportHeaderData.udp h) e = ground arith

module _ (header : List ℕ) (ip : Ipv6HeaderData) (v : IsHeader header ip) where
  length-source : length ip.source ≡ 16
  length-source =
      ap length v.source ∙ length-slice 8 24 header (omega arith) (omega (arith, v.sized))

  length-destination : length ip.destination ≡ 16
  length-destination =
      ap length v.destination ∙ length-slice 24 40 header (omega arith) (omega (arith, v.sized))

  slice-IsByte : (i j : ℕ) (xs : List ℕ) → xs ≡ slice i j header → All IsByte xs
  slice-IsByte i j xs e =
      rw e (All-take IsByte (j - i) (drop i header) (All-drop IsByte i header v.bytes))

  abbrev once : List ℕ
  once = copy_at 8 ip.destination header

  abbrev pub readdressed : List ℕ
  readdressed = copy_at 24 ip.source once

  length-once : length once ≡ 40
  length-once =
      length-copy_at 8 ip.destination header (omega (arith, length-destination, v.sized)) ∙ v.sized

  at_byte : (k : ℕ) → k < 8 → byte readdressed k ≡ byte header k
  at_byte k h =
      get_or-copy_at_front 24 k ip.source once 0 (omega arith) (omega (arith, length-once))
      ∙ get_or-copy_at_front 8 k ip.destination header 0 h (omega (arith, v.sized))

  -- The header with its addresses exchanged.
  readdressed-IsHeader :
      (n : ℕ)
      → IsHeader readdressed (record {
        payload_length = n;
        next_header = ip.next_header;
        source = ip.destination;
        destination = ip.source;
      })
  readdressed-IsHeader n = record {
    sized =
        length-copy_at 24 ip.source once (omega (arith, length-source, length-once)) ∙ length-once;
    version = rw (at_byte 0 (omega arith)) v.version;
    next = v.next ∙ sym (at_byte 6 (omega arith));
    source = sym (
        ap (λ e. slice 8 e readdressed) {x = 24} {y = 8 + length ip.destination}
          (omega (arith, length-destination))
        ∙ slice-copy_at_apart 8 (8 + length ip.destination) 24 ip.source once
            (omega (arith, length-source, length-once)) (inl (omega (arith, length-destination)))
        ∙ slice-copy_at_self 8 ip.destination header (omega (arith, length-destination, v.sized)));
    destination = sym (
        ap (λ e. slice 24 e readdressed) {x = 40} {y = 24 + length ip.source}
          (omega (arith, length-source))
        ∙ slice-copy_at_self 24 ip.source once (omega (arith, length-source, length-once)));
    bytes = All-copy_at IsByte 24 ip.source once (slice-IsByte 8 24 ip.source v.source) (
        All-copy_at IsByte 8 ip.destination header (slice-IsByte 24 40 ip.destination v.destination)
          v.bytes);
  }

-- The header of the replies.
abbrev pub reply_header :
    (header : List ℕ) (ip : Ipv6HeaderData) → IsHeader header ip → Ipv6HeaderData
reply_header header ip v = record {
  payload_length = u16_at (readdressed header ip v) 4;
  next_header = ip.next_header;
  source = ip.destination;
  destination = ip.source;
}

-- Of a header that stands alone the parser that needs no payload gives the data, with the length that is written there.
header_parses :
    ⦃order : ByteOrder⦄ (header : List ℕ) (d : Ipv6HeaderData)
    → IsHeader header d
    → d.payload_length ≡ u16_at header 4
    → Ipv6Header.parse_header_only header ≡ ok d
unfolding Ipv6Header.parse_header_only
header_parses header d v e = ground (
  arith,
  index-eq-ok {E = Ipv6HeaderError} header 0,
  read_u16_at-eq-ok {E = Ipv6HeaderError} header 4,
  index-eq-ok {E = Ipv6HeaderError} header 6,
  subslice-eq-ok {E = Ipv6HeaderError} header 8 24,
  subslice-eq-ok {E = Ipv6HeaderError} header 24 40,
  v.sized,
  v.version,
  v.next,
  v.source,
  v.destination,
)

module _ {E : Type 0} ⦃order : ByteOrder⦄ (header transport : List ℕ) (ip : Ipv6HeaderData)
    (d : TransportHeaderData) (v : IsHeader header ip) (w : IsTransport transport d) where
  swap_ports-laid :
      (before rest after : List ℕ)
      → length before ≡ 40
      → swap_source_and_destination {E = E} (bind d transport) ≡ ok (bind (turned d) after)
      → length after ≡ length transport
      → swap_ports {E = E} (before ++ (transport ++ rest)) 40 (40 + length transport) d
        ≡ ok (before ++ (after ++ rest), turned d)
  unfolding swap_ports
  swap_ports-laid before rest after sized swaps same =
      rw
        (
          swap_ports,
          subslice-middle {E = E} 40 (40 + length transport) before transport rest sized refl,
          swaps,
          raw_of-bind (turned d) after,
          data_clone-bind (turned d) after,
          write_at-middle {E = E} 40 before transport after rest sized same,
        )
        refl

  -- The headers of a packet: bytes that read as their data, of version 6, whose next header is the transport header's.
  -- The packetizer that is made of them is valid, its `expect` does not panic, and its headers have source and
  -- destination of those exchanged, both addresses and ports.
  pub new_ipv6-IsValid :
      Ipv6Packet.protocol_of ip.next_header ≡ ok (protocol_of d)
      → (p : Ipv6Packetizer) × (new {E = E}
            (record { raw = header; header_data = ip })
            (bind d transport)
          ≡ ok p)
        × IsValid p
        × (p.ipv6_header_data.source ≡ ip.destination)
        × (p.ipv6_header_data.destination ≡ ip.source)
        × (p.ipv6_header_data.next_header ≡ ip.next_header)
        × (p.transport_header_data ≡ turned d)
  unfolding new
  new_ipv6-IsValid protocol =
      let fits : 40 + length transport ≤ length zeros =
        omega (arith, length-zeros, transport-le d transport w) in
      let (a, b, rest, cut, la, lb, whole) = in_three 40 (length transport) zeros fits in
      let (after, swaps, w', same) = swap-IsTransport {E = E} d transport w in
      let sources = length-source header ip v in
      let destinations = length-destination header ip v in
      let reply = readdressed header ip v in
      let v' = readdressed-IsHeader header ip v (u16_at reply 4) in
      let one = copy_at 8 ip.destination header in
      let first : copy_from_slice {E = E} zeros 0 40 header ≡ ok (header ++ (b ++ rest)) =
        copy_from_slice-write_at {E = E} zeros 0 40 header (omega (arith, v.sized))
        ∙ ap (λ l. write_at {E = E} l 0 header) cut
        ∙ write_at-start {E = E} a header (b ++ rest) (v.sized ∙ sym la) in
      let second : copy_from_slice {E = E} (header ++ (b ++ rest)) 8 24 ip.destination
          ≡ ok (one ++ (b ++ rest)) =
        copy_from_slice-write_at {E = E} (header ++ (b ++ rest)) 8 24 ip.destination
          (omega (arith, destinations))
        ∙ write_at-inside {E = E} 0 8 8 ip.destination [] header (b ++ rest) refl refl
            (omega (arith, v.sized, destinations)) in
      let third : copy_from_slice {E = E} (one ++ (b ++ rest)) 24 40 ip.source
          ≡ ok (reply ++ (b ++ rest)) =
        copy_from_slice-write_at {E = E} (one ++ (b ++ rest)) 24 40 ip.source
          (omega (arith, sources))
        ∙ write_at-inside {E = E} 0 24 24 ip.source [] one (b ++ rest) refl refl
            (omega (arith, length-once header ip v, sources)) in
      let fourth : copy_from_slice {E = E} (reply ++ (b ++ rest)) 40 (40 + length transport)
            transport
          ≡ ok (reply ++ (transport ++ rest)) =
        copy_from_slice-write_at {E = E} (reply ++ (b ++ rest)) 40 (40 + length transport) transport
          refl
        ∙ write_at-middle {E = E} 40 reply b transport rest v'.sized (sym lb) in
      (
        laid_out reply after rest (reply_header header ip v) (turned d),
        rw
            (
              new,
              data_clone-bind d transport,
              raw_of-bind d transport,
              first,
              second,
              third,
              sym w.sized,
              fourth,
              swap_ports-laid reply rest after v'.sized swaps same,
              subslice-start {E = E} 40 reply (after ++ rest) v'.sized,
              header_parses reply (reply_header header ip v) v' refl,
              reply_protocol-eq ip.next_header d protocol,
            )
            (rw (same, protocol_of-turned d) refl),
        record {
          header = reply;
          transport = after;
          rest = rest;
          laid = refl;
          is_header = v';
          is_transport = w';
          protocol = protocol ∙ ap ok (sym (protocol_of-turned d));
          full = omega (arith, same, la, lb, whole, length-zeros);
        },
        refl,
        refl,
        refl,
        refl,
      )
