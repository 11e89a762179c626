-- ===== src/Packetizer/Packet.antt =====
-- A packet that a receiver accepts: its parts one behind the other, each reading as its data, with lengths and checksums
-- that agree; and what the parser of relay/src/relay/ip_packet.rs makes of its bytes.
use harmony_os_reverse_tethe.Prelude.{
  ℕ, ◌/◌, ◌+◌, ◌-◌, ◌^◌, ◌≤◌, ◌<◌, ◌≡◌, refl, sym, ap, ◌∙◌, List, [], ◌++◌, length, byte, some,
  arith, ok, length-append, index-eq-ok, subslice, subslice-eq-ok, slice, ◌==◌, true, get_elem?,
  get_elem?-eq-get_or,
}
use harmony_os_reverse_tethe.Prelude.Layout.{slice-middle, subslice-middle}
use harmony_os_reverse_tethe.ByteOrder.{ByteOrder}
use harmony_os_reverse_tethe.IpPacket.Framing.{byte-append, byte-lt}
use harmony_os_reverse_tethe.Checksum.{fold}
use harmony_os_reverse_tethe.Checksum.Words.{words}
use harmony_os_reverse_tethe.ParseError.{PacketParseError}
use harmony_os_reverse_tethe.Ipv4Header
use harmony_os_reverse_tethe.Ipv4Header.{Ipv4HeaderData}
use harmony_os_reverse_tethe.TransportHeader
use harmony_os_reverse_tethe.TransportHeader.{TransportHeaderData}
use harmony_os_reverse_tethe.Ipv4Packet
use harmony_os_reverse_tethe.Ipv4Packet.{Ipv4Packet}
use harmony_os_reverse_tethe.Ipv4Packet.Parts
use harmony_os_reverse_tethe.Ipv6Packet.{check_transport}
use harmony_os_reverse_tethe.IpPacket
use harmony_os_reverse_tethe.IpPacket.{IpPacket, ipv4, validate_ipv4}
use harmony_os_reverse_tethe.IpPacket.Checks.{ihl, total, least_header, validate_ipv4-IsValidIpv4}
use harmony_os_reverse_tethe.IpPacket.Ipv4.{transport_of, ipv4_packet_of, parse_ipv4}
use mathlib.Core.List.{append-nil, append_assoc}
use harmony_os_reverse_tethe.Packetizer.Header.{IsHeader}
use harmony_os_reverse_tethe.Packetizer.Transport.{
  IsTransport, protocol_of, Counts, Verifies, tcp_header_of-same,
}

pub record IsPacket (raw payload : List ℕ) (ip : Ipv4HeaderData) (d : TransportHeaderData)
    : Type 0 where
  pub header : List ℕ
  pub transport : List ℕ
  pub laid : raw ≡ header ++ (transport ++ payload)
  pub is_header : IsHeader header ip
  pub is_transport : IsTransport transport d
  pub protocol : ip.protocol ≡ protocol_of d
  pub counted : ip.total_length ≡ length header + length transport + length payload
  pub counts : Counts d transport (length payload)
  pub sums : fold 2 (words header 0 (length header / 2)) ≡ 2 ^ 16 - 1
  pub verifies : Verifies ip d transport payload

-- The checks of the transport header pass.
pub check_transport-ok :
    (d : TransportHeaderData) (raw payload : List ℕ)
    → IsTransport raw d
    → Counts d raw (length payload)
    → check_transport (protocol_of d) (raw ++ payload) ≡ ok tt
unfolding check_transport
check_transport-ok (TransportHeaderData.tcp h) raw payload v c = ground (
  arith,
  length-append raw payload,
  index-eq-ok {E = PacketParseError} (raw ++ payload) 12,
  byte-append raw payload 12,
  byte-lt raw 12 v.bytes,
  byte-lt raw 13 v.bytes,
  v.long,
  v.sized,
  v.reads,
)
check_transport-ok (TransportHeaderData.udp h) raw payload v c = ground (
  arith,
  length-append raw payload,
  index-eq-ok {E = PacketParseError} (raw ++ payload) 4,
  index-eq-ok {E = PacketParseError} (raw ++ payload) 5,
  byte-append raw payload 4,
  byte-append raw payload 5,
  v.long,
  v.sized,
)

-- What stands behind the header's bytes does not change what is read from them.
pub data_of-append :
    (d : TransportHeaderData) (raw payload : List ℕ)
    → IsTransport raw d
    → transport_of (protocol_of d) (raw ++ payload) ≡ some d
data_of-append (TransportHeaderData.tcp h) raw payload v =
    ap (λ d. some d)
      (ap TransportHeaderData.tcp (
          tcp_header_of-same (raw ++ payload) raw
            (λ k l. byte-append raw payload k (omega (arith, v.long))))
        ∙ v.reads)
data_of-append (TransportHeaderData.udp h) raw payload v =
    ap (λ d. some d)
      (ap TransportHeaderData.udp (
          rw
            (
              byte-append raw payload 0 (omega (arith, v.long)),
              byte-append raw payload 1 (omega (arith, v.long)),
              byte-append raw payload 2 (omega (arith, v.long)),
              byte-append raw payload 3 (omega (arith, v.long)),
            )
            refl)
        ∙ v.reads)

pub least_header-le :
    (d : TransportHeaderData) (raw payload : List ℕ)
    → IsTransport raw d
    → least_header (protocol_of d) ≤ length (raw ++ payload)
least_header-le (TransportHeaderData.tcp h) raw payload v =
    omega (arith, v.long, length-append raw payload)
least_header-le (TransportHeaderData.udp h) raw payload v =
    omega (arith, v.long, length-append raw payload)

module _ {raw payload : List ℕ} {ip : Ipv4HeaderData} {d : TransportHeaderData}
    (v : IsPacket raw payload ip d) where
  at_header : (k : ℕ) → k < 20 → byte raw k ≡ byte v.header k
  at_header k h =
      ap (λ l. byte l k) v.laid
      ∙ byte-append v.header (v.transport ++ payload) k (omega (arith, v.is_header.least))

  reads : Ipv4Header.header_of raw ≡ ip
  reads =
      rw
        (
          at_header 0 (omega arith),
          at_header 2 (omega arith),
          at_header 3 (omega arith),
          at_header 9 (omega arith),
          at_header 12 (omega arith),
          at_header 13 (omega arith),
          at_header 14 (omega arith),
          at_header 15 (omega arith),
          at_header 16 (omega arith),
          at_header 17 (omega arith),
          at_header 18 (omega arith),
          at_header 19 (omega arith),
        )
        v.is_header.reads

  length-raw : length raw ≡ length v.header + length v.transport + length payload
  length-raw = omega (
    arith,
    ap length v.laid,
    length-append v.header (v.transport ++ payload),
    length-append v.transport payload,
  )

  total-raw : total raw ≡ length raw
  total-raw = ap (λ (h : Ipv4HeaderData). h.total_length) reads ∙ v.counted ∙ sym length-raw

  ihl-raw : ihl raw ≡ length v.header
  ihl-raw = ap (λ (h : Ipv4HeaderData). h.header_length) reads ∙ sym v.is_header.sized

  protocol-raw : Ipv4Header.protocol_of (byte raw 9) ≡ protocol_of d
  protocol-raw = ap (λ (h : Ipv4HeaderData). h.protocol) reads ∙ v.protocol

  behind : slice (ihl raw) (length raw) raw ≡ v.transport ++ payload
  behind =
      ap (λ i. slice i (length raw) raw) ihl-raw
      ∙ ap (slice (length v.header) (length raw))
          (v.laid ∙ ap (λ l. v.header ++ l) (sym (append-nil (v.transport ++ payload))))
      ∙ slice-middle (length v.header) (length raw) v.header (v.transport ++ payload) [] refl
          (omega (arith, length-raw, length-append v.transport payload))

  validates : validate_ipv4 raw ≡ ok tt
  unfolding validate_ipv4
  validates =
      let first_in : 20 ≤ length raw = omega (arith, length-raw, v.is_header.least) in
      ground (
        arith,
        index-eq-ok {E = PacketParseError} raw 0,
        index-eq-ok {E = PacketParseError} raw 2,
        index-eq-ok {E = PacketParseError} raw 3,
        index-eq-ok {E = PacketParseError} raw 6,
        index-eq-ok {E = PacketParseError} raw 7,
        index-eq-ok {E = PacketParseError} raw 9,
        at_header 6,
        at_header 7,
        v.is_header.flags,
        v.is_header.offset,
        v.is_header.least,
        length-raw,
        total-raw,
        ihl-raw,
        subslice-eq-ok {E = PacketParseError} raw (ihl raw) (total raw),
        behind,
        protocol-raw,
        check_transport-ok d v.transport payload v.is_transport v.counts,
      )

  whole : slice 0 (total raw) raw ≡ raw
  whole =
      ap (λ n. slice 0 n raw) total-raw
      ∙ ap (slice 0 (length raw)) (sym (append-nil raw))
      ∙ slice-middle 0 (length raw) [] raw [] refl (omega arith)

  transport-raw :
      transport_of (Ipv4Header.protocol_of (byte raw 9)) (slice (ihl raw) (length raw) raw) ≡ some d
  transport-raw =
      ap (λ p. transport_of p (slice (ihl raw) (length raw) raw)) protocol-raw
      ∙ ap (transport_of (protocol_of d)) behind
      ∙ data_of-append d v.transport payload v.is_transport

  parsed_packet : ipv4_packet_of raw ≡ Parts.new raw ip d
  unfolding Parts.new
  parsed_packet = ground (arith, whole, reads, transport-raw)

  pub parse-IsPacket : ⦃order : ByteOrder⦄ → IpPacket.parse raw ≡ ok (ipv4 (Parts.new raw ip d))
  unfolding IpPacket.parse Parts.new
  parse-IsPacket =
      let first : get_elem? raw 0 ≡ some (byte raw 0) =
        get_elem?-eq-get_or raw 0 0 (omega (arith, length-raw, v.is_header.least)) in
      let four : (byte raw 0 / 2 ^ 4 == 4) ≡ true =
        ground (arith, ap (λ (h : Ipv4HeaderData). h.version) reads, v.is_header.version) in
      let parsed =
        parse_ipv4 {E = PacketParseError} raw (validate_ipv4-IsValidIpv4 raw validates) in
      rw (IpPacket.parse, first, IpPacket.parse_version, four, validates, parsed)
        (ap (λ p. ok (ipv4 p)) parsed_packet)

  -- The payload is what stands behind both headers.
  pub payload-IsPacket :
      {E : Type 0} → Ipv4Packet.payload {E = E} (Parts.new raw ip d) ≡ ok (some payload)
  unfolding Ipv4Packet.payload Parts.new
  payload-IsPacket {E} =
      let laid : raw ≡ (v.header ++ v.transport) ++ (payload ++ []) =
        v.laid
        ∙ sym (append_assoc v.header v.transport payload)
        ∙ ap (λ l. (v.header ++ v.transport) ++ l) (sym (append-nil payload)) in
      rw
        (ap
            (λ l.
              subslice {E = E} l (ip.header_length + TransportHeader.header_length d) (length raw))
            laid
          ∙ subslice-middle {E = E} (ip.header_length + TransportHeader.header_length d)
              (length raw) (v.header ++ v.transport) payload []
              (omega (
                arith,
                length-append v.header v.transport,
                v.is_header.sized,
                v.is_transport.sized,
              ))
              (omega (arith, length-raw, v.is_header.sized, v.is_transport.sized)))
        refl
