-- ===== src/IpPacket/Ipv6.antt =====
-- The IPv6 parser: it indexes nothing out of range, and what it returns.
use harmony_os_reverse_tethe.Prelude.{
  ℕ, ◌+◌, ◌≤◌, ◌≡◌, ◌≢◌, refl, List, length, slice, some, arith, Outcome, ok, err, panic, ◌>>=◌,
  byte, index-eq-ok, subslice, subslice-eq-ok, >>=-ne-panic, >>=-eq-ok, ◌>>◌,
}
use harmony_os_reverse_tethe.ByteOrder.{ByteOrder, u16_at, read_u16_at-eq-ok}
use harmony_os_reverse_tethe.Ipv6Header.{Ipv6HeaderData, Ipv6HeaderError}
use harmony_os_reverse_tethe.TransportHeader.{TransportHeaderData}
use harmony_os_reverse_tethe.Ipv4Header.{Protocol}
use harmony_os_reverse_tethe.TransportHeader
use harmony_os_reverse_tethe.Ipv6Packet
use harmony_os_reverse_tethe.Ipv6Packet.{Ipv6Packet, check_transport, map_err, or_unsupported}
use harmony_os_reverse_tethe.Ipv6Header
use harmony_os_reverse_tethe.ParseError.{PacketParseError}
use harmony_os_reverse_tethe.IpPacket.Checks.{check_transport-ne-panic, check_transport-length}
use harmony_os_reverse_tethe.IpPacket.Ipv4.{transport_of, parse_transport}

module _ ⦃order : ByteOrder⦄ (raw : List ℕ) where
  pub parse_ipv6_header-ne-panic : Ipv6Header.parse raw ≢ panic
  unfolding Ipv6Header.parse
  parse_ipv6_header-ne-panic h = ground (
    arith,
    index-eq-ok {E = Ipv6HeaderError} raw 0,
    read_u16_at-eq-ok {E = Ipv6HeaderError} raw 4,
    index-eq-ok {E = Ipv6HeaderError} raw 6,
    subslice-eq-ok {E = Ipv6HeaderError} raw 8 24,
    subslice-eq-ok {E = Ipv6HeaderError} raw 24 40,
  )

  pub parse_ipv6_header-ok :
      {h : Ipv6HeaderData}
      → Ipv6Header.parse raw ≡ ok h
      → (Ipv6Header.total_length h ≤ length raw)
        × (h.payload_length ≡ u16_at raw 4)
        × (h.next_header ≡ byte raw 6)
        × (h.source ≡ slice 8 24 raw)
        × (h.destination ≡ slice 24 40 raw)
  unfolding Ipv6Header.parse
  parse_ipv6_header-ok h = ground (
    arith,
    index-eq-ok {E = Ipv6HeaderError} raw 0,
    read_u16_at-eq-ok {E = Ipv6HeaderError} raw 4,
    index-eq-ok {E = Ipv6HeaderError} raw 6,
    subslice-eq-ok {E = Ipv6HeaderError} raw 8 24,
    subslice-eq-ok {E = Ipv6HeaderError} raw 24 40,
  )

  protocol_of-ne-panic : (n : ℕ) → Ipv6Packet.protocol_of n ≢ panic
  unfolding Ipv6Packet.protocol_of
  protocol_of-ne-panic n h = ground arith

  map_err-ok :
      (m : Outcome Ipv6HeaderError Ipv6HeaderData) {h : Ipv6HeaderData}
      → map_err m ≡ ok h
      → m ≡ ok h
  map_err-ok (ok x) e = cc
  map_err-ok (err x) e = cc
  map_err-ok panic e = cc

  map_err-ne-panic : (m : Outcome Ipv6HeaderError Ipv6HeaderData) → m ≢ panic → map_err m ≢ panic
  map_err-ne-panic (ok x) h e = cc
  map_err-ne-panic (err x) h e = cc
  map_err-ne-panic panic h e = h refl

  -- The rest of the IPv6 parser, behind the header and the protocol.
  abbrev parse_behind : Ipv6HeaderData → Protocol → Outcome PacketParseError Ipv6Packet
  parse_behind header protocol = do
    payload ← subslice raw 40 (Ipv6Header.total_length header)
    check_transport protocol payload
    parsed ← TransportHeader.parse protocol payload
    transport ← or_unsupported parsed
    front ← subslice raw 0 (Ipv6Header.total_length header)
    ok (record { raw = front; ipv6_header_data = header; transport_header_data = transport })

  module _ (header : Ipv6HeaderData) (protocol : Protocol)
      (fits : Ipv6Header.total_length header ≤ length raw) where
    parse_behind-ne-panic : parse_behind header protocol ≢ panic
    parse_behind-ne-panic h = ground (
      arith,
      subslice-eq-ok {E = PacketParseError} raw 40 (Ipv6Header.total_length header),
      subslice-eq-ok {E = PacketParseError} raw 0 (Ipv6Header.total_length header),
      check_transport-ne-panic protocol (slice 40 (Ipv6Header.total_length header) raw),
      check_transport-length protocol (slice 40 (Ipv6Header.total_length header) raw),
      parse_transport {E = PacketParseError} protocol
          (slice 40 (Ipv6Header.total_length header) raw),
    )

    parse_behind-ok :
        {p : Ipv6Packet}
        → parse_behind header protocol ≡ ok p
        → (p.raw ≡ slice 0 (Ipv6Header.total_length header) raw)
          × (p.ipv6_header_data ≡ header)
          × (check_transport protocol (slice 40 (Ipv6Header.total_length header) raw) ≡ ok tt)
          × (some p.transport_header_data
              ≡ transport_of protocol (slice 40 (Ipv6Header.total_length header) raw))
    parse_behind-ok h = ground (
      arith,
      subslice-eq-ok {E = PacketParseError} raw 40 (Ipv6Header.total_length header),
      subslice-eq-ok {E = PacketParseError} raw 0 (Ipv6Header.total_length header),
      check_transport-length protocol (slice 40 (Ipv6Header.total_length header) raw),
      parse_transport {E = PacketParseError} protocol
          (slice 40 (Ipv6Header.total_length header) raw),
    )

  -- Behind the header, nothing of the IPv6 parser indexes out of range.
  pub parse_ipv6-ne-panic : Ipv6Packet.parse raw ≢ panic
  unfolding Ipv6Packet.parse
  parse_ipv6-ne-panic =
      >>=-ne-panic (map_err (Ipv6Header.parse raw)) _
        (map_err-ne-panic _ parse_ipv6_header-ne-panic)
        λ header e.
          >>=-ne-panic (Ipv6Packet.protocol_of header.next_header) _
            (protocol_of-ne-panic header.next_header)
            λ protocol _.
              parse_behind-ne-panic header protocol (parse_ipv6_header-ok (map_err-ok _ e)).0

  -- What an IPv6 packet that is parsed holds.
  pub parse_ipv6-ok :
      {p : Ipv6Packet}
      → Ipv6Packet.parse raw ≡ ok p
      → (p.ipv6_header_data.payload_length ≡ u16_at raw 4)
        × (40 + u16_at raw 4 ≤ length raw)
        × (p.raw ≡ slice 0 (40 + u16_at raw 4) raw)
  unfolding Ipv6Packet.parse
  parse_ipv6-ok h =
      let (header, e, k) = >>=-eq-ok (map_err (Ipv6Header.parse raw)) _ h in
      let (protocol, f, m) = >>=-eq-ok (Ipv6Packet.protocol_of header.next_header) _ k in
      let known = parse_ipv6_header-ok (map_err-ok _ e) in
      let found = parse_behind-ok header protocol known.0 m in ground (arith, known, found)
