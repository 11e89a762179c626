-- ===== src/Ipv6Packet.antt =====
-- relay/src/relay/ipv6_packet.rs: an IPv6 packet with its headers read.
use harmony_os_reverse_tethe.Prelude.{
  ℕ, ◌+◌, ◌*◌, ◌/◌, ◌^◌, List, length, Option, none, some, not, ◌||◌, Bool, ltb, ◌==◌,
  if◌then◌else◌, Outcome, ok, err, panic, ◌>>=◌, ◌>>◌, fail_if, index, subslice,
}
use harmony_os_reverse_tethe.ByteOrder.{ByteOrder}
use harmony_os_reverse_tethe.Ipv4Header.{Protocol}
use harmony_os_reverse_tethe.Ipv6Header
use harmony_os_reverse_tethe.Ipv6Header.{Ipv6HeaderData, Ipv6HeaderError, ipv6_header_length}
use harmony_os_reverse_tethe.TransportHeader
use harmony_os_reverse_tethe.TransportHeader.{TransportHeaderData}
use harmony_os_reverse_tethe.ParseError.{
  PacketParseError, malformed, unsupported, from_header_error, truncated_tcp_header,
  invalid_tcp_header_length, truncated_udp_header, invalid_udp_length, unsupported_transport_header,
  ipv6_fragment_header, ipv6_extension_header, ipv6_next_header,
}

pub record Ipv6Packet : Type 0 where
  pub raw : List ℕ
  pub ipv6_header_data : Ipv6HeaderData
  pub transport_header_data : TransportHeaderData

-- `map_err(PacketParseError::from)`.
abbrev pub map_err :
    Outcome Ipv6HeaderError Ipv6HeaderData → Outcome PacketParseError Ipv6HeaderData
map_err (ok h) = ok h
map_err (err e) = err (from_header_error e)
map_err panic = panic

abbrev is_extension : ℕ → Bool
is_extension n = n == 0 || (n == 43 || (n == 50 || (n == 51 || (n == 60 || n == 135))))

-- `match next_header`.
unfoldable pub protocol_of : ℕ → Outcome PacketParseError Protocol
protocol_of n =
    if n == 6
    then ok Protocol.tcp
    else (if n == 17
        then ok Protocol.udp
        else (if n == 44
            then err (unsupported ipv6_fragment_header)
            else (if is_extension n
                then err (unsupported (ipv6_extension_header n))
                else err (unsupported (ipv6_next_header n)))))

-- The checks of a transport header against the payload that holds it, as this file and
-- `validate_ipv4` of ip_packet.rs write them. A byte of a slice is below 2 ^ 8, so that
-- `(a << 8) | b` is a sum.
unfoldable pub check_transport : Protocol → List ℕ → Outcome PacketParseError (Unit {0})
check_transport Protocol.tcp payload = do
  fail_if (ltb (length payload) 20) (malformed truncated_tcp_header)
  offset ← index payload 12
  let tcp_header_length = offset / 2 ^ 4 * 4
  fail_if (ltb tcp_header_length 20 || ltb (length payload) tcp_header_length)
      (malformed invalid_tcp_header_length)
check_transport Protocol.udp payload = do
  fail_if (ltb (length payload) 8) (malformed truncated_udp_header)
  high ← index payload 4
  low ← index payload 5
  fail_if (not (high * 2 ^ 8 + low == length payload)) (malformed invalid_udp_length)
check_transport Protocol.other payload = ok tt

abbrev pub or_unsupported :
    Option TransportHeaderData → Outcome PacketParseError TransportHeaderData
or_unsupported none = err (malformed unsupported_transport_header)
or_unsupported (some h) = ok h

module _ ⦃order : ByteOrder⦄ where
  unfoldable pub parse : List ℕ → Outcome PacketParseError Ipv6Packet
  parse raw = do
    header ← map_err (Ipv6Header.parse raw)
    let total_length = Ipv6Header.total_length header
    protocol ← protocol_of header.next_header
    payload ← subslice raw ipv6_header_length total_length
    check_transport protocol payload
    parsed ← TransportHeader.parse protocol payload
    transport ← or_unsupported parsed
    front ← subslice raw 0 total_length
    ok (record { raw = front; ipv6_header_data = header; transport_header_data = transport })

-- `Ipv6Packet::length`
abbrev pub packet_length : Ipv6Packet → ℕ
packet_length p = length p.raw

-- The bytes behind both headers.
unfoldable pub payload : {E : Type 0} → Ipv6Packet → Outcome E (List ℕ)
payload p =
    subslice p.raw (ipv6_header_length + TransportHeader.header_length p.transport_header_data)
      (length p.raw)
