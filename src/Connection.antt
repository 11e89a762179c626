-- ===== src/Connection.antt =====
-- relay/src/relay/connection.rs and net.rs: the addresses of a flow, by which the router finds it. The string of
-- `ConnectionId`, which is made from the other fields, is left out.
pub mod Same
use harmony_os_reverse_tethe.Prelude.{
  ℕ, ◌+◌, ◌*◌, ◌/◌, ◌%◌, ◌^◌, ◌<◌, ◌≡◌, refl, ap, Bool, true, false, ◌&&◌, List, [], ◌∷◌, Option,
  none, some, arith, ◌==◌, if◌then◌else◌, byte,
}
use harmony_os_reverse_tethe.ByteOrder.{ByteOrder}
use harmony_os_reverse_tethe.Ipv4Header.{Protocol, Ipv4HeaderData}
use harmony_os_reverse_tethe.TransportHeader
use harmony_os_reverse_tethe.TransportHeader.{TransportHeaderData}
use harmony_os_reverse_tethe.IpPacket.{IpPacket, ipv4, ipv6}

-- `Ipv4Addr`, by its octets.
pub record Ipv4Addr : Type 0 where
  pub a : ℕ
  pub b : ℕ
  pub c : ℕ
  pub d : ℕ

-- `u32::from`
abbrev pub u32_of : Ipv4Addr → ℕ
u32_of ip = ip.a * 2 ^ 24 + ip.b * 2 ^ 16 + ip.c * 2 ^ 8 + ip.d

pub data SocketAddr : Type 0 where
  v4 : Ipv4Addr → ℕ → SocketAddr
  v6 : List ℕ → ℕ → SocketAddr

abbrev pub port : SocketAddr → ℕ
port (v4 ip p) = p
port (v6 ip p) = p

module _ ⦃order : ByteOrder⦄ where
  -- `to_byte_array` of binary.rs writes four bytes.
  unfoldable pub to_addr : ℕ → Ipv4Addr
  to_addr ip =
      let raw = order.write_u32 ip in
      record { a = byte raw 0; b = byte raw 1; c = byte raw 2; d = byte raw 3 }

  unfoldable pub to_socket_addr : ℕ → ℕ → SocketAddr
  unfolding to_addr
  to_socket_addr ip p = v4 (to_addr ip) p

  -- An address goes to octets and back without loss.
  pub u32_of-to_addr : (ip : ℕ) → ip < 2 ^ 32 → u32_of (to_addr ip) ≡ ip
  unfolding to_addr
  u32_of-to_addr ip h = rw (order.write_u32_lem ip h) (omega arith)

pub record ConnectionId : Type 0 where
  pub protocol : Protocol
  pub source : SocketAddr
  pub destination : SocketAddr

abbrev pub localhost_forward : ℕ
localhost_forward = 0x0A_00_02_02

abbrev pub localhost : ℕ
localhost = 0x7F_00_00_01

-- relay/src/dns.rs
abbrev pub virtual_dns : ℕ
virtual_dns = 0x0a000003

-- `match header.next_header()`
unfoldable pub protocol_of_next : ℕ → Option Protocol
protocol_of_next n =
    if n == 6 then some Protocol.tcp else (if n == 17 then some Protocol.udp else none)

module _ ⦃order : ByteOrder⦄ where
  unfoldable pub from_headers : Ipv4HeaderData → TransportHeaderData → ConnectionId
  unfolding to_socket_addr
  from_headers header transport = record {
    protocol = header.protocol;
    source = to_socket_addr header.source (TransportHeader.source_port transport);
    destination = to_socket_addr header.destination (TransportHeader.destination_port transport);
  }

  unfoldable pub from_packet : IpPacket → Option ConnectionId
  unfolding from_headers protocol_of_next
  from_packet (ipv4 packet) = elim packet.transport_header_data [
    | none ↦ none
    | some transport ↦ some (from_headers packet.ipv4_header_data transport)
  ]
  from_packet (ipv6 packet) = elim (protocol_of_next packet.ipv6_header_data.next_header) [
    | none ↦ none
    | some protocol ↦ some (record {
      protocol = protocol;
      source =
          v6 packet.ipv6_header_data.source
            (TransportHeader.source_port packet.transport_header_data);
      destination =
          v6 packet.ipv6_header_data.destination
            (TransportHeader.destination_port packet.transport_header_data);
    })
  ]

  -- `upstream` is the resolver that `dns::configure` chose.
  unfoldable pub rewritten_destination : SocketAddr → ConnectionId → SocketAddr
  unfolding to_socket_addr
  rewritten_destination upstream id = elim id.destination [
    | v4 ip p ↦
        if u32_of ip == virtual_dns && p == 53
        then upstream
        else (if u32_of ip == localhost_forward then to_socket_addr localhost p else v4 ip p)
    | v6 ip p ↦ v6 ip p
  ]
