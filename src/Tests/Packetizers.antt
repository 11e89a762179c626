-- ===== src/Tests/Packetizers.antt =====
-- A datagram of four bytes as the packetizers send it, and the clients and deadlines of the relay.
use harmony_os_reverse_tethe.Prelude.{
  ℕ, zero, suc, ◌+◌, ◌-◌, ◌^◌, ◌≤◌, ◌<◌, ◌≡◌, ◌⊎◌, ◌↔◌, Bool, true, false, List, [], ◌∷◌, ◌++◌,
  drop, some, Outcome, ok, err, refl, arith, length-drop, inl, inr,
}
use mathlib.Core.List.{Perm}
use harmony_os_reverse_tethe.ByteOrder.{big_endian}
use harmony_os_reverse_tethe.IpPacket
use harmony_os_reverse_tethe.IpPacket.{ipv4, ipv6}
use harmony_os_reverse_tethe.Checksum
use harmony_os_reverse_tethe.Ipv4Header
use harmony_os_reverse_tethe.Ipv4Packet
use harmony_os_reverse_tethe.Ipv6Header
use harmony_os_reverse_tethe.Ipv6Packet
use harmony_os_reverse_tethe.UdpHeader
use harmony_os_reverse_tethe.TransportHeader
use harmony_os_reverse_tethe.TransportHeader.Edit as TransportEdit
use harmony_os_reverse_tethe.Packetizer
use harmony_os_reverse_tethe.Packetizer.Header as Header
use harmony_os_reverse_tethe.Packetizer.Transport as Transport
use harmony_os_reverse_tethe.Packetizer.Layout as Layout
use harmony_os_reverse_tethe.Packetizer.Build as Build
use harmony_os_reverse_tethe.Packetizer.Laws
use harmony_os_reverse_tethe.Packetizer.New as New
use harmony_os_reverse_tethe.Ipv6Packetizer
use harmony_os_reverse_tethe.Ipv6Packetizer.Parts as Parts6
use harmony_os_reverse_tethe.Ipv6Packetizer.Layout as Layout6
use harmony_os_reverse_tethe.Ipv6Packetizer.Laws as Laws6
use harmony_os_reverse_tethe.Ipv6Packetizer.Packet as Packet6
use harmony_os_reverse_tethe.Ipv6Packetizer.Packetize
use harmony_os_reverse_tethe.Ipv6Packetizer.New as New6
use harmony_os_reverse_tethe.TunnelServer
use harmony_os_reverse_tethe.TunnelServer.Accept
use harmony_os_reverse_tethe.TunnelServer.Remove
use harmony_os_reverse_tethe.Relay
use harmony_os_reverse_tethe.Relay.Deadlines
use harmony_os_reverse_tethe.Tcp.Event.{IoError, other}
use harmony_os_reverse_tethe.Tests.Flows.{all_bytes-IsByte}

abbrev header : List ℕ
header = 0x45 ∷ 0 ∷ 0 ∷ 32 ∷ 0 ∷ 1 ∷ 0 ∷ 0 ∷ 64 ∷ 17 ∷ 0 ∷ 0 ∷ 10 ∷ 0 ∷ 0 ∷ 2 ∷ 8 ∷ 8 ∷ 8 ∷ 8 ∷ []

abbrev transport : List ℕ
transport = 4 ∷ 210 ∷ 0 ∷ 53 ∷ 0 ∷ 12 ∷ 0 ∷ 0 ∷ []

abbrev payload : List ℕ
payload = 1 ∷ 2 ∷ 3 ∷ 4 ∷ []

abbrev ip : Ipv4Header.Ipv4HeaderData
ip = Ipv4Header.header_of header

abbrev udp_data : TransportHeader.TransportHeaderData
udp_data = TransportHeader.udp (UdpHeader.header_of transport)

header-IsHeader : Header.IsHeader header ip
unfolding Ipv4Header.protocol_of
header-IsHeader = record {
  least = omega arith;
  sized = refl;
  reads = refl;
  version = refl;
  flags = refl;
  offset = (refl, refl);
  bytes = all_bytes-IsByte header refl;
}

transport-IsTransport : Transport.IsTransport transport udp_data
transport-IsTransport = record {
  long = omega arith;
  sized = refl;
  reads = refl;
  bytes = all_bytes-IsByte transport refl;
}

protocols : ip.protocol ≡ Transport.protocol_of udp_data
unfolding Ipv4Header.protocol_of
protocols = refl

new-IsValid_example :
    (p : Packetizer.Packetizer) × (Packetizer.new {E = Bool}
        (record { raw = header; header_data = ip })
        (TransportEdit.bind udp_data transport)
      ≡ ok p)
    × Build.IsValid p
    × (p.ipv4_header_data ≡ record ip { source = 0x0808_0808; destination = 0x0a00_0002 })
    × (p.transport_header_data
        ≡ TransportHeader.udp (record { source_port = 53; destination_port = 1234 }))
new-IsValid_example =
    New.new-IsValid header transport ip udp_data header-IsHeader transport-IsTransport protocols

abbrev rest : List ℕ
rest = drop 28 Packetizer.zeros

abbrev packetizer : Packetizer.Packetizer
packetizer = Layout.laid_out header transport rest ip udp_data

packetizer-IsValid : Build.IsValid packetizer
packetizer-IsValid = record {
  header = header;
  transport = transport;
  rest = rest;
  laid = refl;
  is_header = header-IsHeader;
  is_transport = transport-IsTransport;
  protocol = protocols;
  full = omega (arith, length-drop {0} {A = ℕ} 28 Packetizer.zeros, New.length-zeros);
}

packetize-Holds_example :
    (q : Packetizer.Packetizer) × (packet : Ipv4Packet.Ipv4Packet) × (Packetizer.packetize
        {E = Bool} packetizer
        (λ n. ok payload)
      ≡ ok (q, packet))
    × Laws.Holds Bool q payload (record ip { total_length = 32 }) udp_data packet
packetize-Holds_example =
    Laws.packetize-Holds packetizer (λ n. ok payload) payload packetizer-IsValid refl
      (all_bytes-IsByte payload refl) (omega arith)

packetize-parse_example :
    (q : Packetizer.Packetizer) × (packet : Ipv4Packet.Ipv4Packet) × (Packetizer.packetize
        {E = Bool} packetizer
        (λ n. ok payload)
      ≡ ok (q, packet))
    × (IpPacket.parse packet.raw ≡ ok (ipv4 packet))
    × (Ipv4Packet.payload {E = Bool} packet ≡ ok (some payload))
packetize-parse_example =
    Laws.packetize-parse packetizer (λ n. ok payload) payload packetizer-IsValid refl
      (all_bytes-IsByte payload refl) (omega arith)

abbrev address : ℕ → List ℕ
address n = 0x20 ∷ 1 ∷ 0x0d ∷ 0xb8 ∷ 0 ∷ 0 ∷ 0 ∷ 0 ∷ 0 ∷ 0 ∷ 0 ∷ 0 ∷ 0 ∷ 0 ∷ 0 ∷ n ∷ []

abbrev ipv6_header : List ℕ
ipv6_header = 0x60 ∷ 0 ∷ 0 ∷ 0 ∷ 0 ∷ 12 ∷ 17 ∷ 64 ∷ address 1 ++ address 2

abbrev ip6 : Ipv6Header.Ipv6HeaderData
ip6 = record { payload_length = 12; next_header = 17; source = address 1; destination = address 2 }

ipv6_header-IsHeader : Parts6.IsHeader ipv6_header ip6
ipv6_header-IsHeader = record {
  sized = refl;
  version = refl;
  next = refl;
  source = refl;
  destination = refl;
  bytes = all_bytes-IsByte ipv6_header refl;
}

protocols6 : Ipv6Packet.protocol_of ip6.next_header ≡ ok (Transport.protocol_of udp_data)
unfolding Ipv6Packet.protocol_of
protocols6 = refl

new_ipv6-IsValid_example :
    (p : Ipv6Packetizer.Ipv6Packetizer) × (Ipv6Packetizer.new {E = Bool}
        (record { raw = ipv6_header; header_data = ip6 })
        (TransportEdit.bind udp_data transport)
      ≡ ok p)
    × Laws6.IsValid p
    × (p.ipv6_header_data.source ≡ address 2)
    × (p.ipv6_header_data.destination ≡ address 1)
    × (p.ipv6_header_data.next_header ≡ 17)
    × (p.transport_header_data
        ≡ TransportHeader.udp (record { source_port = 53; destination_port = 1234 }))
new_ipv6-IsValid_example =
    New6.new_ipv6-IsValid ipv6_header transport ip6 udp_data ipv6_header-IsHeader
      transport-IsTransport protocols6

abbrev rest6 : List ℕ
rest6 = drop 48 Packetizer.zeros

abbrev packetizer6 : Ipv6Packetizer.Ipv6Packetizer
packetizer6 = Layout6.laid_out ipv6_header transport rest6 ip6 udp_data

packetizer6-IsValid : Laws6.IsValid packetizer6
packetizer6-IsValid = record {
  header = ipv6_header;
  transport = transport;
  rest = rest6;
  laid = refl;
  is_header = ipv6_header-IsHeader;
  is_transport = transport-IsTransport;
  protocol = protocols6;
  full = omega (arith, length-drop {0} {A = ℕ} 48 Packetizer.zeros, New.length-zeros);
}

packetize_ipv6-parse_example :
    (q : Ipv6Packetizer.Ipv6Packetizer) × (packet : Ipv6Packet.Ipv6Packet)
    × (Ipv6Packetizer.packetize {E = Bool} packetizer6 (λ n. ok payload) ≡ ok (q, packet))
    × (IpPacket.parse packet.raw ≡ ok (ipv6 packet))
    × (Ipv6Packet.payload {E = Bool} packet ≡ ok payload)
    × (Checksum.fold 2 (Packet6.receiver_sum packet.raw packet.ipv6_header_data.next_header)
        ≡ 2 ^ 16 - 1)
    × Laws6.IsValid q
    × (q.ipv6_header_data ≡ ip6)
    × (q.transport_header_data ≡ udp_data)
packetize_ipv6-parse_example =
    Packetize.packetize_ipv6-parse packetizer6 (λ n. ok payload) payload packetizer6-IsValid refl
      (all_bytes-IsByte payload refl) (omega arith)

-- A stream is its pointer. The one at 0 cannot be made a client.
abbrev open_client : ℕ → ℕ → Outcome IoError (TunnelServer.Held ℕ)
open_client id zero = err other
open_client id (suc stream) = ok (record { pointer = suc stream; client = id })

abbrev held : ℕ → ℕ → TunnelServer.Held ℕ
held stream id = record { pointer = stream; client = id }

abbrev server : TunnelServer.TunnelServer ℕ
server = record { clients = held 70 4 ∷ []; next_client_id = 5 }

on_ready_stops_example :
    TunnelServer.on_ready open_client server (ok 71 ∷ ok 72 ∷ ok 0 ∷ ok 73 ∷ [])
    ≡ ok (
      record { clients = held 70 4 ∷ held 71 5 ∷ held 72 6 ∷ []; next_client_id = 8 },
      ok 73 ∷ [],
    )
on_ready_stops_example =
    Accept.on_ready_stops open_client server (71 ∷ 72 ∷ []) (held 71 5 ∷ held 72 6 ∷ []) 0 other
      (ok 73 ∷ []) (refl, (refl, tt)) refl

abbrev three : TunnelServer.TunnelServer ℕ
three = record { clients = held 70 4 ∷ held 71 5 ∷ held 72 6 ∷ []; next_client_id = 7 }

remove_client-Perm_example :
    (r : TunnelServer.TunnelServer ℕ) × (removed : TunnelServer.Held ℕ)
    × (TunnelServer.remove_client {E = Bool} three 71 ≡ ok r)
    × (removed.pointer ≡ 71)
    × Perm three.clients (removed ∷ r.clients)
    × (r.next_client_id ≡ 7)
remove_client-Perm_example = Remove.remove_client-Perm three 71 (inr (inl refl))

abbrev schedule : Relay.Schedule
schedule = record { next_cleaning_deadline = 105; next_stats_deadline = 400 }

round-IsValid_example :
    let r = Relay.round schedule 107 true in
    let wait = Relay.timeout_seconds r.schedule 108 in
    ((r.cleans ≡ true) ↔ (105 ≤ 107))
    × (r.runs_handlers ≡ false)
    × Deadlines.IsValid r.schedule 107
    × (107 < r.schedule.next_cleaning_deadline)
    × (107 < r.schedule.next_stats_deadline)
    × (wait ≤ 5)
    × (108 < r.schedule.next_cleaning_deadline
        → 108 < r.schedule.next_stats_deadline
        → (108 + wait ≤ r.schedule.next_cleaning_deadline)
          × (108 + wait ≤ r.schedule.next_stats_deadline)
          × ((108 + wait ≡ r.schedule.next_cleaning_deadline)
              ⊎ (108 + wait ≡ r.schedule.next_stats_deadline)))
    × ((r.schedule.next_cleaning_deadline ≤ 108) ⊎ (r.schedule.next_stats_deadline ≤ 108)
        → wait ≡ 0)
round-IsValid_example =
    Deadlines.round-IsValid schedule 100 107 108 true
      (record { cleaning = omega arith; stats = omega arith }) (omega arith) (omega arith)
