-- ===== src/Tests/Tunnel.antt =====
-- A router and a tunnel with connections that count their packets.
use harmony_os_reverse_tethe.Prelude.{
  ℕ, ◌+◌, ◌≡◌, true, false, List, [], ◌∷◌, some, leb, ◌==◌, ok, err, refl, arith, replicate, index,
  subslice,
}
use harmony_os_reverse_tethe.ByteOrder.{big_endian}
use harmony_os_reverse_tethe.ByteBuffer
use harmony_os_reverse_tethe.HashMap.{get, same}
use harmony_os_reverse_tethe.Ipv4Header
use harmony_os_reverse_tethe.Ipv4Header.{Protocol}
use harmony_os_reverse_tethe.Ipv4Packet
use harmony_os_reverse_tethe.IpPacket
use harmony_os_reverse_tethe.IpPacketBuffer
use harmony_os_reverse_tethe.IpPacketBuffer.Laws.{bytes}
use harmony_os_reverse_tethe.Connection
use harmony_os_reverse_tethe.Connection.Same.{connection_id_key, same_id, same-eq-same_id}
use harmony_os_reverse_tethe.Router
use harmony_os_reverse_tethe.Router.Send
use harmony_os_reverse_tethe.Router.Clean
use harmony_os_reverse_tethe.StreamBuffer
use harmony_os_reverse_tethe.StreamBuffer.Refine
use harmony_os_reverse_tethe.Tcp.Event.{IoError, would_block}
use harmony_os_reverse_tethe.Client
use harmony_os_reverse_tethe.Client.Push
use harmony_os_reverse_tethe.Client.Event
use harmony_os_reverse_tethe.Client.Drain
use harmony_os_reverse_tethe.Client.Frames
use harmony_os_reverse_tethe.Client.Output
use harmony_os_reverse_tethe.Client.Interests
use harmony_os_reverse_tethe.Tests.Packets.{
  datagram, parsed, stream, parse-datagram, front-datagram,
}

-- A connection is the number of its packets: it is expired from five on, and closed at three.
abbrev operations : Router.Operations IoError ℕ Client.ClientChannel
operations = record {
  send_to_network = λ c channel packet. ok (c + 1, channel);
  close = λ c. 3;
  expire = λ c channel. (3, channel);
  is_expired = λ c. leb 5 c;
  is_closed = λ c. c == 3;
}

abbrev creation : Router.Creation ℕ
creation = record {
  create_tcp = λ id packet. some 0;
  create_udp = λ id packet. some 0;
  create_ipv6 = λ id packet. some 0;
}

abbrev id : ℕ → Connection.ConnectionId
id port = record {
  protocol = Protocol.udp;
  source = Connection.v4 (record { a = 10; b = 0; c = 0; d = 1 }) 1;
  destination = Connection.v4 (record { a = 10; b = 0; c = 0; d = 2 }) port;
}

from_packet-parsed : Connection.from_packet parsed ≡ some (id 2)
unfolding Connection.from_packet Connection.from_headers Connection.to_socket_addr
    Connection.to_addr Ipv4Header.protocol_of
from_packet-parsed = refl

abbrev table : Router.Router ℕ
table = (id 9, 1) ∷ (id 2, 4) ∷ []

same-9-2 : same (id 9) (id 2) ≡ false
unfolding same_id
same-9-2 = same-eq-same_id (id 9) (id 2)

same-2-9 : same (id 2) (id 9) ≡ false
unfolding same_id
same-2-9 = same-eq-same_id (id 2) (id 9)

same-2-2 : same (id 2) (id 2) ≡ true
unfolding same_id
same-2-2 = same-eq-same_id (id 2) (id 2)

get-table : get (id 2) table ≡ some 4
get-table = rw (same-2-9, same-2-2) refl

table-IsValid : Router.Send.IsValid operations table
table-IsValid = record { nodup = (rw same-9-2 refl, (refl, tt)); all_open = (refl, (refl, tt)) }

abbrev channel : Client.ClientChannel
channel = record {
  network_to_client = record { buf = replicate 6 0; head = 0; tail = 0 };
  interests = record { readable = true; writable = false };
}

send_to_network_lem_example :
    (after : Router.Router ℕ) × (Router.send_to_network operations creation table channel parsed
      ≡ ok (after, channel))
    × Router.Send.Differs operations table after (id 2) (some 5)
unfolding Router.is_invalid Ipv4Packet.is_valid
send_to_network_lem_example =
    Router.Send.send_to_network_lem operations creation table channel parsed {c = 4}
      from_packet-parsed refl (rw (Router.Send.target, get-table) refl) refl

send-parsed :
    Router.send_to_network operations creation table channel parsed
    ≡ ok ((id 9, 1) ∷ (id 2, 5) ∷ [], channel)
unfolding Router.send_to_network Router.route Router.hand_over Router.is_invalid Ipv4Packet.is_valid
send-parsed =
    rw
      (
        Router.send_to_network, from_packet-parsed, Router.route, get-table, Router.hand_over,
        same-2-9, same-2-2,
      )
      refl

send_to_network-IsValid_example : Router.Send.IsValid operations ((id 9, 1) ∷ (id 2, 5) ∷ [])
send_to_network-IsValid_example =
    Router.Send.send_to_network-IsValid operations creation table channel parsed
      {channel' = channel} table-IsValid send-parsed

abbrev old_table : Router.Router ℕ
old_table = (id 9, 7) ∷ (id 2, 4) ∷ []

clean_expired_connections_lem_example :
    Router.Send.IsValid operations
      (Router.clean_expired_connections operations old_table channel).0.0
    × ((j : Connection.ConnectionId)
        → get j (Router.clean_expired_connections operations old_table channel).0.0
          ≡ Router.Clean.survivor operations (get j old_table))
clean_expired_connections_lem_example =
    Router.Clean.clean_expired_connections_lem operations old_table channel
      (record { nodup = (rw same-9-2 refl, (refl, tt)); all_open = (refl, (refl, tt)) })

abbrev Source : Type 0
Source = List ℕ

-- A tunnel that holds a datagram and two bytes of the next packet.
abbrev client : Client.Client ℕ Source
client = record {
  id = 0x01_02_03_04;
  client_to_network = stream;
  channel = channel;
  router = table;
  closed = false;
  pending_packet_sources = (1 ∷ 2 ∷ 3 ∷ []) ∷ (4 ∷ 5 ∷ 6 ∷ []) ∷ (7 ∷ []) ∷ [];
  pending_id_bytes = 4;
}

push_to_network_lem_example :
    Client.Drain.Ends operations creation client
      (Client.Push.push_to_network operations creation 31 client)
unfolding ByteBuffer.peek
push_to_network_lem_example =
    Client.Drain.push_to_network_lem operations creation 31 client (omega arith) (omega arith)

datagram-IsFrame : Client.Frames.IsFrame datagram
datagram-IsFrame = record { whole = front-datagram; well_formed = λ message e. cc (parse-datagram) }

push_to_network-deliver_all_example :
    (b : IpPacketBuffer.IpPacketBuffer) × (Client.Push.push_to_network operations creation 2 client
      ≡ ok (some (record client { router = (id 9, 1) ∷ (id 2, 5) ∷ []; client_to_network = b })))
    × (bytes b ≡ 0x45 ∷ 0 ∷ [])
unfolding ByteBuffer.peek IpPacket.front_packet_length IpPacket.front_ipv4 index
push_to_network-deliver_all_example =
    Client.Frames.push_to_network-deliver_all operations creation (datagram ∷ []) (0x45 ∷ 0 ∷ []) 2
      client ((id 9, 1) ∷ (id 2, 5) ∷ [], channel) (datagram-IsFrame, tt) refl (omega arith) refl
      (omega arith) (rw (Client.Frames.deliver, parse-datagram, send-parsed) refl)

-- A source is the packet that it has.
abbrev sources : Client.Event.PacketSource (Unit {0}) Source
sources = record { get = λ w s. some s; next = λ w s. ok w }

-- A socket that takes two bytes.
abbrev two_bytes : StreamBuffer.Sink IoError
two_bytes xs = ok 2

process_stalls_example :
    (d : Client.Client ℕ Source) × (Client.Event.process sources operations creation client tt
        (record { readable = false; writable = true })
        two_bytes
        (λ n. err would_block)
      ≡ ok (Client.Event.done (d, tt)))
    × (Client.must_send_id d ≡ true)
    × (d.channel.interests.writable ≡ false)
unfolding Client.send_id StreamBuffer.is_empty subslice
process_stalls_example =
    Client.Interests.process_stalls sources operations creation client tt
      (record { readable = false; writable = true }) two_bytes (λ n. err would_block)
      {c = record client { pending_id_bytes = 2 }} refl refl refl refl refl refl refl
