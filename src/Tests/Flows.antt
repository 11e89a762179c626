-- ===== src/Tests/Flows.antt =====
-- Checksums of small headers, a datagram on its way to the network, and a socket that fails.
use harmony_os_reverse_tethe.Prelude.{
  ℕ, ◌-◌, ◌+◌, ◌^◌, ◌%◌, ◌≤◌, ◌<◌, ◌≡◌, ◌⊎◌, ◌↔◌, Bool, true, false, ◌&&◌, List, [], ◌∷◌, ◌++◌,
  take, drop, some, ltb, ok, err, refl, arith, length, All, byte, replicate, subslice,
}
use harmony_os_reverse_tethe.ByteOrder.{big_endian}
use harmony_os_reverse_tethe.IpPacket.Framing.{IsByte}
use harmony_os_reverse_tethe.IpPacket.{ipv4, ipv6}
use harmony_os_reverse_tethe.Ipv4Header
use harmony_os_reverse_tethe.Ipv4Header.Edit
use harmony_os_reverse_tethe.Ipv4Header.Checksum as Ipv4Checksum
use harmony_os_reverse_tethe.TcpHeader
use harmony_os_reverse_tethe.TcpHeader.Edit as TcpEdit
use harmony_os_reverse_tethe.TcpHeader.Checksum as TcpChecksum
use harmony_os_reverse_tethe.Checksum
use harmony_os_reverse_tethe.Checksum.Words
use harmony_os_reverse_tethe.DatagramBuffer
use harmony_os_reverse_tethe.DatagramBuffer.Blocks
use harmony_os_reverse_tethe.Ipv4Packet
use harmony_os_reverse_tethe.Ipv6Packet
use harmony_os_reverse_tethe.TransportHeader
use harmony_os_reverse_tethe.UdpHeader
use harmony_os_reverse_tethe.Client.Event as Event
use harmony_os_reverse_tethe.Tcp.Flow as Flow
use harmony_os_reverse_tethe.Tcp.Event.{IoError, would_block, other}
use harmony_os_reverse_tethe.Udp
use harmony_os_reverse_tethe.Udp.Queue
use harmony_os_reverse_tethe.Ipv6Connection
use harmony_os_reverse_tethe.Ipv6Connection.Leak
use harmony_os_reverse_tethe.Tests.Buffers.{one_datagram, one_datagram-IsValid, one_datagram-Holds}
use harmony_os_reverse_tethe.Tests.Packets.{datagram}

abbrev largest : ℕ
largest = 0xffff_ffff

fold_ends_example :
    (Checksum.fold (2 + 7) largest ≡ Checksum.fold 2 largest)
    × (Checksum.fold 2 largest < 2 ^ 16)
    × (Checksum.fold 2 largest % (2 ^ 16 - 1) ≡ largest % (2 ^ 16 - 1))
    × (Checksum.fold 2 largest ≡ 0 → largest ≡ 0)
fold_ends_example = Checksum.fold_ends 7 largest (omega arith)

abbrev pub all_bytes : List ℕ → Bool
all_bytes [] = true
all_bytes (b ∷ bs) = ltb b (2 ^ 8) && all_bytes bs

pub all_bytes-IsByte : (bs : List ℕ) → all_bytes bs ≡ true → All IsByte bs
all_bytes-IsByte [] h = tt
all_bytes-IsByte (b ∷ bs) h = ground (arith, all_bytes-IsByte bs)

abbrev header : Ipv4Header.Edit.Ipv4HeaderMut
header = record { raw = datagram; header_data = Ipv4Header.header_of datagram }

update_checksum-verifies_example :
    (r : Ipv4Header.Edit.Ipv4HeaderMut) × (total : ℕ) × (Ipv4Checksum.update_checksum {E = Bool}
        header
      ≡ ok r)
    × (r.header_data ≡ header.header_data)
    × ((k : ℕ) → (k < 10) ⊎ (12 ≤ k) → byte r.raw k ≡ byte datagram k)
    × (length r.raw ≡ 28)
    × All IsByte r.raw
    × (Checksum.Words.read_words {E = Bool} r.raw 0 10 ≡ ok total)
    × (Checksum.fold 2 total ≡ 2 ^ 16 - 1)
update_checksum-verifies_example =
    Ipv4Checksum.update_checksum-verifies header 4 refl (omega arith) (omega arith) (omega arith)
      (all_bytes-IsByte datagram refl)

parse-datagram_header : Ipv4Header.parse {E = Bool} datagram ≡ ok header.header_data
parse-datagram_header = Ipv4Header.parse-eq-ok datagram (omega arith)

-- Twenty bytes of a TCP header, and a payload of an odd length.
abbrev segment : TcpEdit.TcpHeaderMut
segment = record {
  raw = 4 ∷ 210 ∷ 22 ∷ 46 ∷ 0 ∷ 0 ∷ 0 ∷ 1 ∷ 0 ∷ 0 ∷ 0 ∷ 0 ∷ 80 ∷ 16 ∷ 32 ∷ 0 ∷ 9 ∷ 9 ∷ 0 ∷ 0 ∷ [];
  header_data =
      TcpHeader.header_of
        (4 ∷ 210 ∷ 22 ∷ 46 ∷ 0 ∷ 0 ∷ 0 ∷ 1 ∷ 0 ∷ 0 ∷ 0 ∷ 0 ∷ 80 ∷ 16 ∷ 32 ∷ 0 ∷ 9 ∷ 9 ∷ 0 ∷ 0 ∷ []);
}

abbrev ip : Ipv4Header.Ipv4HeaderData
ip = record (Ipv4Header.header_of datagram) { total_length = 43; protocol = Ipv4Header.tcp }

update_tcp_checksum-verifies_example :
    (r : TcpEdit.TcpHeaderMut) × (TcpChecksum.update_checksum {E = Bool} segment ip
        (0xde ∷ 0xad ∷ 0xbe ∷ [])
      ≡ ok r)
    × (r.header_data ≡ segment.header_data)
    × ((k : ℕ) → (k < 16) ⊎ (18 ≤ k) → byte r.raw k ≡ byte segment.raw k)
    × (length r.raw ≡ 20)
    × All IsByte r.raw
    × (Checksum.fold 2 (
          TcpChecksum.pseudo_sum ip 23
          + Checksum.word_sum (take 20 r.raw)
          + Checksum.word_sum (0xde ∷ 0xad ∷ 0xbe ∷ []))
        ≡ 2 ^ 16 - 1)
update_tcp_checksum-verifies_example =
    TcpChecksum.update_tcp_checksum-verifies segment ip (0xde ∷ 0xad ∷ 0xbe ∷ []) 1 refl
      (omega arith) (omega arith) (omega arith) refl (omega arith) (omega arith) (omega arith)
      (all_bytes-IsByte segment.raw refl) (all_bytes-IsByte (0xde ∷ 0xad ∷ 0xbe ∷ []) refl)

abbrev connection : DatagramBuffer.DatagramBuffer → Udp.UdpConnection
connection buffer = record {
  client_to_network = buffer;
  network_to_client = record {
    payload_index = 28;
    sequence_number = 0;
    acknowledgement_number = 0;
    flags = 0;
    total_length = 28;
    payload = [];
  };
  closed = false;
  interests = record { readable = true; writable = false };
  idle_since = 0;
  client = record { remaining = 100; sent = []; pending_sources = 0 };
  registered = true;
  in_router = true;
}

-- The datagram with two bytes of payload.
abbrev packet : Ipv4Packet.Ipv4Packet
packet = record {
  raw = datagram ++ 5 ∷ 6 ∷ [];
  ipv4_header_data = record (Ipv4Header.header_of datagram) { total_length = 30 };
  transport_header_data = some (TransportHeader.udp (UdpHeader.header_of (drop 20 datagram)));
}

send_to_network-Queues_example :
    (g : Udp.UdpConnection) × (Udp.send_to_network {E = Bool}
        (connection (DatagramBuffer.new 20))
        (ipv4 packet)
      ≡ ok g)
    × Udp.Queue.Queues g ((5 ∷ 6 ∷ []) ∷ [])
    × (◌≡◌ {A = Bool} true true → g.interests.writable ≡ true)
    × (◌≡◌ {A = Bool} true false → g ≡ connection (DatagramBuffer.new 20))
    × (g.closed ≡ false)
unfolding Ipv4Packet.payload subslice DatagramBuffer.has_enough_space_for DatagramBuffer.new
send_to_network-Queues_example =
    Udp.Queue.send_to_network-Queues (connection (DatagramBuffer.new 20)) packet (5 ∷ 6 ∷ []) []
      refl
      (record {
        valid = DatagramBuffer.Blocks.new-IsValid 20;
        holds = DatagramBuffer.Blocks.new-Holds 20;
      })
      (omega arith) (λ space z. omega arith)

abbrev blocked : DatagramBuffer.Sender IoError
blocked d = err would_block

process_send_takes_example :
    (g : Udp.UdpConnection) × (Udp.process_send (connection one_datagram) blocked
      ≡ ok (Event.done g))
    × Udp.Queue.Queues g []
    × ((g.closed ≡ false)
        ↔ ((blocked (5 ∷ 6 ∷ []) ≡ ok 2) ⊎ (blocked (5 ∷ 6 ∷ []) ≡ err would_block)))
process_send_takes_example =
    Udp.Queue.process_send_takes (connection one_datagram) (5 ∷ 6 ∷ []) [] blocked
      (record { valid = one_datagram-IsValid; holds = one_datagram-Holds }) refl (λ e. cc)

abbrev flow : Ipv6Connection.Ipv6Connection
flow = record {
  stream = true;
  closed = false;
  idle_since = 0;
  written = [];
  sent = [];
  remaining = 100;
  registered = true;
  in_router = true;
}

-- An IPv6 header, a UDP header and one byte.
abbrev packet6 : Ipv6Packet.Ipv6Packet
packet6 = record {
  raw = replicate 48 0 ++ 5 ∷ [];
  ipv6_header_data = record { payload_length = 9; next_header = 17; source = []; destination = [] };
  transport_header_data = TransportHeader.udp (record { source_port = 1; destination_port = 2 });
}

abbrev failing : Ipv6Connection.Writer
failing bytes = err other

failed_write_leaks_example :
    (g : Ipv6Connection.Ipv6Connection) × (Ipv6Connection.send_to_network {E = Bool} flow 3
        (ipv6 packet6)
        failing
      ≡ ok g)
    × (g.closed ≡ true)
    × ((Ipv6Connection.close g).registered ≡ true)
    × ((later : ℕ) (ready : Flow.Ready) (build : Ipv6Connection.Synthesis)
          (reading : Ipv6Connection.Reading)
        → Ipv6Connection.process {E = Bool} g later ready build reading ≡ ok (Event.done g))
unfolding Ipv6Packet.payload subslice
failed_write_leaks_example =
    Ipv6Connection.Leak.failed_write_leaks flow 3 packet6 (5 ∷ []) failing refl refl refl refl
