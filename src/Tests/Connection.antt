-- ===== src/Tests/Connection.antt =====
-- A TCP connection on a few packets and socket events.
use harmony_os_reverse_tethe.Prelude.{
  ℕ, zero, suc, ◌+◌, ◌*◌, ◌^◌, ◌≤◌, ◌≡◌, ◌⊎◌, true, false, [], ◌∷◌, ◌++◌, length, take, some, none,
  ok, ◌>>=◌, refl, arith, replicate,
}
use harmony_os_reverse_tethe.StreamBuffer
use harmony_os_reverse_tethe.StreamBuffer.{StreamBuffer, Sink}
use harmony_os_reverse_tethe.StreamBuffer.Inv.{IsValid}
use harmony_os_reverse_tethe.StreamBuffer.Refine.{contents}
use harmony_os_reverse_tethe.Ipv4Header
use harmony_os_reverse_tethe.Ipv4Header.{Ipv4HeaderData}
use harmony_os_reverse_tethe.TcpHeader.{TcpHeaderData, flag_syn, flag_ack}
use harmony_os_reverse_tethe.TransportHeader.{tcp}
use harmony_os_reverse_tethe.Ipv4Packet.{Ipv4Packet}
use harmony_os_reverse_tethe.IpPacket.{ipv4}
use harmony_os_reverse_tethe.Tcp.State.{
  new_tcb, established, syn_sent, add32, remaining_client_window,
}
use harmony_os_reverse_tethe.Tcp.Flow.{Flow, update_interests, interests_of}
use harmony_os_reverse_tethe.Tcp.Packet.{
  handle_packet, handle_duplicate_syn, tcp_header_of_packet, expected_packet, send_to_network,
}
use harmony_os_reverse_tethe.Tcp.Event.{
  IoError, Reader, done, process_send, process_receive, process_connect, is_expired, next,
}
use harmony_os_reverse_tethe.Tcp.Sequence.{IsTcp, Leaves, handle_packet_stores}
use harmony_os_reverse_tethe.Tcp.Acknowledge.{process_send_acknowledges, fin_byte}
use harmony_os_reverse_tethe.Tcp.Window.{
  InRange, IsReader, IsSent, IsDeferred, process_receive_delivers, next_overshoots,
}
use harmony_os_reverse_tethe.Tcp.Handshake.{handshake}
use harmony_os_reverse_tethe.Tcp.Expiry.{Resent, never, again, syn_expires}

abbrev fresh : Flow
fresh = record {
  client_to_network = record { buf = replicate 9 0; head = 0; tail = 0 };
  network_to_client = record {
    payload_index = 40;
    sequence_number = 0;
    acknowledgement_number = 0;
    flags = 0;
    total_length = 40;
    payload = [];
  };
  packet_for_client_length = none;
  closed = false;
  tcb = new_tcb;
  interests = record { readable = false; writable = true };
  idle_since = 0;
  created_at = 0;
  client = record { remaining = 1000; sent = []; pending_sources = 0 };
  registered = true;
  in_router = true;
}

-- A connection that the device has sent byte 4 to, of which the network took none yet.
abbrev pub open_flow : Flow
open_flow = record fresh {
  client_to_network = record { buf = 4 ∷ replicate 8 0; head = 1; tail = 0 };
  tcb = record new_tcb {
    state = established;
    sequence_number = 100;
    acknowledgement_number = 200;
    their_acknowledgement_number = 100;
    client_window = 5;
  };
}

open_flow-IsValid : IsValid open_flow.client_to_network
open_flow-IsValid = record { head_in = omega arith; tail_in = omega arith }

abbrev pub header : ℕ → ℕ → TcpHeaderData
header sequence_number flags = record {
  source_port = 1;
  destination_port = 2;
  sequence_number = sequence_number;
  acknowledgement_number = 101;
  header_length = 20;
  flags = flags;
  window = 7;
}

abbrev ip_header : Ipv4HeaderData
ip_header = record {
  version = 4;
  header_length = 20;
  total_length = 41;
  protocol = Ipv4Header.tcp;
  source = 1;
  destination = 2;
}

-- A packet with one byte of data.
abbrev pub packet_of : TcpHeaderData → Ipv4Packet
packet_of h = record {
  raw = replicate 40 0 ++ 9 ∷ [];
  ipv4_header_data = ip_header;
  transport_header_data = some (tcp h);
}

pub packet_of-IsTcp :
    (sequence_number flags : ℕ)
    → IsTcp (packet_of (header sequence_number flags)) (header sequence_number flags) (9 ∷ [])
packet_of-IsTcp sequence_number flags = record {
  header = refl;
  bytes = refl;
  headers_in = omega arith;
}

handle_packet_stores_example :
    Leaves (handle_packet {E = IoError} open_flow (packet_of (header 201 flag_ack)) 0) (4 ∷ 9 ∷ [])
unfolding expected_packet StreamBuffer.size StreamBuffer.remaining StreamBuffer.capacity
handle_packet_stores_example =
    handle_packet_stores open_flow (packet_of (header 201 flag_ack)) (packet_of-IsTcp 201 flag_ack)
      open_flow-IsValid 0

abbrev pub takes_all : Sink IoError
takes_all xs = ok (length xs)

process_send_acknowledges_example :
    (g : Flow) × (process_send {E = IoError} open_flow takes_all ≡ ok (done g))
    × IsValid g.client_to_network
    × (4 ∷ [] ≡ take 1 (4 ∷ []) ++ contents g.client_to_network)
    × (g.tcb.acknowledgement_number
        ≡ add32 200 (1 + fin_byte (record open_flow { client_to_network = g.client_to_network })))
    × (expected_packet g
        ≡ add32
            (expected_packet open_flow)
            (fin_byte (record open_flow { client_to_network = g.client_to_network })))
unfolding StreamBuffer.front StreamBuffer.is_empty
process_send_acknowledges_example =
    process_send_acknowledges open_flow takes_all 1 open_flow-IsValid (λ xs w e. ground arith) refl
      refl (omega arith)

open_flow-InRange : InRange open_flow.tcb
open_flow-InRange = record {
  sequence_in = omega arith;
  acked_in = omega arith;
  window_in = omega arith;
}

abbrev pub two_bytes : Reader
two_bytes zero = ok []
two_bytes (suc zero) = ok (5 ∷ [])
two_bytes (suc (suc n)) = ok (5 ∷ 6 ∷ [])

two_bytes-IsReader : IsReader two_bytes
two_bytes-IsReader zero bytes e = ground arith
two_bytes-IsReader (suc zero) bytes e = ground arith
two_bytes-IsReader (suc (suc n)) bytes e = ground arith

process_receive_delivers_example :
    (g : Flow) × (process_receive {E = IoError} open_flow two_bytes ≡ ok (done g))
    × (2 ≤ remaining_client_window open_flow.tcb)
    × (IsSent open_flow (5 ∷ 6 ∷ []) g ⊎ IsDeferred open_flow (5 ∷ 6 ∷ []) g)
unfolding remaining_client_window
process_receive_delivers_example =
    process_receive_delivers open_flow two_bytes (5 ∷ 6 ∷ []) open_flow-InRange (omega arith) refl
      two_bytes-IsReader refl (omega arith) (omega arith)

-- The client's buffer has no room for the packet.
abbrev full_flow : Flow
full_flow = record open_flow { client = record { remaining = 10; sent = []; pending_sources = 0 } }

next_overshoots_example :
    (g : Flow) × ((process_receive {E = IoError} full_flow two_bytes >>= λ h.
    next {E = IoError} h.flow)
      ≡ ok g)
    × (g.tcb.sequence_number ≡ add32 100 42)
unfolding remaining_client_window
next_overshoots_example =
    next_overshoots full_flow two_bytes (5 ∷ 6 ∷ []) open_flow-InRange (omega arith) refl
      two_bytes-IsReader refl (omega arith) (omega arith) (omega arith) refl

abbrev syn_flow : Flow
syn_flow = record fresh {
  tcb = record new_tcb {
    state = syn_sent;
    syn_sequence_number = 50;
    sequence_number = 7000;
    acknowledgement_number = 51;
    client_window = 7;
  };
  idle_since = 1;
}

handshake_example :
    (g : Flow) × ((send_to_network {E = IoError} fresh
          (ipv4 (packet_of (header 50 flag_syn)))
          1
          7000
        >>= λ x. process_connect x false >>= λ y.
            send_to_network y (ipv4 (packet_of (header 51 flag_ack))) 2 0)
      ≡ ok g)
    × (g.tcb.state ≡ established)
    × (g.tcb.acknowledgement_number ≡ add32 50 1)
    × (g.tcb.sequence_number ≡ add32 7000 1)
    × (g.closed ≡ false)
unfolding StreamBuffer.size
handshake_example =
    handshake IoError fresh (packet_of (header 50 flag_syn)) (packet_of (header 51 flag_ack)) 1 2
      7000 0 (packet_of-IsTcp 50 flag_syn) (packet_of-IsTcp 51 flag_ack) refl refl refl refl refl
      (record { no_syn = refl; no_rst = refl; no_fin = refl; has_ack = refl }) refl

-- The SYN comes again after eight seconds.
abbrev resent_flow : Flow
resent_flow = record syn_flow { idle_since = 8 * 10 ^ 9 }

syn-Resent : Resent syn_flow resent_flow
unfolding send_to_network handle_packet handle_duplicate_syn tcp_header_of_packet update_interests
    interests_of
syn-Resent = again (8 * 10 ^ 9) 0 never (packet_of-IsTcp 50 flag_syn) refl refl

syn_expires_example :
    (is_expired resent_flow (12 * 10 ^ 9) ≡ is_expired syn_flow (12 * 10 ^ 9))
    × (11 * 10 ^ 9 ≤ 12 * 10 ^ 9 → is_expired resent_flow (12 * 10 ^ 9) ≡ true)
syn_expires_example = syn_expires (12 * 10 ^ 9) refl refl syn-Resent
