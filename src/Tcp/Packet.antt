-- ===== src/Tcp/Packet.antt =====
-- The handlers of relay/src/relay/tcp_connection.rs for a packet that comes from the device. The packet
-- is the one that the router found this connection for, and `random` what `random::<u32>()` returns.
use harmony_os_reverse_tethe.Prelude.{
  ℕ, ◌+◌, true, not, ◌||◌, List, length, none, some, ltb, ◌==◌, if◌then◌else◌, Outcome, ok, panic,
  ◌>>=◌,
}
use harmony_os_reverse_tethe.StreamBuffer
use harmony_os_reverse_tethe.TcpHeader.{
  TcpHeaderData, flag_fin, flag_rst, flag_ack, is_syn, is_rst, is_ack, is_fin,
}
use harmony_os_reverse_tethe.TransportHeader.{tcp, udp}
use harmony_os_reverse_tethe.Ipv4Packet
use harmony_os_reverse_tethe.Ipv4Packet.{Ipv4Packet}
use harmony_os_reverse_tethe.IpPacket.{IpPacket, ipv4, ipv6}
use harmony_os_reverse_tethe.Tcp.State.{
  TcpState, init, syn_sent, syn_received, established, last_ack, closing, fin_wait1, fin_wait2, is,
  add32,
}
use harmony_os_reverse_tethe.Tcp.Flow.{
  Flow, reply_empty_packet_to_client, close, touch, update_interests,
}

abbrev pub set_state : Flow → TcpState → Flow
set_state f s = record f { tcb = record f.tcb { state = s } }

unfoldable pub tcp_header_of_packet : {E : Type 0} → Ipv4Packet → Outcome E TcpHeaderData
tcp_header_of_packet p = elim p.transport_header_data [
  | none ↦ panic
  | some h ↦ elim h [ tcp t ↦ ok t | udp u ↦ panic ]
]

-- `ipv4_packet.payload().expect("No payload")`
unfoldable pub payload_of_packet : {E : Type 0} → Ipv4Packet → Outcome E (List ℕ)
payload_of_packet p = Ipv4Packet.payload p >>= λ bytes. elim bytes [ none ↦ panic | some b ↦ ok b ]

unfoldable pub handle_first_packet : Flow → TcpHeaderData → ℕ → Flow
handle_first_packet f h random =
    if is_syn h
    then record f {
      tcb = record f.tcb {
        acknowledgement_number = add32 h.sequence_number 1;
        syn_sequence_number = h.sequence_number;
        sequence_number = random;
        client_window = h.window;
        state = syn_sent;
      };
    }
    else close (
        reply_empty_packet_to_client
          (record f { tcb = record f.tcb { sequence_number = h.acknowledgement_number } }) flag_rst)

unfoldable pub handle_duplicate_syn : Flow → TcpHeaderData → Flow
handle_duplicate_syn f h =
    if is f.tcb.state syn_sent
    then record f {
      tcb = record f.tcb {
        syn_sequence_number = h.sequence_number;
        acknowledgement_number = add32 h.sequence_number 1;
      };
    }
    else (if not (h.sequence_number == f.tcb.syn_sequence_number)
        then close (reply_empty_packet_to_client f flag_rst)
        else f)

-- The relay's own FIN is sent: it takes one sequence number.
abbrev pub fin_sent : Flow → TcpState → Flow
fin_sent f s = record f {
  tcb = record f.tcb {
    fin_sequence_number = some f.tcb.sequence_number;
    sequence_number = add32 f.tcb.sequence_number 1;
    state = s;
  };
}

-- The answer to a FIN that is acknowledged, by the state of the connection.
unfoldable pub answer_fin : Flow → Flow
answer_fin f =
    if is f.tcb.state established
    then fin_sent (reply_empty_packet_to_client f (flag_fin + flag_ack)) last_ack
    else (if is f.tcb.state fin_wait1
        then set_state (reply_empty_packet_to_client f flag_ack) closing
        else (if is f.tcb.state fin_wait2
            then close (reply_empty_packet_to_client f flag_ack)
            else f))

unfoldable pub do_handle_fin : Flow → Flow
unfolding answer_fin
do_handle_fin f = answer_fin (record f {
  tcb = record f.tcb { acknowledgement_number = add32 f.tcb.acknowledgement_number 1 };
})

unfoldable pub handle_fin : Flow → Flow
unfolding do_handle_fin
handle_fin f =
    let received = record f { tcb = record f.tcb { fin_received = true } } in
    if StreamBuffer.is_empty received.client_to_network then do_handle_fin received else received

unfoldable pub handle_fin_ack : Flow → Flow
handle_fin_ack f =
    if is f.tcb.state last_ack || is f.tcb.state closing
    then close f
    else (if is f.tcb.state fin_wait1 then set_state f fin_wait2 else f)

-- A payload is kept as a whole, or dropped as a whole.
unfoldable pub store_payload : {E : Type 0} → Flow → List ℕ → Outcome E Flow
store_payload f payload =
    if length payload == 0
    then ok f
    else (if ltb (StreamBuffer.remaining f.client_to_network) (length payload)
        then ok f
        else (StreamBuffer.read_from f.client_to_network payload >>= λ b.
            ok (record f { client_to_network = b })))

unfoldable pub handle_ack : {E : Type 0} → Flow → Ipv4Packet → Outcome E Flow
unfolding store_payload
handle_ack f packet =
    if is f.tcb.state syn_received
    then ok (set_state f established)
    else (payload_of_packet packet >>= λ payload. store_payload f payload)

-- The acknowledgement of the relay's FIN, if it sent one and this packet has it.
unfoldable pub check_fin_ack : Flow → TcpHeaderData → Flow
unfolding handle_fin_ack
check_fin_ack f h = elim f.tcb.fin_sequence_number [
  | none ↦ f
  | some s ↦ if h.acknowledgement_number == add32 s 1 then handle_fin_ack f else f
]

-- The sequence number of the next packet: behind what is stored for the network.
unfoldable pub expected_packet : Flow → ℕ
expected_packet f = add32 f.tcb.acknowledgement_number (StreamBuffer.size f.client_to_network)

-- What `handle_packet` does with the packet that it expects.
unfoldable pub handle_expected : {E : Type 0} → Flow → TcpHeaderData → Ipv4Packet → Outcome E Flow
unfolding handle_ack handle_fin check_fin_ack
handle_expected f h packet =
    let g = record f {
      tcb = record f.tcb {
        client_window = h.window;
        their_acknowledgement_number = h.acknowledgement_number;
      };
    } in
    if is_rst h then ok (close g) else do
      acked ← if is_ack h then handle_ack g packet else ok g
      let finished = if is_fin h then handle_fin acked else acked
      ok (check_fin_ack finished h)

unfoldable pub handle_packet : {E : Type 0} → Flow → Ipv4Packet → ℕ → Outcome E Flow
unfolding handle_first_packet handle_duplicate_syn expected_packet handle_expected
handle_packet f packet random = do
  h ← tcp_header_of_packet packet
  if is f.tcb.state init
      then ok (handle_first_packet f h random)
      else (if is_syn h
          then ok (handle_duplicate_syn f h)
          else (if not (h.sequence_number == expected_packet f)
              then ok f
              else handle_expected f h packet))

unfoldable pub send_to_network : {E : Type 0} → Flow → IpPacket → ℕ → ℕ → Outcome E Flow
unfolding handle_packet
send_to_network f (ipv4 packet) now random = do
  g ← handle_packet (touch f now) packet random
  if not g.closed then update_interests g else ok g
send_to_network f (ipv6 packet) now random = ok f
