-- ===== src/Tcp/Handshake.antt =====
-- The handshake of relay/src/relay/tcp_connection.rs, and the time that it has.
use harmony_os_reverse_tethe.Prelude.{
  ℕ, ◌≡◌, Bool, true, false, not, List, none, arith, ok, ◌>>=◌, refl, ◌==◌, if◌then◌else◌, ◌∙◌, ap,
}
use harmony_os_reverse_tethe.StreamBuffer
use harmony_os_reverse_tethe.TcpHeader.{TcpHeaderData, is_syn, is_rst, is_ack, is_fin}
use harmony_os_reverse_tethe.Ipv4Packet.{Ipv4Packet}
use harmony_os_reverse_tethe.IpPacket.{ipv4}
use harmony_os_reverse_tethe.Tcp.State.{init, syn_sent, syn_received, established, is, add32}
use harmony_os_reverse_tethe.Tcp.Flow.{
  Flow, reply_empty_packet_to_client, update_interests, interests_of, update_interests-eq-ok, touch,
}
use harmony_os_reverse_tethe.Tcp.Packet.{
  handle_first_packet, handle_expected, handle_ack, handle_packet, expected_packet, check_fin_ack,
  send_to_network,
}
use harmony_os_reverse_tethe.Tcp.Event.{connected, process_connect}
use harmony_os_reverse_tethe.Tcp.Sequence.{IsTcp, tcp_header_of_packet-IsTcp}

if-not : {A : Type 0} (b : Bool) (x y : A) → b ≡ false → (if not b then x else y) ≡ x
if-not b x y e = rw e refl

pub send_to_network-eq-ok :
    {E : Type 0} (f g : Flow) (p : Ipv4Packet) (now random : ℕ)
    → handle_packet {E = E} (touch f now) p random ≡ ok g
    → g.closed ≡ false
    → send_to_network {E = E} f (ipv4 p) now random ≡ ok (record g { interests = interests_of g })
unfolding send_to_network
send_to_network-eq-ok f g p now random e running =
    ap (λ m. m >>= λ g'. if not g'.closed then update_interests g' else ok g') e
    ∙ (if-not g.closed (update_interests g) (ok g) running ∙ update_interests-eq-ok g running)

-- The first SYN, as the connection notes it.
abbrev noted_syn : Flow → TcpHeaderData → ℕ → Flow
noted_syn f h random = record f {
  tcb = record f.tcb {
    acknowledgement_number = add32 h.sequence_number 1;
    syn_sequence_number = h.sequence_number;
    sequence_number = random;
    client_window = h.window;
    state = syn_sent;
  };
}

handle_packet-syn :
    {E : Type 0} (f : Flow) (p : Ipv4Packet) {h : TcpHeaderData} {payload : List ℕ} (random : ℕ)
    → IsTcp p h payload
    → is f.tcb.state init ≡ true
    → is_syn h ≡ true
    → handle_packet {E = E} f p random ≡ ok (noted_syn f h random)
unfolding handle_packet handle_first_packet
handle_packet-syn {E} f p random t first syn =
    rw (tcp_header_of_packet-IsTcp {E = E} p t, first, syn) refl

-- The connection once an ACK ends the handshake.
abbrev noted_ack : Flow → TcpHeaderData → Flow
noted_ack f h = record f {
  tcb = record f.tcb {
    state = established;
    client_window = h.window;
    their_acknowledgement_number = h.acknowledgement_number;
  };
}

check_fin_ack-none :
    (f : Flow) (h : TcpHeaderData) → f.tcb.fin_sequence_number ≡ none → check_fin_ack f h ≡ f
unfolding check_fin_ack
check_fin_ack-none f h e = ground arith

-- An ACK, and what the handshake asks of it.
pub record IsAck (h : TcpHeaderData) : Type 0 where
  pub no_syn : is_syn h ≡ false
  pub no_rst : is_rst h ≡ false
  pub no_fin : is_fin h ≡ false
  pub has_ack : is_ack h ≡ true

handle_packet-ack :
    {E : Type 0} (f : Flow) (p : Ipv4Packet) {h : TcpHeaderData} {payload : List ℕ} (random : ℕ)
    → IsTcp p h payload
    → IsAck h
    → is f.tcb.state init ≡ false
    → is f.tcb.state syn_received ≡ true
    → f.tcb.fin_sequence_number ≡ none
    → h.sequence_number == expected_packet f ≡ true
    → handle_packet {E = E} f p random ≡ ok (noted_ack f h)
unfolding handle_packet handle_expected handle_ack
handle_packet-ack {E} f p {h} random t a later received unsent in_order =
    rw
      (
        tcp_header_of_packet-IsTcp {E = E} p t,
        later,
        a.no_syn,
        in_order,
        a.no_rst,
        a.has_ack,
        received,
        a.no_fin,
      )
      (ap ok (check_fin_ack-none (noted_ack f h) h unsent))

process_connect-eq-ok :
    {E : Type 0} (f : Flow)
    → is f.tcb.state syn_sent ≡ true
    → process_connect {E = E} f false ≡ ok (connected f)
unfolding process_connect
process_connect-eq-ok f e = rw e refl

module _ (E : Type 0) (f : Flow) (p q : Ipv4Packet) {h a : TcpHeaderData} {bytes payload : List ℕ}
    (now later random other : ℕ) (t : IsTcp p h bytes) (u : IsTcp q a payload)
    (first : is f.tcb.state init ≡ true) (unsent : f.tcb.fin_sequence_number ≡ none)
    (running : f.closed ≡ false) (empty : StreamBuffer.size f.client_to_network ≡ 0)
    (syn : is_syn h ≡ true) (ack : IsAck a)
    (next_byte : a.sequence_number ≡ add32 h.sequence_number 1) where
  abbrev after_syn : Flow
  after_syn = let g = noted_syn (touch f now) h random in record g { interests = interests_of g }

  connected-expects :
      a.sequence_number == expected_packet (touch (connected after_syn) later) ≡ true
  unfolding expected_packet connected reply_empty_packet_to_client
  connected-expects = ground arith

  abbrev after_ack : Flow
  after_ack =
      let g = noted_ack (touch (connected after_syn) later) a in
      record g { interests = interests_of g }

  ack-after_ack : send_to_network {E = E} (connected after_syn) (ipv4 q) later other ≡ ok after_ack
  unfolding connected reply_empty_packet_to_client
  ack-after_ack =
      let c = connected after_syn in
      send_to_network-eq-ok {E = E} c (noted_ack (touch c later) a) q later other
        (handle_packet-ack {E = E} (touch c later) q other u ack refl refl unsent connected-expects)
        running

  -- The handshake comes to its end: a SYN, the socket that connects, and an ACK of the byte after the SYN, each
  -- handled without a panic, lead a new connection to ESTABLISHED. The relay has then
  -- acknowledged the SYN and counted its own, from the random number that it chose.
  pub handshake :
      (g : Flow) × ((send_to_network {E = E} f (ipv4 p) now random >>= λ x.
      process_connect x false >>= λ y. send_to_network y (ipv4 q) later other)
        ≡ ok g)
      × (g.tcb.state ≡ established)
      × (g.tcb.acknowledgement_number ≡ add32 h.sequence_number 1)
      × (g.tcb.sequence_number ≡ add32 random 1)
      × (g.closed ≡ false)
  unfolding connected reply_empty_packet_to_client
  handshake =
      let s =
        send_to_network-eq-ok {E = E} f (noted_syn (touch f now) h random) p now random
          (handle_packet-syn {E = E} (touch f now) p random t first syn) running in
      (
        after_ack,
        rw s (rw (process_connect-eq-ok {E = E} after_syn refl) ack-after_ack),
        refl,
        refl,
        refl,
        running,
      )
