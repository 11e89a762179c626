-- ===== src/Tcp/Quiet.antt =====
-- What may happen to a connection of relay/src/relay/tcp_connection.rs between the `poll` that found its socket readable
-- and the handler of that event: packets from the device, packets that are pulled, its expiry, its closing.
use mathlib.Core.Path.{subst}
use harmony_os_reverse_tethe.Prelude.{
  ℕ, ◌≡◌, ◌⊎◌, inl, inr, Bool, true, false, not, List, length, ltb, ◌==◌, if◌then◌else◌, Option,
  none, some, arith, Outcome, ok, panic, assert, Bool-cases, refl,
}
use harmony_os_reverse_tethe.StreamBuffer
use harmony_os_reverse_tethe.TcpHeader.{TcpHeaderData, is_syn, is_rst, is_ack, is_fin}
use harmony_os_reverse_tethe.Ipv4Packet.{Ipv4Packet}
use harmony_os_reverse_tethe.IpPacket.{IpPacket, ipv4, ipv6}
use harmony_os_reverse_tethe.Tcp.State.{init, syn_received, is, add32}
use harmony_os_reverse_tethe.Tcp.Flow.{
  Flow, close, touch, reply_empty_packet_to_client, update_interests,
}
use harmony_os_reverse_tethe.Tcp.Packet.{
  tcp_header_of_packet, payload_of_packet, store_payload, answer_fin, do_handle_fin, handle_fin,
  handle_fin_ack, check_fin_ack, handle_ack, handle_first_packet, handle_duplicate_syn,
  expected_packet, handle_expected, handle_packet, send_to_network,
}
use harmony_os_reverse_tethe.Tcp.Event.{IoError, expire, next}
use harmony_os_reverse_tethe.Tcp.Transitions.{
  Returns, Returns-of, Returns-then, check_fin_ack-cases,
}
use harmony_os_reverse_tethe.Tcp.SocketSteps.{Reads, answer_fin-Reads}

-- The connection is closed, or its socket may be read.
abbrev pub Readable : Flow → Type 0
Readable f = (f.closed ≡ true) ⊎ Reads f.tcb.state

answer_fin-Readable : (f : Flow) → Readable f → Readable (answer_fin f)
unfolding answer_fin close reply_empty_packet_to_client
answer_fin-Readable f (inl closed) = inl (ground (arith, closed))
answer_fin-Readable f (inr reads) = inr (answer_fin-Reads f reads)

handle_fin-Readable : (f : Flow) → Readable f → Readable (handle_fin f)
unfolding handle_fin do_handle_fin
handle_fin-Readable f r = elim (Bool-cases (StreamBuffer.is_empty f.client_to_network)) [
  | inl drained ↦ rw drained (
      answer_fin-Readable
        (record f {
          tcb = record f.tcb {
            fin_received = true;
            acknowledgement_number = add32 f.tcb.acknowledgement_number 1;
          };
        })
        r)
  | inr waits ↦ rw waits r
]

handle_fin_ack-Readable : (f : Flow) → Readable f → Readable (handle_fin_ack f)
unfolding handle_fin_ack close
handle_fin_ack-Readable f (inl closed) = inl (ground (arith, closed))
handle_fin_ack-Readable f (inr (inl e)) = rw e (inr (inl refl))
handle_fin_ack-Readable f (inr (inr (inl e))) = rw e (inr (inr (inl refl)))
handle_fin_ack-Readable f (inr (inr (inr e))) = rw e (inl refl)

check_fin_ack-Readable : (f : Flow) (h : TcpHeaderData) → Readable f → Readable (check_fin_ack f h)
check_fin_ack-Readable f h r = elim (check_fin_ack-cases f h) [
  | inl same ↦ rw same r
  | inr acked ↦ rw acked (handle_fin_ack-Readable f r)
]

module _ (E : Type 0) (f : Flow) (readable : Readable f) where
  store_payload-Readable : (payload : List ℕ) → Returns Readable (store_payload {E = E} f payload)
  unfolding store_payload
  store_payload-Readable payload = elim (Bool-cases (length payload == 0)) [
    | inl holds ↦ rw holds readable
    | inr fails ↦
        elim (Bool-cases (ltb (StreamBuffer.remaining f.client_to_network) (length payload))) [
          | inl full ↦ rw (fails, full) readable
          | inr room ↦
              rw (fails, room)
                (Returns-of Readable (StreamBuffer.read_from f.client_to_network payload) _
                  (λ b. readable))
        ]
  ]

  handle_ack-Readable : (p : Ipv4Packet) → Returns Readable (handle_ack {E = E} f p)
  unfolding handle_ack
  handle_ack-Readable p = elim (Bool-cases (is f.tcb.state syn_received)) [
    | inl holds ↦ rw holds (inr (inl refl))
    | inr fails ↦ rw fails (Returns-of Readable (payload_of_packet p) _ store_payload-Readable)
  ]

handle_expected-Readable :
    (E : Type 0) (f : Flow) (h : TcpHeaderData) (p : Ipv4Packet)
    → Readable f
    → Returns Readable (handle_expected {E = E} f h p)
unfolding handle_expected close
handle_expected-Readable E f h p r =
    let g = record f {
      tcb = record f.tcb {
        client_window = h.window;
        their_acknowledgement_number = h.acknowledgement_number;
      };
    } in
    elim (Bool-cases (is_rst h)) [
      | inl rst ↦ rw rst (inl refl)
      | inr plain ↦ rw plain (
          Returns-then Readable Readable (if is_ack h then handle_ack {E = E} g p else ok g) _
            (acked g (is_ack h) r) (λ a q. check_fin_ack-Readable _ h (finished a (is_fin h) q)))
    ]
  where
    acked :
        (g : Flow) (b : Bool)
        → Readable g
        → Returns Readable (if b then handle_ack {E = E} g p else ok g)
    acked g true q = handle_ack-Readable E g q p
    acked g false q = q

    finished : (g : Flow) (b : Bool) → Readable g → Readable (if b then handle_fin g else g)
    finished g true q = handle_fin-Readable g q
    finished g false q = q

-- The first packet comes in INIT, where the socket may not be read.
handle_first_packet-Readable :
    (f : Flow) (h : TcpHeaderData) (random : ℕ)
    → is f.tcb.state init ≡ true
    → Readable f
    → Readable (handle_first_packet f h random)
unfolding handle_first_packet close reply_empty_packet_to_client
handle_first_packet-Readable f h random first (inl closed) = inl (ground (arith, closed))
handle_first_packet-Readable f h random first (inr (inl e)) = absurd (cc (rw e at first))
handle_first_packet-Readable f h random first (inr (inr (inl e))) = absurd (cc (rw e at first))
handle_first_packet-Readable f h random first (inr (inr (inr e))) = absurd (cc (rw e at first))

handle_duplicate_syn-Readable :
    (f : Flow) (h : TcpHeaderData) → Readable f → Readable (handle_duplicate_syn f h)
unfolding handle_duplicate_syn close reply_empty_packet_to_client
handle_duplicate_syn-Readable f h (inl closed) = inl (ground (arith, closed))
handle_duplicate_syn-Readable f h (inr reads) =
    let same : (handle_duplicate_syn f h).tcb.state ≡ f.tcb.state = ground arith in
    inr (rw same reads)

handle_packet-Readable :
    (E : Type 0) (f : Flow) (p : Ipv4Packet) (random : ℕ)
    → Readable f
    → Returns Readable (handle_packet {E = E} f p random)
unfolding handle_packet
handle_packet-Readable E f p random r = Returns-of Readable (tcp_header_of_packet p) _ (λ h.
    elim (Bool-cases (is f.tcb.state init)) [
      | inl first ↦ rw first (handle_first_packet-Readable f h random first r)
      | inr later ↦ rw later (elim (Bool-cases (is_syn h)) [
        | inl syn ↦ rw syn (handle_duplicate_syn-Readable f h r)
        | inr plain ↦ rw plain (elim (Bool-cases (h.sequence_number == expected_packet f)) [
          | inl in_order ↦ rw in_order (handle_expected-Readable E f h p r)
          | inr stray ↦ rw stray r
        ])
      ])
    ])

update_interests-Readable :
    (E : Type 0) (f : Flow) → Readable f → Returns Readable (update_interests {E = E} f)
unfolding update_interests
update_interests-Readable E f r = Returns-of Readable (assert (not f.closed)) _ (λ u. r)

send_to_network-Readable :
    (E : Type 0) (f : Flow) (p : IpPacket) (now random : ℕ)
    → Readable f
    → Returns Readable (send_to_network {E = E} f p now random)
unfolding send_to_network
send_to_network-Readable E f (ipv4 p) now random r =
    Returns-then Readable Readable _ _ (handle_packet-Readable E (touch f now) p random r)
      (λ g q. settled g g.closed q)
  where
    settled :
        (g : Flow) (b : Bool)
        → Readable g
        → Returns {E = E} Readable (if not b then update_interests g else ok g)
    settled g true q = q
    settled g false q = update_interests-Readable E g q
send_to_network-Readable E f (ipv6 p) now random r = r

pulled-Readable :
    (E : Type 0) (f : Flow) (waits : Option ℕ)
    → Readable f
    → Returns {E = E} Readable (elim waits [
      | none ↦ panic
      | some len ↦ update_interests (record f {
        tcb = record f.tcb { sequence_number = add32 f.tcb.sequence_number len };
        packet_for_client_length = none;
      })
    ])
pulled-Readable E f none r = tt
pulled-Readable E f (some n) r = update_interests-Readable E _ r

next-Readable : (E : Type 0) (f : Flow) → Readable f → Returns Readable (next {E = E} f)
unfolding next
next-Readable E f r = pulled-Readable E f f.packet_for_client_length r

close-Readable : (f : Flow) → Readable (close f)
unfolding close
close-Readable f = inl refl

expire-Readable : (f : Flow) → Readable (expire f)
unfolding expire close
expire-Readable f = inl refl

-- One handler that is no event of the socket.
pub data Step (f : Flow) : Flow → Type 0 where
  packet :
      {g : Flow} (p : IpPacket) (now random : ℕ)
      → send_to_network {E = IoError} f p now random ≡ ok g
      → Step f g
  pulls : {g : Flow} → next {E = IoError} f ≡ ok g → Step f g
  expires : {g : Flow} → expire f ≡ g → Step f g
  closes : {g : Flow} → close f ≡ g → Step f g

-- Any number of them.
pub data Quiet (f : Flow) : Flow → Type 0 where
  nothing : Quiet f f
  further : {g h : Flow} → Quiet f g → Step g h → Quiet f h

pub Returns-ok :
    (P : Flow → Type 0) {o : Outcome IoError Flow} {g : Flow} → o ≡ ok g → Returns P o → P g
Returns-ok P e r = subst (Returns P) e r

Step-Readable : {f g : Flow} → Step f g → Readable f → Readable g
Step-Readable {f} (packet p now random e) r =
    Returns-ok Readable e (send_to_network-Readable IoError f p now random r)
Step-Readable {f} (pulls e) r = Returns-ok Readable e (next-Readable IoError f r)
Step-Readable {f} (expires e) r = subst Readable e (expire-Readable f)
Step-Readable {f} (closes e) r = subst Readable e (close-Readable f)

-- Without an event the socket of an open connection stays one that may be read.
pub Quiet-Readable : {f g : Flow} → Quiet f g → Readable f → Readable g
Quiet-Readable nothing r = r
Quiet-Readable (further run step) r = Step-Readable step (Quiet-Readable run r)
