-- ===== src/Tcp/Lifecycle.antt =====
-- The handlers of packets of relay/src/relay/tcp_connection.rs make transitions of `Tcp/Transitions.antt` only.
use harmony_os_reverse_tethe.Prelude.{ℕ, not, ◌==◌, if◌then◌else◌, ok, Bool-cases, inl, inr, refl}
use harmony_os_reverse_tethe.TcpHeader.{TcpHeaderData, is_syn, is_rst, is_ack, is_fin}
use harmony_os_reverse_tethe.Ipv4Packet.{Ipv4Packet}
use harmony_os_reverse_tethe.IpPacket.{}
use harmony_os_reverse_tethe.Tcp.State.{init, is}
use harmony_os_reverse_tethe.Tcp.Flow.{Flow, close}
use harmony_os_reverse_tethe.Tcp.Packet.{
  tcp_header_of_packet, handle_ack, handle_fin, check_fin_ack, expected_packet, handle_expected,
  handle_packet, handle_first_packet, handle_duplicate_syn,
}
use harmony_os_reverse_tethe.Tcp.Transitions.{
  Follows, Follows-trans, Follows-same, Returns, Returns-of, Returns-then, handle_fin-Follows,
  check_fin_ack-Follows, handle_ack-Follows, handle_first_packet-Follows,
  handle_duplicate_syn-Follows,
}

finish-Follows :
    (f : Flow) (h : TcpHeaderData)
    → Follows f (check_fin_ack (if is_fin h then handle_fin f else f) h)
finish-Follows f h = elim (Bool-cases (is_fin h)) [
  | inl fin ↦ rw fin (Follows-trans (handle_fin-Follows f) (check_fin_ack-Follows (handle_fin f) h))
  | inr plain ↦ rw plain (check_fin_ack-Follows f h)
]

module _ (E : Type 0) (f : Flow) (h : TcpHeaderData) (p : Ipv4Packet) where
  abbrev noted : Flow
  noted = record f {
    tcb = record f.tcb {
      client_window = h.window;
      their_acknowledgement_number = h.acknowledgement_number;
    };
  }

  acked-Follows :
      Returns (Follows noted) (if is_ack h then handle_ack {E = E} noted p else ok noted)
  acked-Follows = elim (Bool-cases (is_ack h)) [
    | inl acked ↦ rw acked (handle_ack-Follows E noted p)
    | inr plain ↦ rw plain (Follows-same refl refl)
  ]

  handle_expected-Follows : Returns (Follows f) (handle_expected {E = E} f h p)
  unfolding handle_expected close
  handle_expected-Follows = elim (Bool-cases (is_rst h)) [
    | inl rst ↦ rw rst (Follows-same refl refl)
    | inr plain ↦ rw plain (
        Returns-then (Follows noted) (Follows f) _ _ acked-Follows
          (λ g r. Follows-trans (Follows-same refl refl) (Follows-trans r (finish-Follows g h))))
  ]

  handled-Follows :
      (random : ℕ)
      → Returns {E = E} (Follows f) (
          if is f.tcb.state init
          then ok (handle_first_packet f h random)
          else (if is_syn h
              then ok (handle_duplicate_syn f h)
              else (if not (h.sequence_number == expected_packet f)
                  then ok f
                  else handle_expected f h p)))
  handled-Follows random = elim (Bool-cases (is f.tcb.state init)) [
    | inl first ↦ rw first (handle_first_packet-Follows f h random first)
    | inr later ↦ rw later (elim (Bool-cases (is_syn h)) [
      | inl syn ↦ rw syn (handle_duplicate_syn-Follows f h)
      | inr plain ↦ rw plain (elim (Bool-cases (h.sequence_number == expected_packet f)) [
        | inl in_order ↦ rw in_order handle_expected-Follows
        | inr stray ↦ rw stray (Follows-same refl refl)
      ])
    ])
  ]

pub handle_packet-Follows :
    (E : Type 0) (f : Flow) (p : Ipv4Packet) (random : ℕ)
    → Returns (Follows f) (handle_packet {E = E} f p random)
unfolding handle_packet
handle_packet-Follows E f p random =
    Returns-of (Follows f) (tcp_header_of_packet p) _ (λ h. handled-Follows E f h p random)
