-- ===== src/Tcp/Moves.antt =====
-- What a handler of relay/src/relay/tcp_connection.rs does to the state of a connection, and the states in which the
-- connection asks to be told that its socket can be read.
use harmony_os_reverse_tethe.Prelude.{
  ℕ, ◌≡◌, Bool, true, false, not, ◌&&◌, if◌then◌else◌, Option, none, some, arith, ok, panic, assert,
  inl, inr, refl,
}
use harmony_os_reverse_tethe.IpPacket.{IpPacket, ipv4, ipv6}
use harmony_os_reverse_tethe.Tcp.State.{
  TcpState, syn_sent, init, syn_received, established, close_wait, last_ack, closing, fin_wait1,
  fin_wait2, is_connected, is_closed, add32,
}
use harmony_os_reverse_tethe.Tcp.Flow.{
  Flow, close, touch, reply_empty_packet_to_client, may_read, interests_of, update_interests,
}
use harmony_os_reverse_tethe.Tcp.Packet.{send_to_network}
use harmony_os_reverse_tethe.Tcp.Event.{expire, next}
use harmony_os_reverse_tethe.Tcp.Transitions.{
  Follows, Follows-trans, Follows-same, Returns, Returns-of, Returns-then,
}
use harmony_os_reverse_tethe.Tcp.Lifecycle.{handle_packet-Follows}
use harmony_os_reverse_tethe.Tcp.SocketSteps.{Reads}

-- An open connection asks to be told that the socket can be read only where it may be read.
abbrev pub Watched : Flow → Type 0
Watched f = f.closed ≡ false → f.interests.readable ≡ true → Reads f.tcb.state

readable_state : (s : TcpState) → is_connected s && not (is_closed s) ≡ true → Reads s
readable_state established e = inl refl
readable_state close_wait e = inr (inl refl)
readable_state init e = absurd (ground arith)
readable_state syn_sent e = absurd (ground arith)
readable_state syn_received e = absurd (ground arith)
readable_state last_ack e = absurd (ground arith)
readable_state closing e = absurd (ground arith)
readable_state fin_wait1 e = absurd (ground arith)
readable_state fin_wait2 e = absurd (ground arith)

interests_of-Reads : (f : Flow) → (interests_of f).readable ≡ true → Reads f.tcb.state
unfolding interests_of may_read
interests_of-Reads f e = readable_state f.tcb.state (ground arith)

-- From `f` to `g`, where `g` asks for the socket only where it may be read.
pub record Moves (f g : Flow) : Type 0 where
  pub follows : Follows f g
  pub watched : Watched g

pub update_interests-Moves :
    (E : Type 0) (f g : Flow) → Follows f g → Returns (Moves f) (update_interests {E = E} g)
unfolding update_interests
update_interests-Moves E f g r = Returns-of (Moves f) (assert (not g.closed)) _ (λ u. record {
  follows = Follows-trans r (Follows-same refl refl);
  watched = λ running asked. interests_of-Reads g asked;
})

-- A closed connection asks for nothing.
pub closed-Moves : {f g : Flow} → Follows f g → g.closed ≡ true → Moves f g
closed-Moves r closed = record { follows = r; watched = λ running asked. absurd (cc) }

settle-Moves :
    (E : Type 0) (f g : Flow) (closed : Bool)
    → g.closed ≡ closed
    → Follows f g
    → Returns {E = E} (Moves f) (if not closed then update_interests g else ok g)
settle-Moves E f g true closed r = closed-Moves r closed
settle-Moves E f g false running r = update_interests-Moves E f g r

pub send_to_network-Moves :
    (E : Type 0) (f : Flow) (p : IpPacket) (now random : ℕ)
    → Watched f
    → Returns (Moves f) (send_to_network {E = E} f p now random)
unfolding send_to_network
send_to_network-Moves E f (ipv4 p) now random w =
    Returns-then (Follows (touch f now)) (Moves f) _ _
      (handle_packet-Follows E (touch f now) p random)
      (λ g r. settle-Moves E f g _ refl (Follows-trans (Follows-same refl refl) r))
send_to_network-Moves E f (ipv6 p) now random w = record {
  follows = Follows-same refl refl;
  watched = w;
}

pulled-Moves :
    (E : Type 0) (f : Flow) (waits : Option ℕ)
    → Returns {E = E} (Moves f) (elim waits [
      | none ↦ panic
      | some len ↦ update_interests (record f {
        tcb = record f.tcb { sequence_number = add32 f.tcb.sequence_number len };
        packet_for_client_length = none;
      })
    ])
pulled-Moves E f none = tt
pulled-Moves E f (some n) = update_interests-Moves E f _ (Follows-same refl refl)

pub next-Moves : (E : Type 0) (f : Flow) → Returns (Moves f) (next {E = E} f)
unfolding next
next-Moves E f = pulled-Moves E f f.packet_for_client_length

pub close-Moves : (f : Flow) → Moves f (close f)
unfolding close
close-Moves f = closed-Moves {g = close f} (Follows-same refl refl) refl

pub expire-Moves : (f : Flow) → Moves f (expire f)
unfolding expire close reply_empty_packet_to_client
expire-Moves f = closed-Moves {g = expire f} (Follows-same (ground arith) (ground arith)) refl
