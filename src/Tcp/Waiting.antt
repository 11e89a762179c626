-- ===== src/Tcp/Waiting.antt =====
-- A connection of relay/src/relay/tcp_connection.rs that is closed while a packet of it waits for its client.
use harmony_os_reverse_tethe.Prelude.{
  ℕ, ◌==◌, ◌≡◌, true, false, List, some, arith, ok, panic, ◌>>=◌, refl,
}
use harmony_os_reverse_tethe.TcpHeader.{TcpHeaderData, is_syn, is_rst}
use harmony_os_reverse_tethe.Ipv4Packet.{Ipv4Packet}
use harmony_os_reverse_tethe.IpPacket.{ipv4}
use harmony_os_reverse_tethe.Tcp.State.{init, is}
use harmony_os_reverse_tethe.Tcp.Flow.{
  Flow, touch, close, update_interests, reply_empty_packet_to_client,
}
use harmony_os_reverse_tethe.Tcp.Packet.{
  handle_expected, handle_packet, expected_packet, send_to_network,
}
use harmony_os_reverse_tethe.Tcp.Event.{expire, next}
use harmony_os_reverse_tethe.Tcp.Sequence.{IsTcp, tcp_header_of_packet-IsTcp}

module _ {E : Type 0} where
  next-closed :
      (f : Flow) (len : ℕ)
      → f.packet_for_client_length ≡ some len
      → f.closed ≡ true
      → next {E = E} f ≡ panic
  unfolding next update_interests
  next-closed f len waits closed = rw (waits, closed) refl

module _ (f : Flow) where
  expire-waits : (expire f).packet_for_client_length ≡ f.packet_for_client_length
  unfolding expire close reply_empty_packet_to_client
  expire-waits = ground arith

  expire-closed : (expire f).closed ≡ true
  unfolding expire close
  expire-closed = refl

-- The connection that an expected RST leaves.
abbrev reset : Flow → TcpHeaderData → Flow
reset f h = close (record f {
  tcb = record f.tcb {
    client_window = h.window;
    their_acknowledgement_number = h.acknowledgement_number;
  };
})

module _ {E : Type 0} (f : Flow) (p : Ipv4Packet) {h : TcpHeaderData} {payload : List ℕ}
    (now random : ℕ) (t : IsTcp p h payload) where
  send_to_network-reset :
      is f.tcb.state init ≡ false
      → is_syn h ≡ false
      → is_rst h ≡ true
      → (h.sequence_number == expected_packet f) ≡ true
      → send_to_network {E = E} f (ipv4 p) now random ≡ ok (reset (touch f now) h)
  unfolding send_to_network handle_packet handle_expected close expected_packet
  send_to_network-reset later no_syn rst expected =
      rw (tcp_header_of_packet-IsTcp {E = E} p t, later, no_syn, expected, rst) refl

  -- A connection past its first packet has a packet that waits for the client. Once the connection expires, or once
  -- the device sends a RST with the sequence number that is expected, the client's call of `next` for the packet
  -- that waits panics.
  pub next_panics :
      (len : ℕ)
      → f.packet_for_client_length ≡ some len
      → is f.tcb.state init ≡ false
      → is_syn h ≡ false
      → is_rst h ≡ true
      → (h.sequence_number == expected_packet f) ≡ true
      → (next {E = E} (expire f) ≡ panic)
        × ((send_to_network {E = E} f (ipv4 p) now random >>= λ g. next g) ≡ panic)
  unfolding close
  next_panics len waits later no_syn rst expected = (
    next-closed (expire f) len (rw (expire-waits f) waits) (expire-closed f),
    rw (send_to_network-reset later no_syn rst expected)
        (next-closed (reset (touch f now) h) len waits refl),
  )
