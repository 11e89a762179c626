-- ===== src/Tcp/Panic.antt =====
-- A FIN that `process` of relay/src/relay/tcp_connection.rs answers between the check of the window and the read.
use harmony_os_reverse_tethe.Prelude.{
  ℕ, ◌-◌, not, ◌==◌, ◌&&◌, ◌≡◌, ◌<◌, true, false, none, arith, ok, panic, refl, ◌∙◌, ap, Bool-cases,
  inl, inr,
}
use harmony_os_reverse_tethe.StreamBuffer
use harmony_os_reverse_tethe.StreamBuffer.{StreamBuffer, is_empty}
use harmony_os_reverse_tethe.Tcp.State.{established, syn_sent, is, remaining_client_window}
use harmony_os_reverse_tethe.Tcp.Flow.{Flow, touch, may_read, reply_empty_packet_to_client}
use harmony_os_reverse_tethe.Tcp.Packet.{do_handle_fin, answer_fin}
use harmony_os_reverse_tethe.Tcp.Event.{
  IoError, Socket, Reader, done, is_none, sent_to_network, process_send, process_receive,
  on_writable, on_readable, process,
}
use harmony_os_reverse_tethe.Tcp.Window.{InRange, remaining_client_window-advance}

module _ {E : Type 0} where
  process_receive-no_window :
      (f : Flow) (socket : Reader)
      → remaining_client_window f.tcb ≡ 0
      → process_receive {E = E} f socket ≡ panic
  unfolding process_receive
  process_receive-no_window f socket shut = elim (Bool-cases (is_none f.packet_for_client_length)) [
    | inl idle ↦ rw (idle, shut) refl
    | inr waits ↦ rw waits refl
  ]

-- The answer to a FIN that was waiting leaves the connection open, and takes one from the window.
record Answered (f g : Flow) : Type 0 where
  running : g.closed ≡ f.closed
  shut : remaining_client_window g.tcb ≡ 0

sent_to_network-Answered :
    (f : Flow) (w : ℕ)
    → f.tcb.state ≡ established
    → InRange f.tcb
    → remaining_client_window f.tcb ≡ 1
    → f.tcb.fin_received ≡ true
    → is_empty f.client_to_network ≡ true
    → Answered f (sent_to_network f w)
unfolding sent_to_network do_handle_fin answer_fin reply_empty_packet_to_client
    remaining_client_window
sent_to_network-Answered f w open_ r one fin empty = record {
  running = rw (fin, empty, open_) refl;
  shut =
      rw (fin, empty, open_)
        (remaining_client_window-advance f.tcb 1 r (omega (arith, one)) ∙ ap (λ n. n - 1) one);
}

module _ (f : Flow) (socket : Socket) where
  on_writable-sends :
      {c : StreamBuffer} (w : ℕ)
      → socket.readiness.writable ≡ true
      → is f.tcb.state syn_sent ≡ false
      → StreamBuffer.write_to f.client_to_network socket.write ≡ ok (c, w)
      → 0 < w
      → on_writable {E = IoError} f socket
        ≡ ok (done (sent_to_network (record f { client_to_network = c }) w))
  unfolding on_writable process_send
  on_writable-sends {c} w writes connected takes pos =
      let sends : (w == 0) ≡ false = ground (arith, pos) in
      rw (on_writable, writes, connected, process_send, takes, sends) refl

  on_readable-no_window :
      socket.readiness.readable ≡ true
      → f.closed ≡ false
      → remaining_client_window f.tcb ≡ 0
      → on_readable {E = IoError} f socket ≡ panic
  unfolding on_readable
  on_readable-no_window reads running shut =
      let goes : (not f.closed && socket.readiness.readable) ≡ true =
        ground (arith, running, reads) in
      rw (on_readable, goes) (process_receive-no_window f socket.read shut)

-- Take a connection that is open and established, with a control block in range, a window of one byte, no packet that
-- waits for the client, and a FIN of the device that waits for stored bytes. The connection asks to be told when the
-- socket can be read. Where an event says that the socket can be written and read, and the socket takes all the
-- bytes that are stored, `process` panics, whatever there is to read.
pub process_panics :
    (f : Flow) (socket : Socket) (now w : ℕ) {c : StreamBuffer}
    → f.closed ≡ false
    → f.tcb.state ≡ established
    → InRange f.tcb
    → remaining_client_window f.tcb ≡ 1
    → f.packet_for_client_length ≡ none
    → f.tcb.fin_received ≡ true
    → socket.readiness.writable ≡ true
    → socket.readiness.readable ≡ true
    → StreamBuffer.write_to f.client_to_network socket.write ≡ ok (c, w)
    → 0 < w
    → is_empty c ≡ true
    → (may_read f ≡ true) × (process {E = IoError} f socket now ≡ panic)
unfolding process may_read
process_panics f socket now w {c} running open_ r one idle fin writes reads takes pos empty =
    let g = record f { client_to_network = c; idle_since = now } in
    let a = sent_to_network-Answered g w open_ r one fin empty in
    let sends = on_writable-sends (touch f now) socket w writes (rw open_ refl) takes pos in
    let stops =
      on_readable-no_window (sent_to_network g w) socket reads (a.running ∙ running) a.shut in
    (rw (open_, idle, one) refl, rw (process, sends, stops, running, reads) refl)
