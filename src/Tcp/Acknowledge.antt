-- ===== src/Tcp/Acknowledge.antt =====
-- What relay/src/relay/tcp_connection.rs acknowledges once bytes go to the network.
use harmony_os_reverse_tethe.Prelude.{
  ℕ, ◌+◌, ◌<◌, ◌≡◌, false, ◌&&◌, ◌++◌, length, take, arith, ok, if◌then◌else◌, ap, length-append,
  length-take,
}
use harmony_os_reverse_tethe.StreamBuffer
use harmony_os_reverse_tethe.StreamBuffer.{StreamBuffer, Sink, front, is_empty, size}
use harmony_os_reverse_tethe.StreamBuffer.Inv.{IsValid, IsSink}
use harmony_os_reverse_tethe.StreamBuffer.Refine.{
  contents, length-contents, write_to_refines, write_to-eq-ok,
}
use harmony_os_reverse_tethe.Tcp.State.{add32}
use harmony_os_reverse_tethe.Tcp.Flow.{Flow, close, reply_empty_packet_to_client}
use harmony_os_reverse_tethe.Tcp.Packet.{do_handle_fin, answer_fin, expected_packet}
use harmony_os_reverse_tethe.Tcp.Event.{IoError, done, sent_to_network, process_send}

do_handle_fin-buffer : (f : Flow) → (do_handle_fin f).client_to_network ≡ f.client_to_network
unfolding do_handle_fin answer_fin reply_empty_packet_to_client close
do_handle_fin-buffer f = ground arith

do_handle_fin-acknowledges :
    (f : Flow) → (do_handle_fin f).tcb.acknowledgement_number ≡ add32 f.tcb.acknowledgement_number 1
unfolding do_handle_fin answer_fin reply_empty_packet_to_client close
do_handle_fin-acknowledges f = ground arith

-- The FIN counts for one byte, behind all that is sent.
abbrev pub fin_byte : Flow → ℕ
fin_byte f = if f.tcb.fin_received && is_empty f.client_to_network then 1 else 0

sent_to_network-buffer :
    (f : Flow) (w : ℕ) → (sent_to_network f w).client_to_network ≡ f.client_to_network
unfolding sent_to_network reply_empty_packet_to_client
sent_to_network-buffer f w = ground (
  arith,
  do_handle_fin-buffer (record f {
    tcb = record f.tcb { acknowledgement_number = add32 f.tcb.acknowledgement_number w };
  }),
)

sent_to_network-acknowledges :
    (f : Flow) (w : ℕ)
    → (sent_to_network f w).tcb.acknowledgement_number
      ≡ add32 f.tcb.acknowledgement_number (w + fin_byte f)
unfolding sent_to_network reply_empty_packet_to_client
sent_to_network-acknowledges f w = ground (
  arith,
  do_handle_fin-acknowledges (record f {
    tcb = record f.tcb { acknowledgement_number = add32 f.tcb.acknowledgement_number w };
  }),
)

-- A write takes `w` bytes from the buffer.
size-write_to :
    (b : StreamBuffer) (socket : Sink IoError) (w : ℕ) {c : StreamBuffer}
    → IsValid b
    → IsSink socket
    → is_empty b ≡ false
    → socket (front b) ≡ ok w
    → StreamBuffer.write_to b socket ≡ ok (c, w)
    → size b ≡ w + size c
size-write_to b socket w {c} v s n e q =
    let r = write_to_refines b socket w v s q in
    ground (
      arith,
      length-contents b v,
      length-contents c r.0,
      ap length r.1,
      length-append (take w (front b)) (contents c),
      length-take w (front b),
      s (front b) w e,
    )

-- Where the socket takes `w` bytes of a connection that has some to send, `process_send` succeeds, the first
-- `w` bytes leave the buffer and the others stay in order, and exactly the bytes sent are
-- acknowledged, with one more for a FIN that waited for the buffer to run empty: the sequence number expected
-- from the device changes by that FIN only.
pub process_send_acknowledges :
    (f : Flow) (socket : Sink IoError) (w : ℕ)
    → IsValid f.client_to_network
    → IsSink socket
    → is_empty f.client_to_network ≡ false
    → socket (front f.client_to_network) ≡ ok w
    → 0 < w
    → (g : Flow) × (process_send {E = IoError} f socket ≡ ok (done g))
      × IsValid g.client_to_network
      × (contents f.client_to_network
          ≡ take w (front f.client_to_network) ++ contents g.client_to_network)
      × (g.tcb.acknowledgement_number
          ≡ add32 f.tcb.acknowledgement_number
              (w + fin_byte (record f { client_to_network = g.client_to_network })))
      × (expected_packet g
          ≡ add32
              (expected_packet f)
              (fin_byte (record f { client_to_network = g.client_to_network })))
unfolding process_send expected_packet
process_send_acknowledges f socket w v s n e pos =
    let t = write_to-eq-ok f.client_to_network socket w n e in
    let r = write_to_refines f.client_to_network socket w v s t.1 in
    let sent = record f { client_to_network = t.0 } in
    let same = sent_to_network-buffer sent w in
    let acks = sent_to_network-acknowledges sent w in
    (
      sent_to_network sent w,
      rw (process_send, t.1) (ground arith),
      rw same r.0,
      rw same r.1,
      rw same acks,
      rw (same, acks) (ground (arith, size-write_to f.client_to_network socket w v s n e t.1)),
    )
