-- ===== src/Tcp/Event.antt =====
-- The handlers of relay/src/relay/tcp_connection.rs for an event of the socket, the periodic check for
-- expiry, and the source of a deferred packet. What the socket does is a parameter: what a write takes
-- (`Sink`), what a read returns, and what `take_error` reports.
use harmony_os_reverse_tethe.Prelude.{
  ℕ, ◌+◌, ◌-◌, ◌/◌, ◌^◌, Bool, true, false, not, ◌&&◌, ◌||◌, List, length, Option, none, some, ltb,
  ◌==◌, if◌then◌else◌, min, Outcome, ok, err, panic, ◌>>=◌, ◌>>◌, assert,
}
use harmony_os_reverse_tethe.StreamBuffer
use harmony_os_reverse_tethe.StreamBuffer.{Sink}
use harmony_os_reverse_tethe.TcpHeader.{flag_fin, flag_syn, flag_rst, flag_psh, flag_ack}
use harmony_os_reverse_tethe.Tcp.State.{
  TcpState, init, syn_sent, syn_received, close_wait, last_ack, fin_wait1, is, add32,
  remaining_client_window,
}
use harmony_os_reverse_tethe.Tcp.Flow.{
  Flow, Segment, Ready, reply_empty_packet_to_client, send_empty_packet_to_client, close, touch,
  remove_from_router, update_interests, update_headers, build, inflate, send_to_client,
  max_payload_length, idle_timeout_seconds, connect_timeout_seconds,
}
use harmony_os_reverse_tethe.Tcp.Packet.{set_state, do_handle_fin, fin_sent}

-- `io::Error`, as far as the handlers tell errors apart.
pub data IoError : Type 0 where
  would_block other : IoError

-- What a read of the socket gives for a buffer of this many bytes: none at the end of the stream.
abbrev pub Reader : Type 0
Reader = ℕ → Outcome IoError (List ℕ)

-- What a handler leaves: the connection, and its `io::Result`.
pub record Handled : Type 0 where
  pub flow : Flow
  pub error : Option IoError

abbrev pub done : Flow → Handled
done f = record { flow = f; error = none }

-- The socket failed: the device gets a RST, and the connection ends.
abbrev pub fail_flow : Flow → Flow
fail_flow f = close (send_empty_packet_to_client f flag_rst)

-- `w` bytes went to the network: they are acknowledged, or the pending FIN behind them is.
unfoldable pub sent_to_network : Flow → ℕ → Flow
sent_to_network f w =
    let g = record f {
      tcb = record f.tcb { acknowledgement_number = add32 f.tcb.acknowledgement_number w };
    } in
    if g.tcb.fin_received && StreamBuffer.is_empty g.client_to_network
    then do_handle_fin g
    else send_empty_packet_to_client g flag_ack

unfoldable pub process_send : {E : Type 0} → Flow → Sink IoError → Outcome E Handled
unfolding sent_to_network
process_send f socket = elim (StreamBuffer.write_to f.client_to_network socket) [
  | ok r ↦ ok (
      done (
        let g = record f { client_to_network = r.0 } in
        if not (r.1 == 0) then sent_to_network g r.1 else close g))
  | err would_block ↦ ok (record { flow = f; error = some would_block })
  | err other ↦ ok (done (fail_flow f))
  | panic ↦ panic
]

unfoldable pub eof : Flow → Flow
eof f =
    let g = send_empty_packet_to_client f (flag_fin + flag_ack) in
    fin_sent g (if is g.tcb.state close_wait then last_ack else fin_wait1)

-- The packet is built: it goes to the client, or waits until the client pulls it.
unfoldable pub deliver : Flow → ℕ → Flow
deliver f len =
    let p = build f.network_to_client len in
    let offered = send_to_client f.client (inflate p p.total_length) in
    if offered.1
    then record f {
      network_to_client = p;
      client = offered.0;
      tcb = record f.tcb { sequence_number = add32 f.tcb.sequence_number len };
    }
    else record f {
      network_to_client = p;
      client = record f.client { pending_sources = f.client.pending_sources + 1 };
      packet_for_client_length = some p.total_length;
    }

abbrev pub is_none : Option ℕ → Bool
is_none none = true
is_none (some n) = false

-- `process_receive` once the socket is read.
unfoldable pub received : {E : Type 0} → Flow → Outcome IoError (List ℕ) → Outcome E Handled
unfolding deliver eof
received f (ok bytes) = ok (
    done (
      if length bytes == 0
      then eof f
      else deliver (record f { network_to_client = record f.network_to_client { payload = bytes } })
          (length bytes)))
received f (err would_block) = ok (record { flow = f; error = some would_block })
received f (err other) = ok (done (fail_flow f))
received f panic = panic

-- `ReadAdapter::recv` of relay/src/relay/datagram.rs: how many bytes of a buffer are offered to the reader.
abbrev pub adapter_length : ℕ → ℕ → ℕ
adapter_length max_chunk_size length = min max_chunk_size length

-- How many bytes are read at most: `max_payload_length` of `process_receive`, within the buffer.
abbrev pub max_read : Flow → ℕ
max_read f =
    adapter_length (min (remaining_client_window f.tcb) max_payload_length)
      (2 ^ 16 - f.network_to_client.payload_index)

unfoldable pub process_receive : {E : Type 0} → Flow → Reader → Outcome E Handled
unfolding received
process_receive f socket = do
  assert (is_none f.packet_for_client_length)
  assert (ltb 0 (remaining_client_window f.tcb))
  received
      (record f {
        network_to_client = update_headers f.network_to_client f.tcb (flag_ack + flag_psh);
      })
      (socket (max_read f))

-- The socket is connected.
unfoldable pub connected : Flow → Flow
connected f =
    let g = send_empty_packet_to_client (set_state f syn_received) (flag_syn + flag_ack) in
    record g { tcb = record g.tcb { sequence_number = add32 g.tcb.sequence_number 1 } }

-- `failed`: whether `take_error` reports that the connection failed.
unfoldable pub process_connect : {E : Type 0} → Flow → Bool → Outcome E Flow
unfolding connected
process_connect f failed = do
  assert (is f.tcb.state syn_sent)
  ok (if failed then fail_flow f else connected f)

-- `tcb.state == SynSent || tcb.state == SynReceived`
abbrev pub is_handshake : TcpState → Bool
is_handshake s = is s syn_sent || is s syn_received

-- The socket as an event finds it.
pub record Socket : Type 0 where
  pub readiness : Ready
  pub connect_failed : Bool
  pub write : Sink IoError
  pub read : Reader

-- The `?` operator on what a handler leaves.
abbrev pub and_then :
    {E : Type 0} → Outcome E Handled → (Flow → Outcome E Handled) → Outcome E Handled
and_then m k = m >>= λ r. elim r.error [ none ↦ k r.flow | some e ↦ ok r ]

-- The writable half of `process`.
unfoldable pub on_writable : {E : Type 0} → Flow → Socket → Outcome E Handled
unfolding process_connect process_send
on_writable f socket =
    if not socket.readiness.writable
    then ok (done f)
    else (if is f.tcb.state syn_sent
        then (process_connect f socket.connect_failed >>= λ g. ok (done g))
        else process_send f socket.write)

-- The readable half.
unfoldable pub on_readable : {E : Type 0} → Flow → Socket → Outcome E Handled
unfolding process_receive
on_readable f socket =
    if not f.closed && socket.readiness.readable then process_receive f socket.read else ok (done f)

-- An error or a hangup: only a handshake is answered by a RST.
unfoldable pub on_hangup : Flow → Flow
on_hangup f = close (if is_handshake f.tcb.state then send_empty_packet_to_client f flag_rst else f)

unfoldable pub process : {E : Type 0} → Flow → Socket → ℕ → Outcome E Handled
unfolding on_writable on_readable on_hangup
process f socket now =
    if f.closed
    then ok (done f)
    else (if socket.readiness.readable || socket.readiness.writable
        then and_then (on_writable (touch f now) socket) (λ g. and_then (on_readable g socket) (λ h.
          if h.closed
          then ok (done (remove_from_router h))
          else (update_interests h >>= λ i. ok (done i))))
        else ok (done (remove_from_router (on_hangup (touch f now)))))

unfoldable pub on_ready : {E : Type 0} → Flow → Socket → ℕ → Outcome E Flow
unfolding process
on_ready f socket now = do
  r ← process f socket now
  ok (elim r.error [
    | none ↦ r.flow
    | some e ↦ elim e [
      | would_block ↦ r.flow
      | other ↦ remove_from_router (if not r.flow.closed then close r.flow else r.flow)
    ]
  ])

-- Called for a connection that `is_expired`.
unfoldable pub expire : Flow → Flow
expire f = close (
    if not f.closed && is_handshake f.tcb.state then reply_empty_packet_to_client f flag_rst else f)

-- `elapsed().as_secs()`: the whole seconds since an instant, where an instant is a number of nanoseconds.
abbrev pub seconds_since : ℕ → ℕ → ℕ
seconds_since instant now = (now - instant) / 10 ^ 9

unfoldable pub is_expired : Flow → ℕ → Bool
is_expired f now =
    if is f.tcb.state init || is_handshake f.tcb.state
    then ltb connect_timeout_seconds (seconds_since f.created_at now)
    else ltb idle_timeout_seconds (seconds_since f.idle_since now)

-- `PacketSource::get`
unfoldable pub get : Flow → Option Segment
get f = elim f.packet_for_client_length [
  | none ↦ none
  | some len ↦ some (inflate f.network_to_client len)
]

-- `PacketSource::next`
unfoldable pub next : {E : Type 0} → Flow → Outcome E Flow
next f = elim f.packet_for_client_length [
  | none ↦ panic
  | some len ↦ update_interests (record f {
    tcb = record f.tcb { sequence_number = add32 f.tcb.sequence_number len };
    packet_for_client_length = none;
  })
]
