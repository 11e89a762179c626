-- ===== src/Tcp/SocketSteps.antt =====
-- The socket's handlers of relay/src/relay/tcp_connection.rs make transitions of `Tcp/Transitions.antt` only.
use harmony_os_reverse_tethe.Prelude.{
  ℕ, ◌≡◌, ◌⊎◌, Bool, true, false, not, ◌&&◌, List, length, ltb, ◌==◌, if◌then◌else◌, none, some,
  arith, Outcome, ok, err, panic, ◌>>=◌, assert, Bool-cases, inl, inr, refl,
}
use harmony_os_reverse_tethe.StreamBuffer.{StreamBuffer, Sink, is_empty, write_to}
use harmony_os_reverse_tethe.Tcp.State.{
  TcpState, remaining_client_window, add32, syn_sent, established, close_wait, last_ack, is,
}
use harmony_os_reverse_tethe.Tcp.Flow.{Flow, close, reply_empty_packet_to_client}
use harmony_os_reverse_tethe.Tcp.Packet.{do_handle_fin, answer_fin}
use harmony_os_reverse_tethe.Tcp.Event.{
  max_read, is_none, IoError, would_block, other, done, fail_flow, Handled, Reader, sent_to_network,
  received, deliver, eof, connected, process_send, process_receive, process_connect,
}
use harmony_os_reverse_tethe.Tcp.Transitions.{
  connect, network_fin, late_fin, second_fin, is-eq, here, after, Follows, Follows-trans,
  Follows-same, Returns, answer_fin-Follows,
}

-- The states in which the socket may be read.
abbrev pub Reads : TcpState → Type 0
Reads s = (s ≡ established) ⊎ (s ≡ close_wait) ⊎ (s ≡ last_ack)

-- What holds of what an event's handler leaves, whether it returns an error or not.
abbrev pub Leaves : {E : Type 0} → (Handled → Type 0) → Outcome E Handled → Type 0
Leaves P (ok r) = P r
Leaves P (err e) = Unit {0}
Leaves P panic = Unit {0}

-- The writable half of an event: an error leaves the connection as it was.
pub record Sends (f : Flow) (r : Handled) : Type 0 where
  pub follows : Follows f r.flow
  pub reads : Reads f.tcb.state → Reads r.flow.tcb.state
  pub errors : (r.error ≡ none) ⊎ (r.flow ≡ f)

-- The readable half: an error leaves a connection that may still be read.
pub record Receives (f : Flow) (r : Handled) : Type 0 where
  pub follows : Follows f r.flow
  pub errors : (r.error ≡ none) ⊎ Reads r.flow.tcb.state

pub answer_fin-Reads : (f : Flow) → Reads f.tcb.state → Reads (answer_fin f).tcb.state
unfolding answer_fin reply_empty_packet_to_client
answer_fin-Reads f (inl e) = rw e (inr (inr refl))
answer_fin-Reads f (inr (inl e)) = rw e (inr (inl refl))
answer_fin-Reads f (inr (inr e)) = rw e (inr (inr refl))

sent_to_network-Reads :
    (f : Flow) (w : ℕ) → Reads f.tcb.state → Reads (sent_to_network f w).tcb.state
unfolding sent_to_network do_handle_fin reply_empty_packet_to_client
sent_to_network-Reads f w reads =
    elim (Bool-cases (f.tcb.fin_received && is_empty f.client_to_network)) [
      | inl fin ↦
          let g = record f {
            tcb = record f.tcb {
              acknowledgement_number = add32 (add32 f.tcb.acknowledgement_number w) 1;
            };
          } in
          rw fin (answer_fin-Reads g reads)
      | inr more ↦ rw more reads
    ]

sent_to_network-Follows : (f : Flow) (w : ℕ) → Follows f (sent_to_network f w)
unfolding sent_to_network do_handle_fin reply_empty_packet_to_client
sent_to_network-Follows f w =
    elim (Bool-cases (f.tcb.fin_received && is_empty f.client_to_network)) [
      | inl fin ↦
          let g = record f {
            tcb = record f.tcb {
              acknowledgement_number = add32 (add32 f.tcb.acknowledgement_number w) 1;
            };
          } in
          rw fin (Follows-trans (Follows-same refl refl) (answer_fin-Follows g g.tcb.state refl))
      | inr more ↦ rw more (Follows-same refl refl)
    ]

written-Sends :
    (E : Type 0) (f : Flow) (m : Outcome IoError (StreamBuffer × ℕ))
    → Leaves {E = E} (Sends f) (elim m [
      | ok r ↦ ok (
          done (
            let g = record f { client_to_network = r.0 } in
            if not (r.1 == 0) then sent_to_network g r.1 else close g))
      | err would_block ↦ ok (record { flow = f; error = some would_block })
      | err other ↦ ok (done (fail_flow f))
      | panic ↦ panic
    ])
unfolding close reply_empty_packet_to_client
written-Sends E f (ok r) =
    let g = record f { client_to_network = r.0 } in
    elim (Bool-cases (r.1 == 0)) [
      | inl nothing ↦
          rw nothing
            (record { follows = Follows-same refl refl; reads = λ reads. reads; errors = inl refl })
      | inr some_bytes ↦ rw some_bytes (record {
        follows = Follows-trans (Follows-same refl refl) (sent_to_network-Follows g r.1);
        reads = sent_to_network-Reads g r.1;
        errors = inl refl;
      })
    ]
written-Sends E f (err would_block) = record {
  follows = Follows-same refl refl;
  reads = λ reads. reads;
  errors = inr refl;
}
written-Sends E f (err other) = record {
  follows = Follows-same refl refl;
  reads = λ reads. reads;
  errors = inl refl;
}
written-Sends E f panic = tt

pub process_send-Sends :
    (E : Type 0) (f : Flow) (socket : Sink IoError)
    → Leaves (Sends f) (process_send {E = E} f socket)
unfolding process_send
process_send-Sends E f socket = written-Sends E f (write_to f.client_to_network socket)

deliver-Follows : (f : Flow) (n : ℕ) → Follows f (deliver f n)
unfolding deliver
deliver-Follows f n = Follows-same (ground arith) (ground arith)

connected-Follows : (f : Flow) → f.tcb.state ≡ syn_sent → Follows f (connected f)
unfolding connected reply_empty_packet_to_client
connected-Follows f e = record { steps = rw e (after here connect); keeps = rw e (λ v. v) }

connecting-Follows :
    (E : Type 0) (f : Flow) (failed b : Bool)
    → is f.tcb.state syn_sent ≡ b
    → Returns {E = E}
        (Follows f)
        (assert b >>= λ u. ok (if failed then fail_flow f else connected f))
unfolding close reply_empty_packet_to_client
connecting-Follows E f failed false e = tt
connecting-Follows E f false true e = connected-Follows f (is-eq f.tcb.state syn_sent e)
connecting-Follows E f true true e = Follows-same refl refl

pub process_connect-Follows :
    (E : Type 0) (f : Flow) (failed : Bool) → Returns (Follows f) (process_connect {E = E} f failed)
unfolding process_connect
process_connect-Follows E f failed = connecting-Follows E f failed _ refl

eof-Follows : (f : Flow) → Reads f.tcb.state → Follows f (eof f)
unfolding eof reply_empty_packet_to_client
eof-Follows f (inl e) = record { steps = rw e (after here network_fin); keeps = rw e (λ v. refl) }
eof-Follows f (inr (inl e)) = record {
  steps = rw e (after here late_fin);
  keeps = rw e (λ v. refl);
}
eof-Follows f (inr (inr e)) = record {
  steps = rw e (after here second_fin);
  keeps = rw e (λ v. refl);
}

received-Receives :
    (E : Type 0) (f g : Flow) (m : Outcome IoError (List ℕ))
    → Follows f g
    → Reads g.tcb.state
    → Leaves (Receives f) (received {E = E} g m)
unfolding received close reply_empty_packet_to_client
received-Receives E f g (ok bytes) r e =
    let read = record g { network_to_client = record g.network_to_client { payload = bytes } } in
    elim (Bool-cases (length bytes == 0)) [
      | inl ends ↦
          rw ends (record { follows = Follows-trans r (eof-Follows g e); errors = inl refl })
      | inr more ↦ rw more (record {
        follows = Follows-trans r (
            Follows-trans {g = read} (Follows-same refl refl)
              (deliver-Follows read (length bytes)));
        errors = inl refl;
      })
    ]
received-Receives E f g (err would_block) r e = record { follows = r; errors = inr e }
received-Receives E f g (err other) r e = record {
  follows = Follows-trans r (Follows-same refl refl);
  errors = inl refl;
}
received-Receives E f g panic r e = tt

Leaves-of :
    {E : Type 0} {A : Type 0} (P : Handled → Type 0) (m : Outcome E A) (k : A → Outcome E Handled)
    → ((a : A) → Leaves P (k a))
    → Leaves P (m >>= k)
Leaves-of P (ok a) k h = h a
Leaves-of P (err e) k h = tt
Leaves-of P panic k h = tt

pub process_receive-Receives :
    (E : Type 0) (f : Flow) (socket : Reader)
    → Reads f.tcb.state
    → Leaves (Receives f) (process_receive {E = E} f socket)
unfolding process_receive
process_receive-Receives E f socket reads =
    Leaves-of (Receives f) (assert (is_none f.packet_for_client_length)) _ (λ u.
      Leaves-of (Receives f) (assert (ltb 0 (remaining_client_window f.tcb))) _
        (λ v. received-Receives E f _ (socket (max_read f)) (Follows-same refl refl) reads))
