-- ===== src/Tests/Runs.antt =====
-- A run of a TCP connection: the FIN of the device waits for byte 4, and the socket takes that byte and ends its
-- stream in one event.
use harmony_os_reverse_tethe.Prelude.{◌≡◌, true, false, [], ok, err, panic, Outcome, refl, inl}
use harmony_os_reverse_tethe.StreamBuffer
use harmony_os_reverse_tethe.Tcp.State.{fin_wait1, remaining_client_window}
use harmony_os_reverse_tethe.Tcp.Flow.{Flow, reply_empty_packet_to_client, update_interests}
use harmony_os_reverse_tethe.Tcp.Packet.{do_handle_fin}
use harmony_os_reverse_tethe.Tcp.Event.{IoError, Socket, on_ready}
use harmony_os_reverse_tethe.Tcp.Transitions.{Steps, FinSent}
use harmony_os_reverse_tethe.Tcp.Moves.{Watched}
use harmony_os_reverse_tethe.Tcp.Quiet.{nothing}
use harmony_os_reverse_tethe.Tcp.Run.{Run, start, event, run_transitions}
use harmony_os_reverse_tethe.Tests.Connection.{open_flow, takes_all}

abbrev ending_flow : Flow
ending_flow = record open_flow {
  tcb = record open_flow.tcb { fin_received = true };
  interests = record { readable = true; writable = true };
}

abbrev ending_socket : Socket
ending_socket = record {
  readiness = record { readable = true; writable = true };
  connect_failed = false;
  write = takes_all;
  read = λ n. ok [];
}

flow_of : Outcome IoError Flow → Flow
flow_of (ok f) = f
flow_of (err e) = ending_flow
flow_of panic = ending_flow

ended_flow : Flow
unfolding flow_of on_ready
ended_flow = flow_of (on_ready {E = IoError} ending_flow ending_socket 9)

ending_run : Run ending_flow ended_flow
unfolding ended_flow StreamBuffer.write_to StreamBuffer.front StreamBuffer.advance
    StreamBuffer.is_empty remaining_client_window do_handle_fin reply_empty_packet_to_client
    update_interests
ending_run = event ending_socket 9 start (λ readable. refl) nothing refl

ended_flow-state : ended_flow.tcb.state ≡ fin_wait1
unfolding ended_flow StreamBuffer.write_to StreamBuffer.front StreamBuffer.advance
    StreamBuffer.is_empty remaining_client_window do_handle_fin reply_empty_packet_to_client
    update_interests
ended_flow-state = refl

run_transitions_example :
    Steps ending_flow.tcb.state ended_flow.tcb.state
    × (FinSent ending_flow → FinSent ended_flow)
    × Watched ended_flow
run_transitions_example =
    run_transitions {f = ending_flow} {g = ended_flow} (λ running asked. inl refl) ending_run
