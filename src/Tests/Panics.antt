-- ===== src/Tests/Panics.antt =====
-- Connections that panic on an event.
use harmony_os_reverse_tethe.Prelude.{◌≡◌, some, panic, ◌>>=◌, refl, arith, true, false}
use harmony_os_reverse_tethe.StreamBuffer
use harmony_os_reverse_tethe.TcpHeader.{flag_rst}
use harmony_os_reverse_tethe.IpPacket.{ipv4}
use harmony_os_reverse_tethe.Tcp.State.{remaining_client_window}
use harmony_os_reverse_tethe.Tcp.Flow.{Flow, may_read}
use harmony_os_reverse_tethe.Tcp.Packet.{expected_packet, send_to_network}
use harmony_os_reverse_tethe.Tcp.Event.{IoError, Socket, expire, next, process}
use harmony_os_reverse_tethe.Tcp.Window.{InRange}
use harmony_os_reverse_tethe.Tcp.Waiting.{next_panics}
use harmony_os_reverse_tethe.Tcp.Panic.{process_panics}
use harmony_os_reverse_tethe.Tests.Connection.{
  open_flow, header, packet_of, packet_of-IsTcp, takes_all, two_bytes,
}

abbrev waiting_flow : Flow
waiting_flow = record open_flow { packet_for_client_length = some 42 }

next_panics_example :
    (next {E = IoError} (expire waiting_flow) ≡ panic)
    × ((send_to_network {E = IoError} waiting_flow (ipv4 (packet_of (header 201 flag_rst))) 5 0
          >>= λ g. next g)
        ≡ panic)
unfolding expected_packet StreamBuffer.size
next_panics_example =
    next_panics waiting_flow (packet_of (header 201 flag_rst)) 5 0 (packet_of-IsTcp 201 flag_rst) 42
      refl refl refl refl refl

-- The FIN of the device waits for byte 4, and the window has room for one byte.
abbrev finishing_flow : Flow
finishing_flow = record open_flow {
  tcb = record open_flow.tcb { client_window = 1; fin_received = true };
}

finishing_flow-InRange : InRange finishing_flow.tcb
finishing_flow-InRange = record {
  sequence_in = omega arith;
  acked_in = omega arith;
  window_in = omega arith;
}

abbrev ready_socket : Socket
ready_socket = record {
  readiness = record { readable = true; writable = true };
  connect_failed = false;
  write = takes_all;
  read = two_bytes;
}

process_panics_example :
    (may_read finishing_flow ≡ true) × (process {E = IoError} finishing_flow ready_socket 7 ≡ panic)
unfolding remaining_client_window StreamBuffer.write_to StreamBuffer.front StreamBuffer.advance
    StreamBuffer.is_empty
process_panics_example =
    process_panics finishing_flow ready_socket 7 1 refl refl finishing_flow-InRange refl refl refl
      refl refl refl (omega arith) refl
