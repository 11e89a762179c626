-- ===== src/Udp.antt =====
-- relay/src/relay/udp_connection.rs: a flow of datagrams, with what it reaches of its client. The packetizer is seen
-- as in the TCP connection; the socket is a parameter, for a datagram that is sent (`Sender`) and one that is read
-- (`Reader`).
pub mod Queue
use harmony_os_reverse_tethe.Prelude.{
  ℕ, ◌+◌, ◌-◌, ◌*◌, Bool, true, false, not, ◌||◌, ◌&&◌, List, [], ◌∷◌, length, Option, none, some,
  ltb, if◌then◌else◌, Outcome, ok, err, panic, ◌>>=◌,
}
use harmony_os_reverse_tethe.ByteOrder.{ByteOrder}
use harmony_os_reverse_tethe.DatagramBuffer
use harmony_os_reverse_tethe.DatagramBuffer.{DatagramBuffer, Sender, Error, full, partial_write, io}
use harmony_os_reverse_tethe.Ipv4Packet
use harmony_os_reverse_tethe.IpPacket.{IpPacket, ipv4, ipv6}
use harmony_os_reverse_tethe.Tcp.Flow.{
  Ready, Packetizer, ClientSide, build, inflate, send_to_client,
}
use harmony_os_reverse_tethe.Tcp.Event.{IoError, would_block, other, Reader}
use harmony_os_reverse_tethe.Client.{max_packet_length}
use harmony_os_reverse_tethe.Client.Event.{Handled, done}

pub record UdpConnection : Type 0 where
  pub client_to_network : DatagramBuffer
  pub network_to_client : Packetizer
  pub closed : Bool
  pub interests : Ready
  pub idle_since : ℕ
  -- the client's side, the selector's registration and the router's entry
  pub client : ClientSide
  pub registered : Bool
  pub in_router : Bool

abbrev pub idle_timeout_seconds : ℕ
idle_timeout_seconds = 2 * 60

-- As it is created for a packet from the device.
unfoldable pub create : Packetizer → ClientSide → ℕ → UdpConnection
create packetizer client now = record {
  client_to_network = DatagramBuffer.new (4 * max_packet_length);
  network_to_client = packetizer;
  closed = false;
  interests = record { readable = true; writable = false };
  idle_since = now;
  client = client;
  registered = true;
  in_router = true;
}

unfoldable pub close : UdpConnection → UdpConnection
close f = record f { closed = true; registered = false }

abbrev pub remove_from_router : UdpConnection → UdpConnection
remove_from_router f = record f { in_router = false }

abbrev pub touch : UdpConnection → ℕ → UdpConnection
touch f now = record f { idle_since = now }

-- `elapsed().as_secs() > IDLE_TIMEOUT_SECONDS`
unfoldable pub is_expired : UdpConnection → ℕ → Bool
is_expired f now = ltb idle_timeout_seconds (now - f.idle_since)

unfoldable pub update_interests : UdpConnection → UdpConnection
update_interests f = record f {
  interests = record {
    readable = true;
    writable = not (DatagramBuffer.is_empty f.client_to_network);
  };
}

-- The datagram has left the buffer, whatever the socket did with it.
unfoldable pub written :
    UdpConnection → Outcome (Error IoError) (Unit {0}) → Outcome IoError (Handled UdpConnection)
written f (ok u) = ok (done f)
written f (err (io would_block)) = ok (done f)
written f (err (io other)) = ok (done (close f))
written f (err partial_write) = ok (done (close f))
written f (err full) = ok (done (close f))
written f panic = panic

module _ ⦃order : ByteOrder⦄ where
  -- The payload of the packet goes into the buffer; one that does not fit is lost.
  unfoldable pub enqueue : {E : Type 0} → UdpConnection → List ℕ → Outcome E UdpConnection
  unfolding update_interests
  enqueue f payload = elim (DatagramBuffer.read_from {E = IoError} f.client_to_network payload) [
    | ok b ↦ ok (update_interests (record f { client_to_network = b }))
    | err reason ↦ ok f
    | panic ↦ panic
  ]

  unfoldable pub send_to_network : {E : Type 0} → UdpConnection → IpPacket → Outcome E UdpConnection
  unfolding enqueue
  send_to_network f (ipv6 packet) = ok f
  send_to_network f (ipv4 packet) = Ipv4Packet.payload packet >>= λ payload. elim payload [
    | none ↦ panic
    | some bytes ↦ enqueue f bytes
  ]

  unfoldable pub process_send :
      UdpConnection → Sender IoError → Outcome IoError (Handled UdpConnection)
  unfolding written
  process_send f socket = DatagramBuffer.write_to f.client_to_network socket >>= λ r.
      written (record f { client_to_network = r.0 }) r.1

-- `read`: the packet that is made of the datagram goes to the client, or is lost where that is full.
unfoldable pub read : UdpConnection → List ℕ → UdpConnection
read f bytes =
    let p = build (record f.network_to_client { payload = bytes }) (length bytes) in
    record f {
      network_to_client = p;
      client = (send_to_client f.client (inflate p p.total_length)).0;
    }

unfoldable pub process_receive : UdpConnection → Reader → Outcome IoError (Handled UdpConnection)
unfolding read close
process_receive f socket = elim (socket (max_packet_length - f.network_to_client.payload_index)) [
  | ok bytes ↦ ok (done (read f bytes))
  | err would_block ↦ ok (record { state = f; error = some would_block })
  | err other ↦ ok (done (close f))
  | panic ↦ panic
]

abbrev settle : UdpConnection → UdpConnection
settle f = if f.closed then f else update_interests f

module _ ⦃order : ByteOrder⦄ where
  -- Behind `process_send`.
  unfoldable pub process_readable :
      UdpConnection → Ready → Reader → Outcome IoError (Handled UdpConnection)
  unfolding process_receive update_interests
  process_readable f ready reader =
      if not f.closed && ready.readable
      then (process_receive f reader >>= λ h.
          ok (elim h.error [ none ↦ done (settle h.state) | some reason ↦ h ]))
      else ok (done (settle f))

  unfoldable pub on_event :
      UdpConnection → Ready → Sender IoError → Reader → Outcome IoError (Handled UdpConnection)
  unfolding process_send process_readable close
  on_event f ready writer reader =
      if ready.readable || ready.writable
      then (if ready.writable
          then (process_send f writer >>= λ h. process_readable h.state ready reader)
          else process_readable f ready reader)
      else ok (done (close f))

  -- The connection removes itself from the router once it is closed.
  unfoldable pub process :
      UdpConnection → ℕ → Ready → Sender IoError → Reader → Outcome IoError (Handled UdpConnection)
  unfolding on_event
  process f now ready writer reader =
      if f.closed
      then ok (done f)
      else (on_event (touch f now) ready writer reader >>= λ h. ok (elim h.error [
        | none ↦ done (if h.state.closed then remove_from_router h.state else h.state)
        | some reason ↦ h
      ]))

  unfoldable pub on_ready :
      UdpConnection → ℕ → Ready → Sender IoError → Reader → Outcome IoError UdpConnection
  unfolding process close
  on_ready f now ready writer reader = do
    h ← process f now ready writer reader
    ok (elim h.error [
      | none ↦ h.state
      | some would_block ↦ h.state
      | some other ↦ remove_from_router (if h.state.closed then h.state else close h.state)
    ])
