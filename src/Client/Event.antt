-- ===== src/Client/Event.antt =====
-- The handlers of relay/src/relay/client.rs for an event of the socket of the tunnel: the id goes out first, then the
-- packets for the device and those that wait for room; what arrives is pushed to the network. What the socket
-- does is a parameter, for a write (`Sink`) and a read (`Source`).
use harmony_os_reverse_tethe.Prelude.{
  ℕ, ◌+◌, Bool, true, false, not, ◌&&◌, List, [], ◌∷◌, length, Option, none, some, if◌then◌else◌,
  Outcome, ok, err, panic, ◌>>=◌,
}
use harmony_os_reverse_tethe.ByteOrder.{ByteOrder}
use harmony_os_reverse_tethe.ByteBuffer
use harmony_os_reverse_tethe.ByteBuffer.{Source}
use harmony_os_reverse_tethe.StreamBuffer
use harmony_os_reverse_tethe.StreamBuffer.{Sink}
use harmony_os_reverse_tethe.IpPacketBuffer
use harmony_os_reverse_tethe.Router.{Operations, Creation}
use harmony_os_reverse_tethe.Tcp.Flow.{Ready}
use harmony_os_reverse_tethe.Tcp.Event.{IoError, would_block, other}
use harmony_os_reverse_tethe.Client.{
  Client, ClientChannel, close, must_send_id, send_id, send_raw_to_client, update_interests,
}
use harmony_os_reverse_tethe.Client.Push.{push_to_network}

-- The trait of relay/src/relay/packet_source.rs: the packet that waits, and its removal.
pub record PacketSource (W Src : Type 0) : Type 0 where
  pub get : W → Src → Option (List ℕ)
  pub next : W → Src → Outcome IoError W

-- What a handler leaves, and its `io::Result`.
pub record Handled (A : Type 0) : Type 0 where
  pub state : A
  pub error : Option IoError

abbrev pub done : {A : Type 0} → A → Handled A
done a = record { state = a; error = none }

module _ {W Src : Type 0} (sources : PacketSource W Src) where
  -- One source, on the result of sending its packet: whether its packet is gone, by `next`.
  unfoldable pub serve :
      ClientChannel
      → W
      → Src
      → Outcome IoError ClientChannel
      → Outcome IoError (ClientChannel × W × Bool)
  serve channel w source (ok sent) = do v ← sources.next w source; ok (sent, v, true)
  serve channel w source (err would_block) = ok (channel, w, false)
  serve channel w source (err other) = do v ← sources.next w source; ok (channel, v, true)
  serve channel w source panic = panic

  -- The loop over the sources, with those that are kept pending.
  unfoldable pub serve_all :
      ClientChannel → W → List Src → Outcome IoError (ClientChannel × W × List Src)
  unfolding serve
  serve_all channel w [] = ok (channel, w, [])
  serve_all channel w (source ∷ rest) = elim (sources.get w source) [
    | none ↦ panic
    | some raw ↦
        serve channel w source (send_raw_to_client channel raw) >>= λ (channel', v, consumed).
        serve_all channel' v rest >>= λ (channel'', u, kept).
        ok (channel'', u, if consumed then kept else source ∷ kept)
  ]

  unfoldable pub process_pending :
      {C : Type 0} → Client C Src → W → Outcome IoError (Client C Src × W)
  unfolding serve_all
  process_pending client w = do
    r ← serve_all client.channel w client.pending_packet_sources
    ok (record client { channel = r.0; pending_packet_sources = r.2 }, r.1)

module _ {W C Src : Type 0} ⦃order : ByteOrder⦄ (sources : PacketSource W Src)
    (operations : Operations IoError C ClientChannel) (creation : Creation C) where
  -- `write` and what follows it.
  unfoldable pub process_send :
      Client C Src → W → Sink IoError → Outcome IoError (Handled (Client C Src × W))
  unfolding process_pending
  process_send client w stream =
      if must_send_id client
      then elim (send_id client stream) [
        | ok c ↦ ok (done (c, w))
        | err would_block ↦ ok (record { state = (client, w); error = some would_block })
        | err other ↦ ok (done (close operations client, w))
        | panic ↦ panic
      ]
      else elim (StreamBuffer.write_to client.channel.network_to_client stream) [
        | ok r ↦
            process_pending sources
              (record client { channel = record client.channel { network_to_client = r.0 } }) w
            >>= λ p. ok (done p)
        | err reason ↦ ok (done (close operations client, w))
        | panic ↦ panic
      ]

  -- The fuel is one more than the bytes that are held.
  unfoldable pub process_receive :
      Client C Src → Source IoError → Outcome IoError (Handled (Client C Src))
  unfolding push_to_network
  process_receive client stream = elim (IpPacketBuffer.read_from client.client_to_network stream) [
    | ok (buffer, false) ↦
        ok (done (close operations (record client { client_to_network = buffer })))
    | ok (buffer, true) ↦
        push_to_network operations creation (length (ByteBuffer.peek buffer.buf) + 1)
          (record client { client_to_network = buffer })
        >>= λ pushed. elim pushed [ none ↦ panic | some c ↦ ok (done c) ]
    | err would_block ↦ ok (record { state = client; error = some would_block })
    | err other ↦ ok (done (close operations client))
    | panic ↦ panic
  ]

  abbrev settle : Client C Src → Client C Src
  settle client =
      if client.closed then client else record client { channel = update_interests client.channel }

  -- The part of `process` that follows `process_send`.
  unfoldable pub process_readable :
      Client C Src → W → Ready → Source IoError → Outcome IoError (Handled (Client C Src × W))
  unfolding process_receive update_interests
  process_readable client w ready reader =
      if not client.closed && ready.readable
      then (process_receive client reader >>= λ h. ok (elim h.error [
        | none ↦ done (settle h.state, w)
        | some reason ↦ record { state = (h.state, w); error = some reason }
      ]))
      else ok (done (settle client, w))

  unfoldable pub process :
      Client C Src
      → W
      → Ready
      → Sink IoError
      → Source IoError
      → Outcome IoError (Handled (Client C Src × W))
  unfolding process_readable process_send
  process client w ready writer reader =
      if client.closed
      then ok (done (client, w))
      else (if ready.writable
          then (process_send client w writer >>= λ h. elim h.error [
            | none ↦ process_readable h.state.0 h.state.1 ready reader
            | some reason ↦ ok h
          ])
          else process_readable client w ready reader)

  -- Where `process` fails for good, the tunnel is closed.
  unfoldable pub on_ready :
      Client C Src → W → Ready → Sink IoError → Source IoError → Outcome IoError (Client C Src × W)
  unfolding process
  on_ready client w ready writer reader = do
    h ← process client w ready writer reader
    ok (elim h.error [
      | none ↦ h.state
      | some would_block ↦ h.state
      | some other ↦ if h.state.0.closed then h.state else (close operations h.state.0, h.state.1)
    ])
