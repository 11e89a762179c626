-- ===== src/Udp/Queue.antt =====
-- The datagrams of relay/src/relay/udp_connection.rs on their way to the network: they go out one by one, in order.
use harmony_os_reverse_tethe.Prelude.{
  ℕ, ◌+◌, ◌<◌, ◌^◌, ◌≡◌, ◌≢◌, ◌↔◌, refl, ap, true, false, not, List, [], ◌∷◌, ◌++◌, length, some,
  arith, Bool-cases, inl, inr, ◌⊎◌, ◌==◌, if◌then◌else◌, Outcome, ok, err, panic,
}
use harmony_os_reverse_tethe.ByteOrder.{ByteOrder}
use harmony_os_reverse_tethe.DatagramBuffer.{
  DatagramBuffer, Sender, has_enough_space_for, is_empty, sent, from_io,
}
use harmony_os_reverse_tethe.DatagramBuffer.Blocks.{IsValid, Holds}
use harmony_os_reverse_tethe.DatagramBuffer.Enqueue.{read_from_appends, read_from_no_space}
use harmony_os_reverse_tethe.DatagramBuffer.Dequeue.{write_to_takes, is_empty_iff}
use harmony_os_reverse_tethe.Ipv4Packet
use harmony_os_reverse_tethe.Ipv4Packet.{Ipv4Packet}
use harmony_os_reverse_tethe.IpPacket.{ipv4}
use harmony_os_reverse_tethe.Tcp.Event.{IoError, would_block, other}
use harmony_os_reverse_tethe.Client.Event.{done}
use harmony_os_reverse_tethe.Udp.{
  UdpConnection, update_interests, enqueue, send_to_network, written, process_send, close,
}

-- The connection queues these datagrams.
pub record Queues (f : UdpConnection) (ds : List (List ℕ)) : Type 0 where
  pub valid : IsValid f.client_to_network
  pub holds : Holds f.client_to_network ds

ne_nil : (ds : List (List ℕ)) (d : List ℕ) → ds ++ d ∷ [] ≢ []
ne_nil [] d e = cc
ne_nil (x ∷ ds) d e = cc

filled :
    (b : DatagramBuffer) (ds : List (List ℕ)) (d : List ℕ)
    → IsValid b
    → Holds b (ds ++ d ∷ [])
    → not (is_empty b) ≡ true
filled b ds d v h = elim (Bool-cases (is_empty b)) [
  | inl empty ↦ absurd (ne_nil ds d ((is_empty_iff b (ds ++ d ∷ []) v h).0 empty))
  | inr full_now ↦ rw full_now refl
]

-- What follows the result of the socket for a datagram of `n` bytes.
written-closed :
    (f : UdpConnection) (n : ℕ) (o : Outcome IoError ℕ)
    → f.closed ≡ false
    → o ≢ panic
    → (g : UdpConnection) × (written f (sent n (from_io o)) ≡ ok (done g))
      × (g.client_to_network ≡ f.client_to_network)
      × ((g.closed ≡ false) ↔ ((o ≡ ok n) ⊎ (o ≡ err would_block)))
unfolding written sent from_io close
written-closed f n (ok w) running calm = elim (Bool-cases (w == n)) [
  | inl all ↦
      let same : w ≡ n = ground (arith, all) in
      (f, rw (sent, all) refl, refl, (λ e. inl (ap ok same), λ e. running))
  | inr part ↦ (
    close f,
    rw (sent, part) refl,
    refl,
    (
      λ e. cc,
      λ e. elim e [
        | inl whole ↦ let same : w ≡ n = cc whole in absurd (ground (arith, part, same))
        | inr blocks ↦ cc
      ],
    ),
  )
]
written-closed f n (err would_block) running calm = (f, refl, refl, (λ e. inr refl, λ e. running))
written-closed f n (err other) running calm =
    (close f, refl, refl, (λ e. cc, λ e. elim e [ inl whole ↦ cc | inr blocks ↦ cc ]))
written-closed f n panic running calm = absurd (calm refl)

module _ ⦃order : ByteOrder⦄ where
  -- Without space for its payload a packet changes nothing.
  send_to_network_drops :
      {E : Type 0} (f : UdpConnection) (packet : Ipv4Packet) (payload : List ℕ)
      → Ipv4Packet.payload {E = E} packet ≡ ok (some payload)
      → length payload < 2 ^ 16
      → has_enough_space_for f.client_to_network (length payload) ≡ false
      → send_to_network {E = E} f (ipv4 packet) ≡ ok f
  unfolding send_to_network enqueue
  send_to_network_drops {E} f packet payload has small no_space =
      rw
        (
          send_to_network,
          has,
          enqueue,
          read_from_no_space f.client_to_network payload small no_space,
        )
        refl

  -- A packet whose payload has less than 2 ^ 16 bytes comes to a connection with a valid queue. Where the
  -- buffer says that it has space for the payload, and the block would not end past the circular part with the tail at 0,
  -- the payload is queued behind the others and the connection waits to write. Where the buffer says that it has no
  -- space, the payload is dropped and the connection stays as it was. The queue is valid either way, and the
  -- connection is not closed by it.
  pub send_to_network-Queues :
      {E : Type 0} (f : UdpConnection) (packet : Ipv4Packet) (payload : List ℕ) (ds : List (List ℕ))
      → Ipv4Packet.payload {E = E} packet ≡ ok (some payload)
      → Queues f ds
      → length payload < 2 ^ 16
      → (has_enough_space_for f.client_to_network (length payload) ≡ true
          → f.client_to_network.tail ≡ 0
          → f.client_to_network.head + 2 + length payload
            < f.client_to_network.circular_buffer_length)
      → let space = has_enough_space_for f.client_to_network (length payload) in
        (g : UdpConnection) × (send_to_network {E = E} f (ipv4 packet) ≡ ok g)
        × Queues g (if space then ds ++ payload ∷ [] else ds)
        × (space ≡ true → g.interests.writable ≡ true)
        × (space ≡ false → g ≡ f)
        × (g.closed ≡ f.closed)
  unfolding send_to_network enqueue update_interests
  send_to_network-Queues {E} f packet payload ds has q small inside =
      elim (Bool-cases (has_enough_space_for f.client_to_network (length payload))) [
        | inl space ↦
            let (b, e, valid, holds) =
              read_from_appends {E = IoError} f.client_to_network payload ds q.valid q.holds small
                space (inside space) in
            (
              update_interests (record f { client_to_network = b }),
              rw (send_to_network, has, enqueue, e) refl,
              rw space (record { valid = valid; holds = holds }),
              (λ yes_space. filled b ds payload valid holds),
              (λ no_space. cc),
              refl,
            )
        | inr none_left ↦ (
          f,
          send_to_network_drops f packet payload has small none_left,
          rw none_left q,
          (λ space. cc),
          (λ no_space. refl),
          refl,
        )
      ]

  -- Of an open connection with a valid queue that holds a datagram, and a socket that answers
  -- without a panic: the oldest datagram leaves the queue and is offered to the socket. The
  -- connection is open afterwards exactly where the socket takes the whole datagram or would
  -- block, and in the latter case the datagram is lost.
  pub process_send_takes :
      (f : UdpConnection) (d : List ℕ) (ds : List (List ℕ)) (socket : Sender IoError)
      → Queues f (d ∷ ds)
      → f.closed ≡ false
      → socket d ≢ panic
      → (g : UdpConnection) × (process_send f socket ≡ ok (done g))
        × Queues g ds
        × ((g.closed ≡ false) ↔ ((socket d ≡ ok (length d)) ⊎ (socket d ≡ err would_block)))
  unfolding process_send
  process_send_takes f d ds socket q running calm =
      let (b, e, valid, holds) = write_to_takes f.client_to_network d ds socket q.valid q.holds in
      let (g, handled, same, closing) =
        written-closed (record f { client_to_network = b }) (length d) (socket d) running calm in
      (
        g,
        rw (process_send, e) handled,
        record { valid = rw same valid; holds = rw same holds },
        closing,
      )
