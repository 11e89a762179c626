-- ===== src/Router/Total.antt =====
-- Where `send_to_network` of relay/src/relay/router.rs returns, and where it fails.
use harmony_os_reverse_tethe.Prelude.{
  ◌≡◌, refl, ◌⊎◌, Option, none, some, arith, Bool-cases, Option-cases, inl, inr, Outcome, ok, ◌>>=◌,
  IsOk, >>=-IsOk, FailsAs, >>=-FailsAs, Outcome-total,
}
use harmony_os_reverse_tethe.ByteOrder.{ByteOrder}
use harmony_os_reverse_tethe.HashMap.{get}
use harmony_os_reverse_tethe.IpPacket.{IpPacket, ipv4, ipv6}
use harmony_os_reverse_tethe.Connection.{ConnectionId, from_packet}
use harmony_os_reverse_tethe.Connection.Same.{connection_id_key}
use harmony_os_reverse_tethe.Router.{
  Operations, Creation, Router, create_connection, is_invalid, hand_over, send_to_network,
}
use harmony_os_reverse_tethe.Router.Send.{target, hand_over_target, route-eq}

module _ {E C Ch : Type 0} (operations : Operations E C Ch) (creation : Creation C)
    ⦃order : ByteOrder⦄ where
  -- The connection that the table has for the packet, or that is made for it, fails on it, and so does `o`.
  pub record Refuses {A : Type 0} (router : Router C) (channel : Ch) (packet : IpPacket)
      (o : Outcome E A) : Type 0 where
    pub id : ConnectionId
    pub connection : C
    pub has_id : from_packet packet ≡ some id
    pub found : target operations creation router id packet ≡ ok (some connection)
    pub fails : FailsAs (operations.send_to_network connection channel packet) o

  pub >>=-Refuses :
      {A B : Type 0} {router : Router C} {channel : Ch} {packet : IpPacket} {m : Outcome E A}
      (f : A → Outcome E B)
      → Refuses router channel packet m
      → Refuses router channel packet (m >>= f)
  >>=-Refuses f r = record {
    id = r.id;
    connection = r.connection;
    has_id = r.has_id;
    found = r.found;
    fails = >>=-FailsAs f r.fails;
  }

  target-IsOk :
      (router : Router C) (id : ConnectionId) (packet : IpPacket)
      → from_packet packet ≡ some id
      → IsOk (target operations creation router id packet)
  unfolding from_packet create_connection
  target-IsOk router id (ipv6 packet) has_id = elim (Option-cases (get id router)) [
    | inl missing ↦ rw (target, missing) (_, refl)
    | inr (c, found) ↦ rw (target, found) (_, refl)
  ]
  target-IsOk router id (ipv4 packet) has_id = elim (Option-cases (get id router)) [
    | inr (c, found) ↦ rw (target, found) (_, refl)
    | inl missing ↦
        rw (target, missing)
          (elim (Option-cases packet.transport_header_data) [
            | inl no_transport ↦ absurd (ground (arith, no_transport, has_id))
            | inr (transport, has_transport) ↦ rw (create_connection, has_transport) (_, refl)
          ])
  ]

  hand_over_target-total :
      (router : Router C) (channel : Ch) (id : ConnectionId) (packet : IpPacket) (o : Option C)
      → from_packet packet ≡ some id
      → target operations creation router id packet ≡ ok o
      → IsOk (hand_over_target operations creation router channel id packet o)
        ⊎ Refuses router channel packet
            (hand_over_target operations creation router channel id packet o)
  unfolding hand_over_target hand_over
  hand_over_target-total router channel id packet none has_id found = inl (_, refl)
  hand_over_target-total router channel id packet (some c) has_id found =
      elim (Outcome-total (operations.send_to_network c channel packet)) [
        | inl sent ↦ inl (>>=-IsOk _ _ sent (λ s e. (_, refl)))
        | inr fails ↦ inr (record {
          id = id;
          connection = c;
          has_id = has_id;
          found = found;
          fails = >>=-FailsAs _ fails;
        })
      ]

  -- The router takes a packet, or the connection that it is for fails on it.
  pub send_to_network-total :
      (router : Router C) (channel : Ch) (packet : IpPacket)
      → IsOk (send_to_network operations creation router channel packet)
        ⊎ Refuses router channel packet (send_to_network operations creation router channel packet)
  unfolding send_to_network
  send_to_network-total router channel packet = elim (Option-cases (from_packet packet)) [
    | inl missing ↦ rw (send_to_network, missing) (inl (_, refl))
    | inr (id, has_id) ↦
        rw (send_to_network, has_id)
          (elim (Bool-cases (is_invalid packet)) [
            | inl invalid ↦ rw invalid (inl (_, refl))
            | inr valid ↦
                let (o, found) = target-IsOk router id packet has_id in
                rw (valid, route-eq operations creation router channel id packet, found)
                  (hand_over_target-total router channel id packet o has_id found)
          ])
  ]
