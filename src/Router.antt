-- ===== src/Router.antt =====
-- relay/src/relay/router.rs: the connections of a client, by their ids. `Operations` is the trait `Connection` of
-- connection.rs at one moment, with the channel to the client passed through; `Creation` opens sockets,
-- and `none` is the error of one that cannot be opened.

pub mod Send
pub mod Total
pub mod Clean
use harmony_os_reverse_tethe.Prelude.{
  ℕ, ◌+◌, Bool, true, false, not, List, [], ◌∷◌, length, Option, none, some, if◌then◌else◌, Outcome,
  ok, panic, ◌>>=◌,
}
use harmony_os_reverse_tethe.ByteOrder.{ByteOrder}
use harmony_os_reverse_tethe.HashMap.{HashMap, get, insert, remove}
use harmony_os_reverse_tethe.Ipv4Header.{Protocol}
use harmony_os_reverse_tethe.Ipv4Packet
use harmony_os_reverse_tethe.Ipv4Packet.{Ipv4Packet}
use harmony_os_reverse_tethe.Ipv6Packet.{Ipv6Packet}
use harmony_os_reverse_tethe.IpPacket.{IpPacket, ipv4, ipv6}
use harmony_os_reverse_tethe.Connection.{ConnectionId, from_packet}
use harmony_os_reverse_tethe.Connection.Same.{connection_id_key}

pub record Operations (E C Ch : Type 0) : Type 0 where
  pub send_to_network : C → Ch → IpPacket → Outcome E (C × Ch)
  pub close : C → C
  pub expire : C → Ch → C × Ch
  pub is_expired : C → Bool
  pub is_closed : C → Bool

pub record Creation (C : Type 0) : Type 0 where
  pub create_tcp : ConnectionId → Ipv4Packet → Option C
  pub create_udp : ConnectionId → Ipv4Packet → Option C
  pub create_ipv6 : ConnectionId → Ipv6Packet → Option C

abbrev pub Router : Type 0 → Type 0
Router C = HashMap ConnectionId C

pub new : {C : Type 0} → Router C
new = []

-- Where `ipv4_packet.headers()` has no transport header it panics.
unfoldable pub create_connection :
    {E C : Type 0} → Creation C → ConnectionId → IpPacket → Outcome E (Option C)
create_connection creation id (ipv4 packet) = elim packet.transport_header_data [
  | none ↦ panic
  | some transport ↦ ok (elim id.protocol [
    | Protocol.tcp ↦ creation.create_tcp id packet
    | Protocol.udp ↦ creation.create_udp id packet
    | Protocol.other ↦ none
  ])
]
create_connection creation id (ipv6 packet) = ok (creation.create_ipv6 id packet)

-- The packets that `send_to_network` drops before it looks for a connection.
unfoldable pub is_invalid : IpPacket → Bool
is_invalid (ipv4 packet) = not (Ipv4Packet.is_valid packet)
is_invalid (ipv6 packet) = false

module _ {E C Ch : Type 0} (operations : Operations E C Ch) where
  -- The packet goes to its connection, which leaves the table once it is closed.
  unfoldable pub hand_over : Router C → Ch → ConnectionId → C → IpPacket → Outcome E (Router C × Ch)
  hand_over router channel id connection packet = do
    sent ← operations.send_to_network connection channel packet
    let table = insert id sent.0 router
    ok (if operations.is_closed sent.0 then remove id table else table, sent.1)

  module _ (creation : Creation C) where
    -- The connection of the id, made where there is none.
    unfoldable pub route : Router C → Ch → ConnectionId → IpPacket → Outcome E (Router C × Ch)
    unfolding hand_over create_connection
    route router channel id packet = elim (get id router) [
      | some connection ↦ hand_over router channel id connection packet
      | none ↦ create_connection creation id packet >>= λ made. elim made [
        | none ↦ ok (router, channel)
        | some connection ↦ hand_over (insert id connection router) channel id connection packet
      ]
    ]

    unfoldable pub send_to_network :
        ⦃order : ByteOrder⦄ → Router C → Ch → IpPacket → Outcome E (Router C × Ch)
    unfolding route is_invalid
    send_to_network router channel packet = elim (from_packet packet) [
      | none ↦ ok (router, channel)
      | some id ↦ if is_invalid packet then ok (router, channel) else route router channel id packet
    ]

  -- `clear`: the table is drained, and its connections are closed.
  unfoldable pub clear : Router C → Router C × List C
  clear [] = ([], [])
  clear ((id, connection) ∷ router) = ([], operations.close connection ∷ (clear router).1)

  unfoldable pub expired_ids : Router C → List ConnectionId
  expired_ids [] = []
  expired_ids ((id, connection) ∷ router) =
      let rest = expired_ids router in if operations.is_expired connection then id ∷ rest else rest

  -- The second loop of `clean_expired_connections`. The connections that expired stand beside what is left.
  unfoldable pub expire_ids : List ConnectionId → Router C → Ch → (Router C × Ch) × List C
  expire_ids [] router channel = ((router, channel), [])
  expire_ids (id ∷ ids) router channel = elim (get id router) [
    | none ↦ expire_ids ids router channel
    | some connection ↦
        let expired = operations.expire connection channel in
        let rest = expire_ids ids (remove id router) expired.1 in (rest.0, expired.0 ∷ rest.1)
  ]

  unfoldable pub clean_expired_connections : Router C → Ch → (Router C × Ch) × List C
  unfolding expired_ids expire_ids
  clean_expired_connections router channel = expire_ids (expired_ids router) router channel

-- `remove`, called by a connection that closes itself.
unfoldable pub remove_connection : {C : Type 0} → Router C → ConnectionId → Router C
remove_connection router id = remove id router

unfoldable pub active_count : {C : Type 0} → Router C → ℕ
active_count router = length router

abbrev count : Protocol → ℕ × ℕ × ℕ → ℕ × ℕ × ℕ
count Protocol.tcp (tcp, udp, other) = (tcp + 1, udp, other)
count Protocol.udp (tcp, udp, other) = (tcp, udp + 1, other)
count Protocol.other (tcp, udp, other) = (tcp, udp, other + 1)

unfoldable pub protocol_counts : {C : Type 0} → Router C → ℕ × ℕ × ℕ
protocol_counts [] = (0, 0, 0)
protocol_counts ((id, connection) ∷ router) = count id.protocol (protocol_counts router)
