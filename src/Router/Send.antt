-- ===== src/Router/Send.antt =====
-- Where a packet goes, and what the table of relay/src/relay/router.rs is afterwards.
use harmony_os_reverse_tethe.Prelude.{
  ◌≡◌, refl, sym, ◌∙◌, false, Option, none, some, arith, if◌then◌else◌, Bool-cases, Option-cases,
  inl, inr, Outcome, Outcome-cases, ok, ◌>>=◌, >>=-eq-ok,
}
use harmony_os_reverse_tethe.ByteOrder.{ByteOrder}
use harmony_os_reverse_tethe.HashMap.{same, get, insert, remove, NodupKeys, Values}
use harmony_os_reverse_tethe.HashMap.Laws.{
  get-insert, get-remove, insert-NodupKeys, remove-NodupKeys, insert-Values, remove-Values,
  remove-insert, insert-insert,
}
use harmony_os_reverse_tethe.IpPacket.{IpPacket}
use harmony_os_reverse_tethe.Connection.{ConnectionId, from_packet}
use harmony_os_reverse_tethe.Connection.Same.{connection_id_key}
use harmony_os_reverse_tethe.Router.{
  Operations, Creation, Router, create_connection, is_invalid, hand_over, route, send_to_network,
}

module _ {E C Ch : Type 0} (operations : Operations E C Ch) where
  -- No id stands twice, and every connection in the table is open.
  pub record IsValid (router : Router C) : Type 0 where
    pub nodup : NodupKeys router
    pub all_open : Values (λ c. operations.is_closed c ≡ false) router

  -- What the table has for an id whose connection is now `c`: nothing once it is closed.
  abbrev pub kept : C → Option C
  kept c = if operations.is_closed c then none else some c

  -- The table `after` is `before` with `entry` at `id`.
  abbrev pub Differs : Router C → Router C → ConnectionId → Option C → Type 0
  Differs before after id entry =
      (j : ConnectionId) → get j after ≡ (if same j id then entry else get j before)

  -- The connection that a packet is for: the one of its id, or one that is made.
  abbrev pub target : Creation C → Router C → ConnectionId → IpPacket → Outcome E (Option C)
  target creation router id packet = elim (get id router) [
    | some connection ↦ ok (some connection)
    | none ↦ create_connection creation id packet
  ]

  abbrev pub stored : Router C → ConnectionId → C → Router C
  stored router id c =
      if operations.is_closed c then remove id (insert id c router) else insert id c router

  hand_over-eq :
      (router : Router C) (channel : Ch) (id : ConnectionId) (c : C) (packet : IpPacket)
      → hand_over operations router channel id c packet ≡ (
          operations.send_to_network c channel packet >>= λ sent.
          ok (stored router id sent.0, sent.1))
  unfolding hand_over
  hand_over-eq router channel id c packet = refl

  stored-Differs :
      (router : Router C) (id : ConnectionId) (c : C)
      → Differs router (stored router id c) id (kept c)
  stored-Differs router id c j = elim (Bool-cases (operations.is_closed c)) [
    | inl closed ↦
        rw (closed, get-remove j id (insert id c router), get-insert j id c router) (ground arith)
    | inr running ↦ rw (running, get-insert j id c router) refl
  ]

  stored-IsValid :
      (router : Router C) (id : ConnectionId) (c : C)
      → IsValid router
      → IsValid (stored router id c)
  stored-IsValid router id c v = elim (Bool-cases (operations.is_closed c)) [
    | inl closed ↦
        rw (closed, remove-insert id c router)
          (record {
            nodup = remove-NodupKeys id router v.nodup;
            all_open = remove-Values _ id router v.all_open;
          })
    | inr running ↦ rw running (record {
      nodup = insert-NodupKeys id c router v.nodup;
      all_open = insert-Values _ id c router running v.all_open;
    })
  ]

  -- A connection that was stored a moment before leaves no trace.
  stored-insert :
      (router : Router C) (id : ConnectionId) (c d : C)
      → stored (insert id d router) id c ≡ stored router id c
  stored-insert router id c d = rw (insert-insert id c d router, remove-insert id c router) refl

  hand_over-insert :
      (router : Router C) (channel : Ch) (id : ConnectionId) (c : C) (packet : IpPacket)
      → hand_over operations (insert id c router) channel id c packet
        ≡ hand_over operations router channel id c packet
  hand_over-insert router channel id c packet =
      rw
        (
          hand_over-eq (insert id c router) channel id c packet,
          hand_over-eq router channel id c packet,
        )
        (elim (Outcome-cases (operations.send_to_network c channel packet)) [
          | inl (sent, e) ↦ rw (e, stored-insert router id sent.0 c) refl
          | inr (inl (reason, e)) ↦ rw e refl
          | inr (inr e) ↦ rw e refl
        ])

  module _ (creation : Creation C) ⦃order : ByteOrder⦄ where
    unfoldable pub hand_over_target :
        Router C → Ch → ConnectionId → IpPacket → Option C → Outcome E (Router C × Ch)
    hand_over_target router channel id packet none = ok (router, channel)
    hand_over_target router channel id packet (some c) =
        hand_over operations router channel id c packet

    pub route-eq :
        (router : Router C) (channel : Ch) (id : ConnectionId) (packet : IpPacket)
        → route operations creation router channel id packet
          ≡ (target creation router id packet >>= hand_over_target router channel id packet)
    unfolding route hand_over_target
    route-eq router channel id packet = elim (Option-cases (get id router)) [
      | inl missing ↦
          rw (route, target, missing)
            (elim (Outcome-cases (create_connection {E = E} creation id packet)) [
              | inl (none, made) ↦ rw made refl
              | inl (some c, made) ↦ rw made (hand_over-insert router channel id c packet)
              | inr (inl (reason, made)) ↦ rw made refl
              | inr (inr made) ↦ rw made refl
            ])
      | inr (d, present) ↦ rw (route, target, present) refl
    ]

    send_to_network-eq :
        (router : Router C) (channel : Ch) (packet : IpPacket) {id : ConnectionId} {c : C}
        → from_packet packet ≡ some id
        → is_invalid packet ≡ false
        → target creation router id packet ≡ ok (some c)
        → send_to_network operations creation router channel packet
          ≡ hand_over operations router channel id c packet
    unfolding send_to_network hand_over_target
    send_to_network-eq router channel packet {id} {c} has_id valid found =
        rw (send_to_network, has_id, valid)
          (rw (route-eq router channel id packet, found, hand_over_target) refl)

    -- A packet with an id, which is not dropped as invalid, whose connection is found or made and takes it: the
    -- table then differs from the one before at most at that id, where it has the connection as the packet left it,
    -- or nothing once that is closed.
    pub send_to_network_lem :
        (router : Router C) (channel : Ch) (packet : IpPacket) {id : ConnectionId} {c c' : C}
        {channel' : Ch}
        → from_packet packet ≡ some id
        → is_invalid packet ≡ false
        → target creation router id packet ≡ ok (some c)
        → operations.send_to_network c channel packet ≡ ok (c', channel')
        → (after : Router C) × (send_to_network operations creation router channel packet
            ≡ ok (after, channel'))
          × Differs router after id (kept c')
    send_to_network_lem router channel packet {id} {c} {c'} has_id valid found sent = (
      stored router id c',
      rw
          (
            send_to_network-eq router channel packet has_id valid found,
            hand_over-eq router channel id c packet,
            sent,
          )
          refl,
      stored-Differs router id c',
    )

    hand_over-IsValid :
        (router : Router C) (channel : Ch) (id : ConnectionId) (c : C) (packet : IpPacket)
        {after : Router C} {channel' : Ch}
        → IsValid router
        → hand_over operations router channel id c packet ≡ ok (after, channel')
        → IsValid after
    hand_over-IsValid router channel id c packet {after} {channel'} v e =
        let (sent, _, stores) =
          >>=-eq-ok (operations.send_to_network c channel packet) _
            (sym (hand_over-eq router channel id c packet) ∙ e) in
        let same_table : stored router id sent.0 ≡ after = cc stores in
        rw (← same_table) (stored-IsValid router id sent.0 v)

    hand_over_target-IsValid :
        (router : Router C) (channel : Ch) (id : ConnectionId) (packet : IpPacket) (o : Option C)
        {after : Router C} {channel' : Ch}
        → IsValid router
        → hand_over_target router channel id packet o ≡ ok (after, channel')
        → IsValid after
    unfolding hand_over_target
    hand_over_target-IsValid router channel id packet none {after} v e =
        let same_table : router ≡ after = cc e in rw (← same_table) v
    hand_over_target-IsValid router channel id packet (some c) v e =
        hand_over-IsValid router channel id c packet v e

    route-IsValid :
        (router : Router C) (channel : Ch) (id : ConnectionId) (packet : IpPacket)
        {after : Router C} {channel' : Ch}
        → IsValid router
        → route operations creation router channel id packet ≡ ok (after, channel')
        → IsValid after
    route-IsValid router channel id packet v e =
        let (o, _, handed) =
          >>=-eq-ok (target creation router id packet) _
            (sym (route-eq router channel id packet) ∙ e) in
        hand_over_target-IsValid router channel id packet o v handed

    -- Where the router returns from a packet, a valid table is valid again: no id stands twice, and every
    -- connection is open.
    pub send_to_network-IsValid :
        (router : Router C) (channel : Ch) (packet : IpPacket) {after : Router C} {channel' : Ch}
        → IsValid router
        → send_to_network operations creation router channel packet ≡ ok (after, channel')
        → IsValid after
    unfolding send_to_network
    send_to_network-IsValid router channel packet {after} {channel'} v =
        elim (Option-cases (from_packet packet)) [
          | inl missing ↦
              rw (send_to_network, missing)
                (λ e. let same_table : router ≡ after = cc e in rw (← same_table) v)
          | inr (id, has_id) ↦
              rw (send_to_network, has_id)
                (elim (Bool-cases (is_invalid packet)) [
                  | inl invalid ↦
                      rw invalid
                        (λ e. let same_table : router ≡ after = cc e in rw (← same_table) v)
                  | inr valid ↦ rw valid (λ e. route-IsValid router channel id packet v e)
                ])
        ]
