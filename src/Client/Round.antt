-- ===== src/Client/Round.antt =====
-- One round of the loop of `push_to_network` of relay/src/relay/client.rs: it takes bytes away, or is the last.
use harmony_os_reverse_tethe.Prelude.{
  ◌<◌, ◌≡◌, refl, ◌⊎◌, inl, inr, Bool, true, false, length, length-drop, Option, none, some, arith,
  if◌then◌else◌, Outcome, Outcome-cases, ok, err, panic, ◌>>=◌, >>=-eq-ok, IsOk, >>=-IsOk,
}
use harmony_os_reverse_tethe.ByteOrder.{ByteOrder}
use harmony_os_reverse_tethe.ByteBuffer.Laws.{IsValid}
use harmony_os_reverse_tethe.ParseError.{PacketParseError, malformed, unsupported}
use harmony_os_reverse_tethe.IpPacket.{IpPacket, front_packet_length}
use harmony_os_reverse_tethe.IpPacket.Framing.{
  front_packet_length-ne-panic, front_packet_length-bounds,
}
use harmony_os_reverse_tethe.IpPacketBuffer.{IpPacketBuffer, packet, packet_of, next, next_of}
use harmony_os_reverse_tethe.IpPacketBuffer.Laws.{bytes, next-some, packet-ne-panic}
use harmony_os_reverse_tethe.Router
use harmony_os_reverse_tethe.Router.{Operations, Creation}
use harmony_os_reverse_tethe.Router.Total
use harmony_os_reverse_tethe.Tcp.Event.{IoError}
use harmony_os_reverse_tethe.Client.{Client, ClientChannel, close}
use harmony_os_reverse_tethe.Client.Push.{
  pushed, send_packet, push_one_packet_to_network, advanced, round,
}

-- What `next` does on each result of the framing.
data NextResult (b : IpPacketBuffer)
    : Outcome PacketParseError (IpPacketBuffer × Bool) → Type 0 where
  dropped :
      (c : IpPacketBuffer)
      → IsValid c.buf
      → length (bytes c) < length (bytes b)
      → NextResult b (ok (c, true))
  incomplete : front_packet_length (bytes b) ≡ ok none → NextResult b (ok (b, false))
  refused : (reason : PacketParseError) → NextResult b (err reason)

next-NextResult : (b : IpPacketBuffer) → IsValid b.buf → NextResult b (next b)
unfolding next next_of
next-NextResult b v = elim (Outcome-cases (front_packet_length (bytes b))) [
  | inl (none, e) ↦ rw (next, e) (incomplete e)
  | inl (some n, e) ↦
      let (c, f, rest, valid, _) = next-some b n v e in
      let bounds = front_packet_length-bounds (bytes b) e in
      rw f (dropped c valid (rw rest (omega (arith, length-drop n (bytes b)))))
  | inr (inl (reason, e)) ↦ rw (next, e) (refused reason)
  | inr (inr e) ↦ absurd (front_packet_length-ne-panic (bytes b) e)
]

pub packet_incomplete :
    ⦃order : ByteOrder⦄ (b : IpPacketBuffer)
    → front_packet_length (bytes b) ≡ ok none
    → packet b ≡ ok none
unfolding packet packet_of
packet_incomplete b e = rw (packet, e) refl

module _ {C Src : Type 0} ⦃order : ByteOrder⦄ where
  -- The buffer is valid; the tunnel is closed, or no packet is in front of the bytes that are left.
  abbrev pub Drained : Client C Src → Type 0
  Drained client =
      IsValid client.client_to_network.buf
      × ((client.closed ≡ true) ⊎ (packet client.client_to_network ≡ ok none))

  -- What one round leaves: a shorter buffer and another round, or the end.
  pub data RoundResult (client : Client C Src) : Client C Src × Bool → Type 0 where
    again :
        (c : Client C Src)
        → IsValid c.client_to_network.buf
        → length (bytes c.client_to_network) < length (bytes client.client_to_network)
        → RoundResult client (c, true)
    last : (c : Client C Src) → Drained c → RoundResult client (c, false)

module _ {C Src : Type 0} ⦃order : ByteOrder⦄ (operations : Operations IoError C ClientChannel)
    (creation : Creation C) where
  advanced-RoundResult :
      (client c : Client C Src) {o : Outcome PacketParseError (IpPacketBuffer × Bool)}
      {r : Client C Src × Bool}
      → c.client_to_network ≡ client.client_to_network
      → IsValid c.client_to_network.buf
      → NextResult c.client_to_network o
      → advanced operations creation c o ≡ ok r
      → RoundResult client r
  unfolding advanced close
  advanced-RoundResult client c {r} same valid (dropped b v h) e =
      let result : (record c { client_to_network = b }, true) ≡ r = cc e in
      rw (← result) (again _ v (rw (← same) h))
  advanced-RoundResult client c {r} same valid (incomplete h) e =
      let result : (c, false) ≡ r = cc e in
      rw (← result) (last _ (valid, inr (packet_incomplete c.client_to_network h)))
  advanced-RoundResult client c {r} same valid (refused reason) e =
      let result : (close operations c, false) ≡ r = cc e in
      rw (← result) (last _ (valid, inl refl))

  pub send_packet-same :
      (client : Client C Src) (p : IpPacket) {c : Client C Src}
      → send_packet operations creation client p ≡ ok c
      → c.client_to_network ≡ client.client_to_network
  unfolding send_packet
  send_packet-same client p {c} e =
      let (sent, _, built) =
        >>=-eq-ok (Router.send_to_network operations creation client.router client.channel p) _ e in
      let made : record client { router = sent.0; channel = sent.1 } ≡ c = cc built in
      rw (← made) refl

  -- The packet in front is dealt with, on each result of `packet`.
  pub pushed-same :
      (client : Client C Src) (o : Outcome PacketParseError (Option IpPacket)) {c : Client C Src}
      → pushed operations creation client o ≡ ok (c, true)
      → c.client_to_network ≡ client.client_to_network
  unfolding pushed send_packet
  pushed-same client (ok (some p)) {c} e =
      let (sent, took, made) = >>=-eq-ok (send_packet operations creation client p) _ e in
      let same : sent ≡ c = cc made in rw (← same) (send_packet-same client p took)
  pushed-same client (ok none) e = cc
  pushed-same client (err (unsupported reason)) e = cc e
  pushed-same client (err (malformed message)) e = cc
  pushed-same client panic e = cc

  pushed-last :
      (client : Client C Src) {c : Client C Src}
      → IsValid client.client_to_network.buf
      → pushed operations creation client (packet client.client_to_network) ≡ ok (c, false)
      → Drained c
  unfolding pushed close
  pushed-last client {c} v e = elim (Outcome-cases (packet client.client_to_network)) [
    | inl (none, f) ↦ let same : client ≡ c = cc (rw f at e) in rw (← same) (v, inr f)
    | inl (some p, f) ↦
        let (sent, _, made) = >>=-eq-ok (send_packet operations creation client p) _ (rw f at e) in
        absurd (cc made)
    | inr (inl (unsupported reason, f)) ↦ absurd (cc (rw f at e))
    | inr (inl (malformed message, f)) ↦
        let same : close operations client ≡ c = cc (rw f at e) in rw (← same) (v, inl refl)
    | inr (inr f) ↦ absurd (packet-ne-panic client.client_to_network f)
  ]

  after_push :
      (client : Client C Src) (one : Client C Src × Bool) {r : Client C Src × Bool}
      → IsValid client.client_to_network.buf
      → push_one_packet_to_network operations creation client ≡ ok one
      → (if one.1
          then advanced operations creation one.0 (next one.0.client_to_network)
          else ok one)
        ≡ ok r
      → RoundResult client r
  unfolding push_one_packet_to_network
  after_push client (c, true) v one rest =
      let same = pushed-same client _ one in
      let valid : IsValid c.client_to_network.buf = rw same v in
      advanced-RoundResult client c same valid (next-NextResult c.client_to_network valid) rest
  after_push client (c, false) {r} v one rest =
      let result : (c, false) ≡ r = cc rest in rw (← result) (last c (pushed-last client v one))

  pub round-RoundResult :
      (client : Client C Src) {r : Client C Src × Bool}
      → IsValid client.client_to_network.buf
      → round operations creation client ≡ ok r
      → RoundResult client r
  unfolding round
  round-RoundResult client v e =
      let (one, pushes, rest) =
        >>=-eq-ok (push_one_packet_to_network operations creation client) _ e in
      after_push client one v pushes rest

  -- The packet in front of the client's buffer is refused by its connection, and `o` fails with it.
  abbrev pub Blocked : {A : Type 0} → Client C Src → Outcome IoError A → Type 0
  Blocked client o =
      (p : IpPacket) × (packet client.client_to_network ≡ ok (some p))
      × Router.Total.Refuses operations creation client.router client.channel p o

  pub >>=-Blocked :
      {A B : Type 0} (client : Client C Src) {m : Outcome IoError A} (f : A → Outcome IoError B)
      → Blocked client m
      → Blocked client (m >>= f)
  >>=-Blocked client f (p, front, stuck) =
      (p, front, Router.Total.>>=-Refuses operations creation f stuck)

  pushed-total :
      (client : Client C Src) (o : Outcome PacketParseError (Option IpPacket))
      → packet client.client_to_network ≡ o
      → IsOk (pushed operations creation client o)
        ⊎ Blocked client (pushed operations creation client o)
  unfolding pushed send_packet
  pushed-total client (ok (some p)) front =
      elim (Router.Total.send_to_network-total operations creation client.router client.channel p) [
        | inl (sent, e) ↦ inl (rw (send_packet, e) (_, refl))
        | inr stuck ↦ inr (>>=-Blocked client _ (>>=-Blocked client _ (p, front, stuck)))
      ]
  pushed-total client (ok none) front = inl (_, refl)
  pushed-total client (err (unsupported reason)) front = inl (_, refl)
  pushed-total client (err (malformed message)) front = inl (_, refl)
  pushed-total client panic front = absurd (packet-ne-panic client.client_to_network front)

  advanced-IsOk :
      (c : Client C Src) {o : Outcome PacketParseError (IpPacketBuffer × Bool)}
      → NextResult c.client_to_network o
      → IsOk (advanced operations creation c o)
  unfolding advanced
  advanced-IsOk c (dropped b v h) = (_, refl)
  advanced-IsOk c (incomplete h) = (_, refl)
  advanced-IsOk c (refused reason) = (_, refl)

  after_push-IsOk :
      (client : Client C Src) (one : Client C Src × Bool)
      → IsValid client.client_to_network.buf
      → push_one_packet_to_network operations creation client ≡ ok one
      → IsOk (
          if one.1
          then advanced operations creation one.0 (next one.0.client_to_network)
          else ok one)
  unfolding push_one_packet_to_network
  after_push-IsOk client (c, true) v one =
      advanced-IsOk c (next-NextResult c.client_to_network (rw (pushed-same client _ one) v))
  after_push-IsOk client (c, false) v one = (_, refl)

  -- A round returns, or a connection refuses the packet in front.
  pub round-total :
      (client : Client C Src)
      → IsValid client.client_to_network.buf
      → IsOk (round operations creation client) ⊎ Blocked client (round operations creation client)
  unfolding round push_one_packet_to_network
  round-total client v = elim (pushed-total client (packet client.client_to_network) refl) [
    | inl one_pushed ↦
        inl (>>=-IsOk _ _ one_pushed (λ one pushes. after_push-IsOk client one v pushes))
    | inr blocked ↦ inr (>>=-Blocked client _ blocked)
  ]
