-- ===== src/Client/Frames.antt =====
-- `push_to_network` of relay/src/relay/client.rs against its reference: the stream of bytes is cut into packets, and
-- each of them goes to the router, in order.
use harmony_os_reverse_tethe.Prelude.{
  inl, inr, ℕ, zero, suc, ◌<◌, ◌≡◌, ◌≢◌, refl, ap, ◌∙◌, true, false, List, [], ◌∷◌, ◌++◌, All,
  length, take, drop, none, some, arith, Outcome, Outcome-cases, ok, err, panic, ◌>>=◌, >>=-eq-ok,
  subslice_front, length-append,
}
use harmony_os_reverse_tethe.ByteOrder.{ByteOrder}
use harmony_os_reverse_tethe.ByteBuffer.Laws.{IsValid}
use harmony_os_reverse_tethe.ParseError.{PacketParseError, Message, malformed, unsupported}
use harmony_os_reverse_tethe.IpPacket
use harmony_os_reverse_tethe.IpPacket.{IpPacket, front_packet_length}
use harmony_os_reverse_tethe.IpPacket.Framing.{front_packet_length-append}
use harmony_os_reverse_tethe.IpPacket.Safe.{parse-ne-panic}
use harmony_os_reverse_tethe.IpPacketBuffer.{IpPacketBuffer, packet, packet_of}
use harmony_os_reverse_tethe.IpPacketBuffer.Laws.{bytes, next-some}
use harmony_os_reverse_tethe.Router
use harmony_os_reverse_tethe.Router.{Operations, Creation, Router}
use harmony_os_reverse_tethe.Tcp.Event.{IoError}
use harmony_os_reverse_tethe.Client.{Client, ClientChannel}
use harmony_os_reverse_tethe.Client.Push.{
  pushed, send_packet, push_one_packet_to_network, advanced, round, push_to_network,
}
use harmony_os_reverse_tethe.Client.Round.{packet_incomplete}

take_front : {A : Type 0} (xs ys : List A) → take (length xs) (xs ++ ys) ≡ xs
take_front [] ys = refl
take_front (x ∷ xs) ys = ap (◌∷◌ x) (take_front xs ys)

drop_front : {A : Type 0} (xs ys : List A) → drop (length xs) (xs ++ ys) ≡ ys
drop_front [] ys = refl
drop_front (x ∷ xs) ys = drop_front xs ys

-- A whole packet by its header, which the parser does not take for malformed.
pub record IsFrame ⦃order : ByteOrder⦄ (raw : List ℕ) : Type 0 where
  pub whole : front_packet_length raw ≡ ok (some (length raw))
  pub well_formed : (message : Message) → IpPacket.parse raw ≢ err (malformed message)

-- The frames, one after another, and what follows them.
abbrev pub joined : List (List ℕ) → List ℕ → List ℕ
joined [] rest = rest
joined (frame ∷ frames) rest = frame ++ joined frames rest

packet_front :
    ⦃order : ByteOrder⦄ (b : IpPacketBuffer) (frame more : List ℕ)
    → bytes b ≡ frame ++ more
    → front_packet_length frame ≡ ok (some (length frame))
    → packet b ≡ (IpPacket.parse frame >>= λ p. ok (some p))
unfolding packet packet_of
packet_front b frame more e whole =
    rw
      (
        packet,
        e,
        front_packet_length-append frame more whole,
        subslice_front {E = PacketParseError} (frame ++ more) (length frame)
            (omega (arith, length-append frame more)),
        take_front frame more,
      )
      refl

module _ {C : Type 0} ⦃order : ByteOrder⦄ (operations : Operations IoError C ClientChannel)
    (creation : Creation C) where
  -- The reference: each packet on its own, those of an unsupported kind being dropped.
  abbrev pub deliver :
      Router C × ClientChannel → List ℕ → Outcome IoError (Router C × ClientChannel)
  deliver s raw = elim (IpPacket.parse raw) [
    | ok p ↦ Router.send_to_network operations creation s.0 s.1 p
    | err reason ↦ ok s
    | panic ↦ panic
  ]

  abbrev pub deliver_all :
      Router C × ClientChannel → List (List ℕ) → Outcome IoError (Router C × ClientChannel)
  deliver_all s [] = ok s
  deliver_all s (frame ∷ frames) = deliver s frame >>= λ s'. deliver_all s' frames

module _ {C Src : Type 0} ⦃order : ByteOrder⦄ (operations : Operations IoError C ClientChannel)
    (creation : Creation C) where
  -- One frame in front.
  pushed_frame :
      (client : Client C Src) (frame : List ℕ) (s : Router C × ClientChannel)
      → IsFrame frame
      → deliver operations creation (client.router, client.channel) frame ≡ ok s
      → pushed operations creation client (IpPacket.parse frame >>= λ p. ok (some p))
        ≡ ok (record client { router = s.0; channel = s.1 }, true)
  unfolding pushed send_packet
  pushed_frame client frame s f e = elim (Outcome-cases (IpPacket.parse frame)) [
    | inl (p, parsed) ↦
        let sent : Router.send_to_network operations creation client.router client.channel p
            ≡ ok s =
          rw (deliver, parsed) at e in
        rw (parsed, send_packet, sent) refl
    | inr (inl (malformed message, parsed)) ↦ absurd (f.well_formed message parsed)
    | inr (inl (unsupported reason, parsed)) ↦
        let same : (client.router, client.channel) ≡ s = cc (rw (deliver, parsed) at e) in
        rw (parsed, ← same) refl
    | inr (inr parsed) ↦ absurd (parse-ne-panic frame parsed)
  ]

  round_frame :
      (client : Client C Src) (frame more : List ℕ) (s : Router C × ClientChannel)
      → IsFrame frame
      → IsValid client.client_to_network.buf
      → bytes client.client_to_network ≡ frame ++ more
      → deliver operations creation (client.router, client.channel) frame ≡ ok s
      → (b : IpPacketBuffer) × (round operations creation client
          ≡ ok (record client { router = s.0; channel = s.1; client_to_network = b }, true))
        × (bytes b ≡ more)
        × IsValid b.buf
  unfolding round push_one_packet_to_network advanced
  round_frame client frame more s f v e delivered =
      let (b, drops, rest, valid, _) =
        next-some client.client_to_network (length frame) v
          (rw e (front_packet_length-append frame more f.whole)) in
      (
        b,
        rw
            (
              round,
              push_one_packet_to_network,
              packet_front client.client_to_network frame more e f.whole,
              pushed_frame client frame s f delivered,
              drops,
            )
            refl,
        rest ∙ ap (drop (length frame)) e ∙ drop_front frame more,
        valid,
      )

  round_rest :
      (client : Client C Src)
      → front_packet_length (bytes client.client_to_network) ≡ ok none
      → round operations creation client ≡ ok (client, false)
  unfolding round push_one_packet_to_network pushed
  round_rest client e =
      rw (round, push_one_packet_to_network, packet_incomplete client.client_to_network e) refl

  -- Where the bytes of a valid buffer are whole packets that are not malformed and then the
  -- beginning of one at most, the router takes each packet, and the fuel is more than the
  -- packets, the loop has the effect of delivering the packets one by one; the rest stays in the
  -- buffer.
  pub push_to_network-deliver_all :
      (frames : List (List ℕ)) (rest : List ℕ) (fuel : ℕ) (client : Client C Src)
      (s : Router C × ClientChannel)
      → All IsFrame frames
      → front_packet_length rest ≡ ok none
      → IsValid client.client_to_network.buf
      → bytes client.client_to_network ≡ joined frames rest
      → length frames < fuel
      → deliver_all operations creation (client.router, client.channel) frames ≡ ok s
      → (b : IpPacketBuffer) × (push_to_network operations creation fuel client
          ≡ ok (some (record client { router = s.0; channel = s.1; client_to_network = b })))
        × (bytes b ≡ rest)
  unfolding push_to_network
  push_to_network-deliver_all frames rest zero client s fs incomplete v e enough delivered =
      absurd (omega arith)
  push_to_network-deliver_all [] rest (suc fuel) client s fs incomplete v e enough delivered =
      let same : (client.router, client.channel) ≡ s = cc delivered in
      rw (round_rest client (rw (← e) at incomplete), ← same) (client.client_to_network, refl, e)
  push_to_network-deliver_all (frame ∷ frames) rest (suc fuel) client s (f, fs) incomplete v e
        enough delivered =
      let (t, first, others) =
        >>=-eq-ok (deliver operations creation (client.router, client.channel) frame) _ delivered in
      let (b, played, left, valid) = round_frame client frame (joined frames rest) t f v e first in
      let (c, pushed_all, end) =
        push_to_network-deliver_all frames rest fuel
          (record client { router = t.0; channel = t.1; client_to_network = b }) s fs incomplete
          valid left (omega arith) others in
      (c, rw played pushed_all, end)
