-- ===== src/Client/Push.antt =====
-- `push_to_network` of relay/src/relay/client.rs: the packets that have arrived go to the router. The loop runs on
-- fuel, and gives nothing where the fuel is used up.
use harmony_os_reverse_tethe.Prelude.{
  ℕ, zero, suc, Bool, true, false, Option, none, some, if◌then◌else◌, Outcome, ok, err, panic,
  ◌>>=◌,
}
use harmony_os_reverse_tethe.ByteOrder.{ByteOrder}
use harmony_os_reverse_tethe.ParseError.{PacketParseError, malformed, unsupported}
use harmony_os_reverse_tethe.IpPacket.{IpPacket}
use harmony_os_reverse_tethe.IpPacketBuffer
use harmony_os_reverse_tethe.IpPacketBuffer.{IpPacketBuffer}
use harmony_os_reverse_tethe.Router
use harmony_os_reverse_tethe.Router.{Operations, Creation}
use harmony_os_reverse_tethe.Tcp.Event.{IoError}
use harmony_os_reverse_tethe.Client.{Client, ClientChannel, close}

module _ {C Src : Type 0} ⦃order : ByteOrder⦄ (operations : Operations IoError C ClientChannel)
    (creation : Creation C) where
  unfoldable pub send_packet : Client C Src → IpPacket → Outcome IoError (Client C Src)
  send_packet client packet = do
    sent ← Router.send_to_network operations creation client.router client.channel packet
    ok (record client { router = sent.0; channel = sent.1 })

  -- On the result of `packet`: the client, and whether the loop goes on to `next`.
  unfoldable pub pushed :
      Client C Src
      → Outcome PacketParseError (Option IpPacket)
      → Outcome IoError (Client C Src × Bool)
  unfolding send_packet
  pushed client (ok (some packet)) = do c ← send_packet client packet; ok (c, true)
  pushed client (ok none) = ok (client, false)
  pushed client (err (unsupported reason)) = ok (client, true)
  pushed client (err (malformed message)) = ok (close operations client, false)
  pushed client panic = panic

  unfoldable pub push_one_packet_to_network : Client C Src → Outcome IoError (Client C Src × Bool)
  unfolding pushed
  push_one_packet_to_network client = pushed client (IpPacketBuffer.packet client.client_to_network)

  -- On the result of `next`: the same.
  unfoldable pub advanced :
      Client C Src
      → Outcome PacketParseError (IpPacketBuffer × Bool)
      → Outcome IoError (Client C Src × Bool)
  advanced client (ok r) = ok (record client { client_to_network = r.0 }, r.1)
  advanced client (err reason) = ok (close operations client, false)
  advanced client panic = panic

  -- One round of the loop: whether another one follows.
  unfoldable pub round : Client C Src → Outcome IoError (Client C Src × Bool)
  unfolding push_one_packet_to_network advanced
  round client = do
    one ← push_one_packet_to_network client
    if one.1 then advanced one.0 (IpPacketBuffer.next one.0.client_to_network) else ok one

  unfoldable pub push_to_network : ℕ → Client C Src → Outcome IoError (Option (Client C Src))
  unfolding round
  push_to_network zero client = ok none
  push_to_network (suc fuel) client =
      round client >>= λ r. elim r.1 [ true ↦ push_to_network fuel r.0 | false ↦ ok (some r.0) ]
