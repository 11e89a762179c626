-- ===== src/Ipv6Connection/Leak.antt =====
-- The registration of the socket of relay/src/relay/ipv6_connection.rs at the selector.
use harmony_os_reverse_tethe.Prelude.{ℕ, ◌≡◌, refl, true, false, List, length, ◌==◌, ok, err}
use harmony_os_reverse_tethe.Ipv6Packet
use harmony_os_reverse_tethe.Ipv6Packet.{Ipv6Packet}
use harmony_os_reverse_tethe.IpPacket.{ipv6}
use harmony_os_reverse_tethe.Tcp.Flow.{Ready}
use harmony_os_reverse_tethe.Tcp.Event.{other}
use harmony_os_reverse_tethe.Client.Event.{done}
use harmony_os_reverse_tethe.Ipv6Connection.{
  Ipv6Connection, Writer, Reading, Synthesis, close, offer, send_to_network, process,
}

-- A registered connection whose socket fails for good on a payload that is not empty counts as closed and stays
-- registered; neither `close` nor any event of the socket changes that.
pub failed_write_leaks :
    {E : Type 0} (f : Ipv6Connection) (now : ℕ) (packet : Ipv6Packet) (payload : List ℕ)
    (writer : Writer)
    → Ipv6Packet.payload {E = E} packet ≡ ok payload
    → (length payload == 0) ≡ false
    → f.registered ≡ true
    → writer payload ≡ err other
    → (g : Ipv6Connection) × (send_to_network {E = E} f now (ipv6 packet) writer ≡ ok g)
      × (g.closed ≡ true)
      × ((close g).registered ≡ true)
      × ((later : ℕ) (ready : Ready) (build : Synthesis) (reading : Reading)
          → process {E = E} g later ready build reading ≡ ok (done g))
unfolding send_to_network offer close process
failed_write_leaks f now packet payload writer has some_bytes registered fails = (
  record f { idle_since = now; closed = true },
  rw (send_to_network, has, some_bytes, fails) refl,
  refl,
  registered,
  λ later ready build reading. refl,
)
