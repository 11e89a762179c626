-- ===== src/Ipv6Connection.antt =====
-- relay/src/relay/ipv6_connection.rs: a flow over IPv6, written straight to a socket of the host. Packets for the
-- device come from the IPv6 packetizer, a parameter here (`Synthesis`): from what is read it makes the bytes of a packet.
pub mod Leak
use harmony_os_reverse_tethe.Prelude.{
  ℕ, ◌+◌, ◌-◌, ◌*◌, Bool, true, false, not, List, [], ◌∷◌, ◌++◌, length, take, ◌&&◌, Option, none,
  some, ltb, leb, ◌==◌, if◌then◌else◌, Outcome, ok, err, panic, ◌>>=◌,
}
use harmony_os_reverse_tethe.Ipv4Header.{Protocol, tcp, udp}
use harmony_os_reverse_tethe.Ipv6Packet
use harmony_os_reverse_tethe.IpPacket.{IpPacket, ipv4, ipv6}
use harmony_os_reverse_tethe.Tcp.Flow.{Ready}
use harmony_os_reverse_tethe.Tcp.Event.{IoError, would_block, other}
use harmony_os_reverse_tethe.Client.Event.{Handled, done}

abbrev pub idle_timeout_seconds : ℕ
idle_timeout_seconds = 2 * 60

-- `stream` is the socket's kind: of a stream or of datagrams.
pub record Ipv6Connection : Type 0 where
  pub stream : Bool
  pub closed : Bool
  pub idle_since : ℕ
  -- what the socket took, the packets in the client's buffer and its room, the selector's registration, the router's entry
  pub written : List (List ℕ)
  pub sent : List (List ℕ)
  pub remaining : ℕ
  pub registered : Bool
  pub in_router : Bool

-- What the host's socket does with the bytes that it is offered, and what a read gives.
abbrev pub Writer : Type 0
Writer = List ℕ → Outcome IoError ℕ

abbrev pub Reading : Type 0
Reading = Outcome IoError (List ℕ)

-- `Ipv6Packetizer::build` on what was read.
abbrev pub Synthesis : Type 0
Synthesis = List ℕ → List ℕ

unfoldable pub close : Ipv6Connection → Ipv6Connection
close f = if f.closed then f else record f { closed = true; registered = false }

abbrev pub remove_from_router : Ipv6Connection → Ipv6Connection
remove_from_router f = record f { in_router = false }

unfoldable pub is_expired : Ipv6Connection → ℕ → Bool
is_expired f now = ltb idle_timeout_seconds (now - f.idle_since)

-- A payload, which an IPv6 packet always has, goes to the socket in one call; what the socket does not take is lost.
unfoldable pub offer :
    {E : Type 0} → Ipv6Connection → List ℕ → Outcome IoError ℕ → Outcome E Ipv6Connection
offer f payload (ok w) = ok (record f { written = f.written ++ take w payload ∷ [] })
offer f payload (err would_block) = ok f
offer f payload (err other) = ok (record f { closed = true })
offer f payload panic = panic

unfoldable pub send_to_network :
    {E : Type 0} → Ipv6Connection → ℕ → IpPacket → Writer → Outcome E Ipv6Connection
unfolding offer
send_to_network f now (ipv4 packet) writer = ok f
send_to_network f now (ipv6 packet) writer = Ipv6Packet.payload packet >>= λ bytes.
    let touched = record f { idle_since = now } in
    if length bytes == 0 then ok touched else offer touched bytes (writer bytes)

-- `Client::send_raw_to_client`
abbrev send_raw_to_client : Ipv6Connection → List ℕ → Ipv6Connection
send_raw_to_client f raw =
    if leb (length raw) f.remaining
    then record f { remaining = f.remaining - length raw; sent = f.sent ++ raw ∷ [] }
    else f

unfoldable pub read : Ipv6Connection → ℕ → Synthesis → List ℕ → Ipv6Connection
unfolding close
read f now build bytes =
    if f.stream && length bytes == 0
    then close f
    else send_raw_to_client (record f { idle_since = now }) (build bytes)

unfoldable pub process_receive :
    {E : Type 0} → Ipv6Connection → ℕ → Synthesis → Reading → Outcome E (Handled Ipv6Connection)
unfolding read close
process_receive f now build (ok bytes) = ok (done (read f now build bytes))
process_receive f now build (err would_block) = ok (record { state = f; error = some would_block })
process_receive f now build (err other) = ok (done (close f))
process_receive f now build panic = panic

unfoldable pub process :
    {E : Type 0}
    → Ipv6Connection
    → ℕ
    → Ready
    → Synthesis
    → Reading
    → Outcome E (Handled Ipv6Connection)
unfolding process_receive
process f now ready build reading =
    if f.closed
    then ok (done f)
    else ((if ready.readable then process_receive f now build reading else ok (done f)) >>= λ h.
        ok (elim h.error [
          | none ↦ done (if h.state.closed then remove_from_router h.state else h.state)
          | some reason ↦ h
        ]))

unfoldable pub on_ready :
    {E : Type 0} → Ipv6Connection → ℕ → Ready → Synthesis → Reading → Outcome E Ipv6Connection
unfolding process close
on_ready f now ready build reading = do
  h ← process f now ready build reading
  ok (elim h.error [
    | none ↦ h.state
    | some would_block ↦ h.state
    | some other ↦ remove_from_router (if h.state.closed then h.state else close h.state)
  ])
