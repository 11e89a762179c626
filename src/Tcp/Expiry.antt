-- ===== src/Tcp/Expiry.antt =====
-- When a connection of relay/src/relay/tcp_connection.rs expires.
use harmony_os_reverse_tethe.Prelude.{
  ℕ, ◌+◌, ◌*◌, ◌^◌, ◌≤◌, ◌≡◌, true, false, List, arith, Outcome, ok, err, panic, refl, ◌∙◌, ap, sym,
}
use harmony_os_reverse_tethe.TcpHeader.{TcpHeaderData, is_syn}
use harmony_os_reverse_tethe.Ipv4Packet.{Ipv4Packet}
use harmony_os_reverse_tethe.IpPacket.{ipv4}
use harmony_os_reverse_tethe.Tcp.State.{init, syn_sent, is}
use harmony_os_reverse_tethe.Tcp.Flow.{Flow, touch, interests_of}
use harmony_os_reverse_tethe.Tcp.Packet.{handle_duplicate_syn, handle_packet, send_to_network}
use harmony_os_reverse_tethe.Tcp.Event.{IoError, is_expired}
use harmony_os_reverse_tethe.Tcp.Sequence.{IsTcp, tcp_header_of_packet-IsTcp}
use harmony_os_reverse_tethe.Tcp.Handshake.{send_to_network-eq-ok}

-- A SYN that the device sends again while the relay connects, any number of times.
pub data Resent (f : Flow) : Flow → Type 0 where
  never : Resent f f
  again :
      {g h : Flow} {p : Ipv4Packet} {header : TcpHeaderData} {payload : List ℕ} (now random : ℕ)
      → Resent f g
      → IsTcp p header payload
      → is_syn header ≡ true
      → send_to_network {E = IoError} g (ipv4 p) now random ≡ ok h
      → Resent f h

-- Still in the handshake, since the same time.
record Waits (f g : Flow) : Type 0 where
  running : g.closed ≡ false
  connecting : is g.tcb.state syn_sent ≡ true
  since : g.created_at ≡ f.created_at

handle_packet-duplicate :
    {E : Type 0} (f : Flow) (p : Ipv4Packet) {h : TcpHeaderData} {payload : List ℕ} (random : ℕ)
    → IsTcp p h payload
    → is f.tcb.state init ≡ false
    → is_syn h ≡ true
    → handle_packet {E = E} f p random ≡ ok (handle_duplicate_syn f h)
unfolding handle_packet
handle_packet-duplicate {E} f p random t later syn =
    rw (tcp_header_of_packet-IsTcp {E = E} p t, later, syn) refl

duplicate-Waits : (f g : Flow) (h : TcpHeaderData) → Waits f g → Waits f (handle_duplicate_syn g h)
unfolding handle_duplicate_syn
duplicate-Waits f g h w =
    rw w.connecting (record { running = w.running; connecting = w.connecting; since = w.since })

value_or : Flow → Outcome IoError Flow → Flow
value_or d (ok x) = x
value_or d (err y) = d
value_or d panic = d

abbrev returned : Flow → Outcome IoError Flow
returned g = ok g

ok-injective : (g h : Flow) → returned g ≡ ok h → g ≡ h
unfolding value_or
ok-injective g h e = ap (value_or g) e

Resent-Waits : {f g : Flow} → Waits f f → Resent f g → Waits f g
Resent-Waits w never = w
Resent-Waits {f} w (again {g} {h} {p} {header} now random r t syn e) =
    let v = Resent-Waits w r in
    let d =
      duplicate-Waits f (touch g now) header
        (record { running = v.running; connecting = v.connecting; since = v.since }) in
    let sent =
      send_to_network-eq-ok {E = IoError} g (handle_duplicate_syn (touch g now) header) p now random
        (handle_packet-duplicate {E = IoError} (touch g now) p random t
          (ground (arith, v.connecting)) syn)
        d.running in
    let same =
      ok-injective h
        (record (handle_duplicate_syn (touch g now) header) {
          interests = interests_of (handle_duplicate_syn (touch g now) header);
        })
        (sym e ∙ sent) in
    rw same (record { running = d.running; connecting = d.connecting; since = d.since })

-- A connection that is open and in SYN_SENT expires by its own age: a device that sends its SYN again
-- does not put that off, however often it does, and more than ten whole seconds after it was created the connection is
-- expired.
pub syn_expires :
    {f g : Flow} (later : ℕ)
    → f.closed ≡ false
    → is f.tcb.state syn_sent ≡ true
    → Resent f g
    → (is_expired g later ≡ is_expired f later)
      × (f.created_at + 11 * 10 ^ 9 ≤ later → is_expired g later ≡ true)
unfolding is_expired
syn_expires {f} later running connecting r =
    let w = Resent-Waits (record { running = running; connecting = connecting; since = refl }) r in
    (ground (arith, w.connecting, w.since), λ aged. ground (arith, w.connecting, w.since))
