-- ===== src/Tcp/Run.antt =====
-- Runs of the handlers of relay/src/relay/tcp_connection.rs, in any order that their callers allow.
use mathlib.Core.Path.{subst}
use harmony_os_reverse_tethe.Prelude.{◌≡◌, ◌≢◌, Bool, true, false, inl, inr, ℕ, ok, refl, arith}
use harmony_os_reverse_tethe.IpPacket.{}
use harmony_os_reverse_tethe.Tcp.State.{TcpState, close_wait, discriminant, new_tcb}
use harmony_os_reverse_tethe.Tcp.Flow.{Flow}
use harmony_os_reverse_tethe.Tcp.Packet.{}
use harmony_os_reverse_tethe.Tcp.Event.{IoError, Socket, on_ready}
use harmony_os_reverse_tethe.Tcp.Transitions.{
  Transition, syn, connect, ack, late_fin, device_fin, network_fin, simultaneous_fin, fin_acked,
  second_fin, Steps, here, after, FinSent, Follows-trans, Follows-same,
}
use harmony_os_reverse_tethe.Tcp.Moves.{
  Watched, Moves, send_to_network-Moves, next-Moves, expire-Moves, close-Moves,
}
use harmony_os_reverse_tethe.Tcp.Quiet.{
  Step, packet, pulls, expires, closes, Quiet, nothing, further, Readable, Quiet-Readable,
  Returns-ok,
}
use harmony_os_reverse_tethe.Tcp.Ready.{MayRead, on_ready-Moves}

-- At a `poll` the socket is readable only where the connection asks for it, as mio promises.
abbrev pub Asked : Flow → Socket → Type 0
Asked f socket = socket.readiness.readable ≡ true → f.interests.readable ≡ true

-- What the relay does with a connection, one handler after the other: a packet from the device, a deferred packet that is
-- pulled, the expiry, the closing with its client (`Step`), or an event of its socket, handled by `on_ready`. The
-- handlers of the other events of the same `poll` may come before, and do any of the first four to the connection.
pub data Run (f : Flow) : Flow → Type 0 where
  start : Run f f
  goes : {g h : Flow} → Run f g → Step g h → Run f h
  event :
      {polled g h : Flow} (socket : Socket) (now : ℕ)
      → Run f polled
      → Asked polled socket
      → Quiet polled g
      → on_ready {E = IoError} g socket now ≡ ok h
      → Run f h

Moves-trans : {f g h : Flow} → Moves f g → Moves g h → Moves f h
Moves-trans m n = record { follows = Follows-trans m.follows n.follows; watched = n.watched }

Step-Moves : {f g : Flow} → Watched f → Step f g → Moves f g
Step-Moves {f} w (packet p now random e) =
    Returns-ok (Moves f) e (send_to_network-Moves IoError f p now random w)
Step-Moves {f} w (pulls e) = Returns-ok (Moves f) e (next-Moves IoError f)
Step-Moves {f} w (expires e) = subst (Moves f) e (expire-Moves f)
Step-Moves {f} w (closes e) = subst (Moves f) e (close-Moves f)

Quiet-Moves : {f g : Flow} → Watched f → Quiet f g → Moves f g
Quiet-Moves w nothing = record { follows = Follows-same refl refl; watched = w }
Quiet-Moves w (further quiet one) =
    let m = Quiet-Moves w quiet in Moves-trans m (Step-Moves m.watched one)

-- What the connection asked for at the `poll` may still be read when the event is handled.
Asked-MayRead :
    {polled g : Flow} (socket : Socket)
    → Watched polled
    → Asked polled socket
    → Quiet polled g
    → MayRead g socket
Asked-MayRead {polled} socket w asked quiet running readable =
    elim (Quiet-Readable quiet (at_poll polled.closed refl)) [
      | inl closed ↦ absurd (cc)
      | inr reads ↦ reads
    ]
  where
    at_poll : (b : Bool) → polled.closed ≡ b → Readable polled
    at_poll true closed = inl closed
    at_poll false open_then = inr (w open_then (asked readable))

Run-Moves : {f g : Flow} → Watched f → Run f g → Moves f g
Run-Moves w start = record { follows = Follows-same refl refl; watched = w }
Run-Moves w (goes run one) = let m = Run-Moves w run in Moves-trans m (Step-Moves m.watched one)
Run-Moves w (event {polled} {g} socket now run asked quiet e) =
    let m = Run-Moves w run in
    let q = Quiet-Moves m.watched quiet in
    Moves-trans m (
      Moves-trans q (
        Returns-ok (Moves g) e (
          on_ready-Moves IoError g socket now q.watched
            (Asked-MayRead socket m.watched asked quiet))))

-- A run of the handlers of a connection that, while it is open, asks for a readable socket only in the states
-- ESTABLISHED, CLOSE_WAIT and LAST_ACK, as a new connection does, which does not ask for it: the run makes
-- transitions of `Transition` only, keeps that the FIN of the relay has a sequence number exactly in the states
-- FIN_WAIT_1, FIN_WAIT_2, CLOSING and LAST_ACK, and leaves a connection that, while it is open, asks for a
-- readable socket in the same three states only.
pub run_transitions :
    {f g : Flow}
    → Watched f
    → Run f g
    → Steps f.tcb.state g.tcb.state × (FinSent f → FinSent g) × Watched g
run_transitions w run = let m = Run-Moves w run in (m.follows.steps, m.follows.keeps, m.watched)

Transition-close_wait : {s t : TcpState} → Transition s t → discriminant t ≢ 4
Transition-close_wait syn = λ e. absurd (omega arith)
Transition-close_wait connect = λ e. absurd (omega arith)
Transition-close_wait ack = λ e. absurd (omega arith)
Transition-close_wait late_fin = λ e. absurd (omega arith)
Transition-close_wait device_fin = λ e. absurd (omega arith)
Transition-close_wait network_fin = λ e. absurd (omega arith)
Transition-close_wait simultaneous_fin = λ e. absurd (omega arith)
Transition-close_wait fin_acked = λ e. absurd (omega arith)
Transition-close_wait second_fin = λ e. absurd (omega arith)

Steps-close_wait : {s t : TcpState} → Steps s t → discriminant s ≢ 4 → discriminant t ≢ 4
Steps-close_wait here n = n
Steps-close_wait (after steps step) n = Transition-close_wait step

-- A connection that starts with a new control block never comes to CLOSE_WAIT.
pub run_skips_close_wait :
    {f g : Flow} → f.tcb ≡ new_tcb → Watched f → Run f g → g.tcb.state ≢ close_wait
run_skips_close_wait e w run = λ c.
    Steps-close_wait (Run-Moves w run).follows.steps (rw e (λ z. absurd (omega arith))) (rw c refl)
