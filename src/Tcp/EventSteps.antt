-- ===== src/Tcp/EventSteps.antt =====
-- The two halves of an event of relay/src/relay/tcp_connection.rs, one behind the other, as `process` runs them.
use harmony_os_reverse_tethe.Prelude.{
  ◌≡◌, Bool, true, false, not, ◌&&◌, if◌then◌else◌, Option, none, some, arith, Outcome, ok, err,
  panic, ◌>>=◌, Bool-cases, inl, inr, refl,
}
use harmony_os_reverse_tethe.Tcp.State.{TcpState, syn_sent, is}
use harmony_os_reverse_tethe.Tcp.Flow.{
  Flow, close, reply_empty_packet_to_client, remove_from_router, update_interests,
}
use harmony_os_reverse_tethe.Tcp.Event.{
  IoError, Handled, Socket, done, and_then, process_connect, process_send, on_writable, on_readable,
  on_hangup,
}
use harmony_os_reverse_tethe.Tcp.Transitions.{Follows, Follows-trans, Follows-same, Returns, is-eq}
use harmony_os_reverse_tethe.Tcp.SocketSteps.{
  Reads, Leaves, Sends, Receives, process_connect-Follows, process_send-Sends,
  process_receive-Receives,
}
use harmony_os_reverse_tethe.Tcp.Moves.{Watched, Moves, closed-Moves, update_interests-Moves}

not_syn_sent : {s : TcpState} → s ≡ syn_sent → Reads s → ⊥
not_syn_sent e (inl f) = cc
not_syn_sent e (inr (inl f)) = cc
not_syn_sent e (inr (inr f)) = cc

Leaves-done :
    {E : Type 0} (P : Flow → Type 0) (Q : Handled → Type 0) (m : Outcome E Flow)
    → Returns P m
    → ((g : Flow) → P g → Q (done g))
    → Leaves {E = E} Q (m >>= λ g. ok (done g))
Leaves-done P Q (ok g) r h = h g r
Leaves-done P Q (err e) r h = tt
Leaves-done P Q panic r h = tt

-- The handlers of an event, one behind the other: the second sees no error of the first.
then_Leaves :
    {E : Type 0} (Q : Handled → Type 0) (r : Handled) (b : Option IoError)
    (k : Flow → Outcome E Handled)
    → r.error ≡ b
    → (r.error ≡ none → Leaves Q (k r.flow))
    → ((e : IoError) → r.error ≡ some e → Q r)
    → Leaves {E = E} Q (elim b [ none ↦ k r.flow | some e ↦ ok r ])
then_Leaves Q r none k e goes stops = goes e
then_Leaves Q r (some reason) k e goes stops = stops reason e

and_then-Leaves :
    {E : Type 0} (P Q : Handled → Type 0) (m : Outcome E Handled) (k : Flow → Outcome E Handled)
    → Leaves P m
    → ((r : Handled) → P r → r.error ≡ none → Leaves Q (k r.flow))
    → ((r : Handled) (e : IoError) → P r → r.error ≡ some e → Q r)
    → Leaves Q (and_then m k)
and_then-Leaves P Q (ok r) k p goes stops =
    then_Leaves Q r r.error k refl (goes r p) (λ e f. stops r e p f)
and_then-Leaves P Q (err e) k p goes stops = tt
and_then-Leaves P Q panic k p goes stops = tt

Sends-same : (f : Flow) → Sends f (done f)
Sends-same f = record {
  follows = Follows-same refl refl;
  reads = λ reads. reads;
  errors = inl refl;
}

-- The socket can be written: whether it is the connection that is established by that.
writable-Sends :
    (E : Type 0) (f : Flow) (socket : Socket) (connects : Bool)
    → is f.tcb.state syn_sent ≡ connects
    → Leaves (Sends f) (
        if connects
        then (process_connect {E = E} f socket.connect_failed >>= λ g. ok (done g))
        else process_send f socket.write)
writable-Sends E f socket true connects =
    Leaves-done {E = E} (Follows f) (Sends f) (process_connect f socket.connect_failed)
      (process_connect-Follows E f socket.connect_failed)
      (λ g r. record {
        follows = r;
        reads = λ reads. absurd (not_syn_sent (is-eq f.tcb.state syn_sent connects) reads);
        errors = inl refl;
      })
writable-Sends E f socket false connects = process_send-Sends E f socket.write

on_writable-Sends :
    (E : Type 0) (f : Flow) (socket : Socket) → Leaves (Sends f) (on_writable {E = E} f socket)
unfolding on_writable
on_writable-Sends E f socket = elim (Bool-cases socket.readiness.writable) [
  | inr calm ↦ rw (on_writable, calm) (Sends-same f)
  | inl writable ↦ rw (on_writable, writable) (writable-Sends E f socket _ refl)
]

on_readable-Receives :
    (E : Type 0) (f : Flow) (socket : Socket)
    → (socket.readiness.readable ≡ true → Reads f.tcb.state)
    → Leaves (Receives f) (on_readable {E = E} f socket)
unfolding on_readable
on_readable-Receives E f socket reads =
    elim (Bool-cases (not f.closed && socket.readiness.readable)) [
      | inl readable ↦
          rw (on_readable, readable)
            (process_receive-Receives E f socket.read (reads (ground (arith, readable))))
      | inr calm ↦
          rw (on_readable, calm) (record { follows = Follows-same refl refl; errors = inl refl })
    ]

-- What an event's handler leaves has moved.
abbrev pub Left : Flow → Handled → Type 0
Left f r = Moves f r.flow

-- Behind both halves: the connection leaves the router once it is closed, and else sets its interests.
abbrev pub settle : {E : Type 0} → Flow → Outcome E Handled
settle h =
    if h.closed then ok (done (remove_from_router h)) else (update_interests h >>= λ i. ok (done i))

settle-Left :
    (E : Type 0) (f h : Flow) (closed : Bool)
    → h.closed ≡ closed
    → Follows f h
    → Leaves {E = E} (Left f) (
        if closed
        then ok (done (remove_from_router h))
        else (update_interests h >>= λ i. ok (done i)))
settle-Left E f h true closed r =
    closed-Moves {g = remove_from_router h} (Follows-trans r (Follows-same refl refl)) closed
settle-Left E f h false running r =
    Leaves-done {E = E} (Moves f) (Left f) (update_interests h) (update_interests-Moves E f h r)
      (λ g m. m)

pub on_hangup-Moves : (f : Flow) → Moves f (remove_from_router (on_hangup f))
unfolding on_hangup close reply_empty_packet_to_client
on_hangup-Moves f =
    closed-Moves {g = remove_from_router (on_hangup f)} (Follows-same (ground arith) (ground arith))
      refl

-- Both halves of the event, where the socket is readable only where the connection may read it.
pub halves-Left :
    (E : Type 0) (f : Flow) (socket : Socket)
    → Watched f
    → (socket.readiness.readable ≡ true → Reads f.tcb.state)
    → Leaves {E = E}
        (Left f)
        (and_then (on_writable f socket) (λ g. and_then (on_readable g socket) settle))
halves-Left E f socket watched reads =
    and_then-Leaves (Sends f) (Left f) (on_writable {E = E} f socket) _
      (on_writable-Sends E f socket)
      (λ r p calm.
        and_then-Leaves (Receives r.flow) (Left f) (on_readable {E = E} r.flow socket) settle
          (on_readable-Receives E r.flow socket (λ readable. p.reads (reads readable)))
          (λ q m fine. settle-Left E f q.flow _ refl (Follows-trans p.follows m.follows))
          (λ q e m failed. record {
            follows = Follows-trans p.follows m.follows;
            watched = λ running asked. elim m.errors [ inl fine ↦ absurd (cc) | inr still ↦ still ];
          }))
      (λ r e p failed. elim p.errors [
        | inl fine ↦ absurd (cc)
        | inr same ↦ record { follows = p.follows; watched = rw same watched }
      ])
