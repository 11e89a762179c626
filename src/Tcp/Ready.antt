-- ===== src/Tcp/Ready.antt =====
-- `process` and `on_ready` of relay/src/relay/tcp_connection.rs, whole, as steps of a connection.
use harmony_os_reverse_tethe.Prelude.{
  ℕ, ◌≡◌, Bool, true, false, not, if◌then◌else◌, Option, none, some, Outcome, ok, err, panic, ◌>>=◌,
  refl,
}
use harmony_os_reverse_tethe.Tcp.Flow.{Flow, close, touch, remove_from_router}
use harmony_os_reverse_tethe.Tcp.Event.{
  IoError, would_block, other, Handled, Socket, done, and_then, on_writable, on_readable, on_hangup,
  process, on_ready,
}
use harmony_os_reverse_tethe.Tcp.Transitions.{Follows, Follows-trans, Follows-same, Returns}
use harmony_os_reverse_tethe.Tcp.SocketSteps.{Leaves, Reads}
use harmony_os_reverse_tethe.Tcp.Moves.{Watched, Moves, closed-Moves}
use harmony_os_reverse_tethe.Tcp.EventSteps.{Left, settle, halves-Left, on_hangup-Moves}

-- A socket that is readable for an event may be read, as long as the connection is open.
abbrev pub MayRead : Flow → Socket → Type 0
MayRead f socket = f.closed ≡ false → socket.readiness.readable ≡ true → Reads f.tcb.state

Moves-touch : {f g : Flow} (now : ℕ) → Moves (touch f now) g → Moves f g
Moves-touch now m = record {
  follows = Follows-trans (Follows-same refl refl) m.follows;
  watched = m.watched;
}

Leaves-weaken :
    {E : Type 0} (P Q : Handled → Type 0) (m : Outcome E Handled)
    → ((r : Handled) → P r → Q r)
    → Leaves P m
    → Leaves Q m
Leaves-weaken P Q (ok r) h p = h r p
Leaves-weaken P Q (err e) h p = tt
Leaves-weaken P Q panic h p = tt

-- By whether the connection is closed, and whether the event is no error or hangup.
process_by :
    (E : Type 0) (f : Flow) (socket : Socket) (now : ℕ) (closed event : Bool)
    → Watched f
    → MayRead f socket
    → f.closed ≡ closed
    → Leaves {E = E} (Left f) (
        if closed
        then ok (done f)
        else (if event
            then and_then
                (on_writable (touch f now) socket)
                (λ g. and_then (on_readable g socket) settle)
            else ok (done (remove_from_router (on_hangup (touch f now))))))
process_by E f socket now true event watched reads closed = record {
  follows = Follows-same refl refl;
  watched = watched;
}
process_by E f socket now false true watched reads running =
    Leaves-weaken {E = E} (Left (touch f now)) (Left f) _ (λ r m. Moves-touch now m)
      (halves-Left E (touch f now) socket watched (reads running))
process_by E f socket now false false watched reads running =
    Moves-touch {f = f} now (on_hangup-Moves (touch f now))

process-Left :
    (E : Type 0) (f : Flow) (socket : Socket) (now : ℕ)
    → Watched f
    → MayRead f socket
    → Leaves (Left f) (process {E = E} f socket now)
unfolding process
process-Left E f socket now watched reads = process_by E f socket now _ _ watched reads refl

-- What `on_ready` makes of an error.
recovered : Handled → Flow
recovered r = elim r.error [
  | none ↦ r.flow
  | some e ↦ elim e [
    | would_block ↦ r.flow
    | other ↦ remove_from_router (if not r.flow.closed then close r.flow else r.flow)
  ]
]

recovered_other :
    (f g : Flow) (closed : Bool)
    → g.closed ≡ closed
    → Follows f g
    → Moves f (remove_from_router (if not closed then close g else g))
unfolding close
recovered_other f g true closed r =
    closed-Moves {g = remove_from_router g} (Follows-trans r (Follows-same refl refl)) closed
recovered_other f g false running r =
    closed-Moves {g = remove_from_router (close g)} (Follows-trans r (Follows-same refl refl)) refl

recovered-Moves :
    (f : Flow) (r : Handled) (e : Option IoError) → r.error ≡ e → Left f r → Moves f (recovered r)
unfolding recovered
recovered-Moves f r none e m = rw (recovered, e) m
recovered-Moves f r (some would_block) e m = rw (recovered, e) m
recovered-Moves f r (some other) e m = rw (recovered, e) (recovered_other f r.flow _ refl m.follows)

pub on_ready-Moves :
    (E : Type 0) (f : Flow) (socket : Socket) (now : ℕ)
    → Watched f
    → MayRead f socket
    → Returns (Moves f) (on_ready {E = E} f socket now)
unfolding on_ready recovered
on_ready-Moves E f socket now watched reads =
    ends (process {E = E} f socket now) (process-Left E f socket now watched reads)
  where
    ends :
        (m : Outcome E Handled)
        → Leaves (Left f) m
        → Returns (Moves f) (m >>= λ r. ok (recovered r))
    ends (ok r) m = recovered-Moves f r r.error refl m
    ends (err e) m = tt
    ends panic m = tt
