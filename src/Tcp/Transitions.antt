-- ===== src/Tcp/Transitions.antt =====
-- The states that a connection of relay/src/relay/tcp_connection.rs goes through, as a step relation.
use harmony_os_reverse_tethe.Prelude.{
  ℕ, ◌≡◌, ◌⊎◌, Bool, true, false, List, length, ltb, ◌==◌, if◌then◌else◌, Option, none, some, arith,
  Outcome, ok, err, panic, ◌>>=◌, Bool-cases, inl, inr, refl, sym, ap, ◌∙◌,
}
use harmony_os_reverse_tethe.StreamBuffer
use harmony_os_reverse_tethe.TcpHeader.{TcpHeaderData, is_syn}
use harmony_os_reverse_tethe.Ipv4Packet.{Ipv4Packet}
use harmony_os_reverse_tethe.Tcp.State.{
  TcpState, init, syn_sent, syn_received, established, close_wait, last_ack, closing, fin_wait1,
  fin_wait2, is, is_closed, discriminant, add32,
}
use harmony_os_reverse_tethe.Tcp.Flow.{Flow, close, reply_empty_packet_to_client}
use harmony_os_reverse_tethe.Tcp.Packet.{
  payload_of_packet, store_payload, handle_ack, handle_fin_ack, handle_fin, answer_fin,
  do_handle_fin, handle_first_packet, handle_duplicate_syn, check_fin_ack,
}

-- One transition, and what makes it.
pub data Transition : TcpState → TcpState → Type 0 where
  syn : Transition init syn_sent
  connect : Transition syn_sent syn_received
  ack : Transition syn_received established
  late_fin : Transition close_wait last_ack
  device_fin : Transition established last_ack
  network_fin : Transition established fin_wait1
  simultaneous_fin : Transition fin_wait1 closing
  fin_acked : Transition fin_wait1 fin_wait2
  -- the socket's stream ends in the event that made `device_fin`, or before the interests are set again
  second_fin : Transition last_ack fin_wait1

-- Any number of transitions.
pub data Steps (s : TcpState) : TcpState → Type 0 where
  here : Steps s s
  after : {t u : TcpState} → Steps s t → Transition t u → Steps s u

pub Steps-trans : {s t u : TcpState} → Steps s t → Steps t u → Steps s u
Steps-trans p here = p
Steps-trans p (after q step) = after (Steps-trans p q) step

abbrev pub is_some : Option ℕ → Bool
is_some none = false
is_some (some n) = true

-- The relay's FIN has a sequence number exactly in the states after it is sent.
abbrev pub FinSent : Flow → Type 0
FinSent f = is_closed f.tcb.state ≡ is_some f.tcb.fin_sequence_number

-- From `f` to `g`.
pub record Follows (f g : Flow) : Type 0 where
  pub steps : Steps f.tcb.state g.tcb.state
  pub keeps : FinSent f → FinSent g

pub Follows-trans : {f g h : Flow} → Follows f g → Follows g h → Follows f h
Follows-trans p q = record { steps = Steps-trans p.steps q.steps; keeps = λ v. q.keeps (p.keeps v) }

pub answer_fin-Follows : (f : Flow) (s : TcpState) → f.tcb.state ≡ s → Follows f (answer_fin f)
unfolding answer_fin reply_empty_packet_to_client close
answer_fin-Follows f established e = record {
  steps = rw e (after here device_fin);
  keeps = rw e (λ v. refl);
}
answer_fin-Follows f fin_wait1 e = record {
  steps = rw e (after here simultaneous_fin);
  keeps = rw e (λ v. v);
}
answer_fin-Follows f fin_wait2 e = record { steps = rw e here; keeps = rw e (λ v. v) }
answer_fin-Follows f init e = record { steps = rw e here; keeps = rw e (λ v. v) }
answer_fin-Follows f syn_sent e = record { steps = rw e here; keeps = rw e (λ v. v) }
answer_fin-Follows f syn_received e = record { steps = rw e here; keeps = rw e (λ v. v) }
answer_fin-Follows f close_wait e = record { steps = rw e here; keeps = rw e (λ v. v) }
answer_fin-Follows f last_ack e = record { steps = rw e here; keeps = rw e (λ v. v) }
answer_fin-Follows f closing e = record { steps = rw e here; keeps = rw e (λ v. v) }

handle_fin_ack-Follows : (f : Flow) (s : TcpState) → f.tcb.state ≡ s → Follows f (handle_fin_ack f)
unfolding handle_fin_ack close
handle_fin_ack-Follows f fin_wait1 e = record {
  steps = rw e (after here fin_acked);
  keeps = rw e (λ v. v);
}
handle_fin_ack-Follows f established e = record { steps = rw e here; keeps = rw e (λ v. v) }
handle_fin_ack-Follows f fin_wait2 e = record { steps = rw e here; keeps = rw e (λ v. v) }
handle_fin_ack-Follows f init e = record { steps = rw e here; keeps = rw e (λ v. v) }
handle_fin_ack-Follows f syn_sent e = record { steps = rw e here; keeps = rw e (λ v. v) }
handle_fin_ack-Follows f syn_received e = record { steps = rw e here; keeps = rw e (λ v. v) }
handle_fin_ack-Follows f close_wait e = record { steps = rw e here; keeps = rw e (λ v. v) }
handle_fin_ack-Follows f last_ack e = record { steps = rw e here; keeps = rw e (λ v. v) }
handle_fin_ack-Follows f closing e = record { steps = rw e here; keeps = rw e (λ v. v) }

abbrev state_of : ℕ → TcpState
state_of n =
    if n == 0
    then init
    else (if n == 1
        then syn_sent
        else (if n == 2
            then syn_received
            else (if n == 3
                then established
                else (if n == 4
                    then close_wait
                    else (if n == 5
                        then last_ack
                        else (if n == 6
                            then closing
                            else (if n == 7 then fin_wait1 else fin_wait2)))))))

state_of-discriminant : (s : TcpState) → state_of (discriminant s) ≡ s
state_of-discriminant init = refl
state_of-discriminant syn_sent = refl
state_of-discriminant syn_received = refl
state_of-discriminant established = refl
state_of-discriminant close_wait = refl
state_of-discriminant last_ack = refl
state_of-discriminant closing = refl
state_of-discriminant fin_wait1 = refl
state_of-discriminant fin_wait2 = refl

pub is-eq : (s t : TcpState) → is s t ≡ true → s ≡ t
is-eq s t e =
    sym (state_of-discriminant s)
    ∙ ap state_of {x = discriminant s} {y = discriminant t} (ground arith)
    ∙ state_of-discriminant t

-- What holds of the connection that a handler returns.
abbrev pub Returns : {E : Type 0} → (Flow → Type 0) → Outcome E Flow → Type 0
Returns P (ok g) = P g
Returns P (err e) = Unit {0}
Returns P panic = Unit {0}

pub handle_fin-Follows : (f : Flow) → Follows f (handle_fin f)
unfolding handle_fin do_handle_fin
handle_fin-Follows f = elim (Bool-cases (StreamBuffer.is_empty f.client_to_network)) [
  | inl holds ↦
      let g = record f {
        tcb = record f.tcb {
          fin_received = true;
          acknowledgement_number = add32 f.tcb.acknowledgement_number 1;
        };
      } in
      let r = answer_fin-Follows g g.tcb.state refl in
      rw holds (record { steps = r.steps; keeps = r.keeps })
  | inr fails ↦ rw fails (record { steps = here; keeps = λ v. v })
]

-- A handler that leaves the state and the FIN as they are.
pub Follows-same :
    {f g : Flow}
    → g.tcb.state ≡ f.tcb.state
    → g.tcb.fin_sequence_number ≡ f.tcb.fin_sequence_number
    → Follows f g
Follows-same p q = record { steps = rw p here; keeps = λ v. rw (p, q) v }

pub check_fin_ack-cases :
    (f : Flow) (h : TcpHeaderData)
    → (check_fin_ack f h ≡ f) ⊎ (check_fin_ack f h ≡ handle_fin_ack f)
unfolding check_fin_ack
check_fin_ack-cases f h = ground arith

pub check_fin_ack-Follows : (f : Flow) (h : TcpHeaderData) → Follows f (check_fin_ack f h)
check_fin_ack-Follows f h = elim (check_fin_ack-cases f h) [
  | inl same ↦ rw same (Follows-same refl refl)
  | inr acked ↦ rw acked (handle_fin_ack-Follows f f.tcb.state refl)
]

pub Returns-of :
    {E : Type 0} {A : Type 0} (P : Flow → Type 0) (m : Outcome E A) (k : A → Outcome E Flow)
    → ((a : A) → Returns P (k a))
    → Returns P (m >>= k)
Returns-of P (ok a) k h = h a
Returns-of P (err e) k h = tt
Returns-of P panic k h = tt

pub Returns-then :
    {E : Type 0} (P Q : Flow → Type 0) (m : Outcome E Flow) (k : Flow → Outcome E Flow)
    → Returns P m
    → ((g : Flow) → P g → Returns Q (k g))
    → Returns Q (m >>= k)
Returns-then P Q (ok g) k r h = h g r
Returns-then P Q (err e) k r h = tt
Returns-then P Q panic k r h = tt

module _ (E : Type 0) (f : Flow) where
  store_payload-Follows : (payload : List ℕ) → Returns (Follows f) (store_payload {E = E} f payload)
  unfolding store_payload
  store_payload-Follows payload = elim (Bool-cases (length payload == 0)) [
    | inl holds ↦ rw holds (Follows-same refl refl)
    | inr fails ↦
        elim (Bool-cases (ltb (StreamBuffer.remaining f.client_to_network) (length payload))) [
          | inl full ↦ rw (fails, full) (Follows-same refl refl)
          | inr room ↦
              rw (fails, room)
                (Returns-of (Follows f) (StreamBuffer.read_from f.client_to_network payload) _
                  (λ b. Follows-same refl refl))
        ]
  ]

  pub handle_ack-Follows : (p : Ipv4Packet) → Returns (Follows f) (handle_ack {E = E} f p)
  unfolding handle_ack
  handle_ack-Follows p = elim (Bool-cases (is f.tcb.state syn_received)) [
    | inl holds ↦
        let e = is-eq f.tcb.state syn_received holds in
        rw holds (record { steps = rw e (after here ack); keeps = rw e (λ v. v) })
    | inr fails ↦ rw fails (Returns-of (Follows f) (payload_of_packet p) _ store_payload-Follows)
  ]

pub handle_first_packet-Follows :
    (f : Flow) (h : TcpHeaderData) (random : ℕ)
    → is f.tcb.state init ≡ true
    → Follows f (handle_first_packet f h random)
unfolding handle_first_packet close reply_empty_packet_to_client
handle_first_packet-Follows f h random first = elim (Bool-cases (is_syn h)) [
  | inl holds ↦
      let e = is-eq f.tcb.state init first in
      rw holds (record { steps = rw e (after here syn); keeps = rw e (λ v. v) })
  | inr fails ↦ rw fails (record { steps = here; keeps = λ v. v })
]

pub handle_duplicate_syn-Follows :
    (f : Flow) (h : TcpHeaderData) → Follows f (handle_duplicate_syn f h)
unfolding handle_duplicate_syn close reply_empty_packet_to_client
handle_duplicate_syn-Follows f h = Follows-same (ground arith) (ground arith)
