-- ===== src/Tcp/Sequence.antt =====
-- The bytes that a connection of relay/src/relay/tcp_connection.rs takes from the device, and the
-- sequence number that it expects next.
use harmony_os_reverse_tethe.Prelude.{
  ℕ, ◌+◌, ◌∙◌, ◌≤◌, ◌≡◌, Bool, false, not, ◌&&◌, List, [], ◌∷◌, ◌++◌, length, some, arith, Outcome,
  ok, ◌>>=◌, if◌then◌else◌, ltb, ◌==◌, Bool-cases, inl, inr, slice, subslice-eq-ok, refl, ap,
}
use harmony_os_reverse_tethe.StreamBuffer
use harmony_os_reverse_tethe.StreamBuffer.Inv.{IsValid}
use harmony_os_reverse_tethe.StreamBuffer.Refine.{contents, read_from_refines}
use harmony_os_reverse_tethe.TcpHeader.{TcpHeaderData, is_syn, is_rst, is_ack, is_fin}
use harmony_os_reverse_tethe.TransportHeader.{tcp}
use harmony_os_reverse_tethe.Ipv4Packet
use harmony_os_reverse_tethe.Ipv4Packet.{Ipv4Packet}
use harmony_os_reverse_tethe.Tcp.State.{init, established, syn_received, is}
use harmony_os_reverse_tethe.Tcp.Flow.{Flow, close, reply_empty_packet_to_client}
use harmony_os_reverse_tethe.Tcp.Packet.{
  set_state, tcp_header_of_packet, payload_of_packet, store_payload, handle_ack, handle_fin_ack,
  handle_fin, answer_fin, do_handle_fin, handle_first_packet, handle_duplicate_syn, check_fin_ack,
  expected_packet, handle_expected, handle_packet,
}

-- A packet with this TCP header and this payload.
pub record IsTcp (p : Ipv4Packet) (h : TcpHeaderData) (payload : List ℕ) : Type 0 where
  pub header : p.transport_header_data ≡ some (tcp h)
  pub bytes :
      slice (p.ipv4_header_data.header_length + h.header_length) (length p.raw) p.raw ≡ payload
  pub headers_in : p.ipv4_header_data.header_length + h.header_length ≤ length p.raw

pub tcp_header_of_packet-IsTcp :
    {E : Type 0} (p : Ipv4Packet) {h : TcpHeaderData} {payload : List ℕ}
    → IsTcp p h payload
    → tcp_header_of_packet {E = E} p ≡ ok h
unfolding tcp_header_of_packet
tcp_header_of_packet-IsTcp p t = rw t.header

pub payload_of_packet-IsTcp :
    {E : Type 0} (p : Ipv4Packet) {h : TcpHeaderData} {payload : List ℕ}
    → IsTcp p h payload
    → payload_of_packet {E = E} p ≡ ok payload
unfolding payload_of_packet Ipv4Packet.payload
payload_of_packet-IsTcp {E} p {h} t = rw (
  t.header,
  subslice-eq-ok {E = E} p.raw (p.ipv4_header_data.header_length + h.header_length) (length p.raw)
      t.headers_in (omega arith),
  t.bytes,
)

abbrev with_buffer : Flow → StreamBuffer.StreamBuffer → Flow
with_buffer f b = record f { client_to_network = b }

-- What the connection holds once a payload comes: it is dropped where it does not fit.
abbrev after : Flow → List ℕ → List ℕ
after f payload =
    if ltb (StreamBuffer.remaining f.client_to_network) (length payload)
    then contents f.client_to_network
    else contents f.client_to_network ++ payload

append_empty : (xs ys : List ℕ) → length ys ≡ 0 → xs ++ ys ≡ xs
append_empty [] [] z = refl
append_empty (x ∷ xs) [] z = ap (λ l. x ∷ l) (append_empty xs [] z)
append_empty xs (y ∷ ys) z = absurd (omega arith)

pub store_payload_lem :
    {E : Type 0} (f : Flow) (payload : List ℕ)
    → IsValid f.client_to_network
    → (b : StreamBuffer.StreamBuffer) × (store_payload {E = E} f payload ≡ ok (with_buffer f b))
      × IsValid b
      × (contents b ≡ after f payload)
unfolding store_payload
store_payload_lem {E} f payload v = elim (Bool-cases (length payload == 0)) [
  | inl z ↦ (
    f.client_to_network,
    rw z refl,
    v,
    ground (arith, append_empty (contents f.client_to_network) payload),
  )
  | inr n ↦ elim (Bool-cases (ltb (StreamBuffer.remaining f.client_to_network) (length payload))) [
    | inl full ↦ (f.client_to_network, rw (n, full) refl, v, rw full refl)
    | inr fits ↦
        let r = read_from_refines {E = E} f.client_to_network payload v (ground arith) in
        (r.0, rw (n, fits, r.1) refl, r.2, rw fits r.4)
  ]
]

-- The handlers that leave the stored bytes as they are.
check_fin_ack-buffer :
    (f : Flow) (h : TcpHeaderData) → (check_fin_ack f h).client_to_network ≡ f.client_to_network
unfolding check_fin_ack handle_fin_ack close
check_fin_ack-buffer f h = ground arith

handle_fin-buffer : (f : Flow) → (handle_fin f).client_to_network ≡ f.client_to_network
unfolding handle_fin do_handle_fin answer_fin reply_empty_packet_to_client close
handle_fin-buffer f = ground arith

handle_first_packet-buffer :
    (f : Flow) (h : TcpHeaderData) (random : ℕ)
    → (handle_first_packet f h random).client_to_network ≡ f.client_to_network
unfolding handle_first_packet reply_empty_packet_to_client close
handle_first_packet-buffer f h random = ground arith

handle_duplicate_syn-buffer :
    (f : Flow) (h : TcpHeaderData)
    → (handle_duplicate_syn f h).client_to_network ≡ f.client_to_network
unfolding handle_duplicate_syn reply_empty_packet_to_client close
handle_duplicate_syn-buffer f h = ground arith

-- Whether the payload of a packet is looked at: the connection is past its handshake, the packet has the
-- sequence number that is expected and an ACK, and neither a SYN nor a RST.
abbrev pub accepts : Flow → TcpHeaderData → Bool
accepts f h =
    not (is f.tcb.state init)
    && (not (is f.tcb.state syn_received)
        && (not (is_syn h)
            && (h.sequence_number == expected_packet f && (not (is_rst h) && is_ack h))))

-- The result is a connection with a valid buffer that holds `bytes`.
abbrev pub Leaves : {E : Type 0} → Outcome E Flow → List ℕ → Type 0
Leaves o bytes =
    (g : Flow) × (o ≡ ok g) × IsValid g.client_to_network × (contents g.client_to_network ≡ bytes)

-- What follows the payload: the FIN and its acknowledgement.
abbrev finish : TcpHeaderData → Flow → Flow
finish h f = check_fin_ack (if is_fin h then handle_fin f else f) h

finish-buffer :
    (h : TcpHeaderData) (f : Flow) → (finish h f).client_to_network ≡ f.client_to_network
finish-buffer h f =
    ground
      (arith, check_fin_ack-buffer (if is_fin h then handle_fin f else f) h, handle_fin-buffer f)

Leaves-eq :
    {E : Type 0} {o q : Outcome E Flow} {bytes : List ℕ} → o ≡ q → Leaves q bytes → Leaves o bytes
Leaves-eq e l = rw e l

Leaves-bytes :
    {E : Type 0} {o : Outcome E Flow} {xs ys : List ℕ} → xs ≡ ys → Leaves o xs → Leaves o ys
Leaves-bytes e l = (l.0, l.1, l.2, l.3 ∙ e)

Leaves-map :
    {E : Type 0} (o : Outcome E Flow) (k : Flow → Flow) {bytes : List ℕ}
    → ((g : Flow) → (k g).client_to_network ≡ g.client_to_network)
    → Leaves o bytes
    → Leaves (o >>= λ g. ok (k g)) bytes
Leaves-map o k keeps q = (k q.0, rw q.1 refl, rw (keeps q.0) q.2, rw (keeps q.0) q.3)

module _ {E : Type 0} (f : Flow) (p : Ipv4Packet) {h : TcpHeaderData} {payload : List ℕ}
    (t : IsTcp p h payload) (v : IsValid f.client_to_network) where
  handle_ack-Leaves :
      Leaves
        (handle_ack {E = E} f p)
        (if is f.tcb.state syn_received then contents f.client_to_network else after f payload)
  unfolding handle_ack
  handle_ack-Leaves = elim (Bool-cases (is f.tcb.state syn_received)) [
    | inl holds ↦ (set_state f established, rw holds refl, v, rw holds refl)
    | inr fails ↦
        let r = store_payload_lem {E = E} f payload v in
        (with_buffer f r.0, rw (fails, payload_of_packet-IsTcp {E = E} p t) r.1, r.2, rw fails r.3)
  ]

-- The connection once the window and the acknowledgement of the packet are noted.
abbrev noted : Flow → TcpHeaderData → Flow
noted f h = record f {
  tcb = record f.tcb {
    client_window = h.window;
    their_acknowledgement_number = h.acknowledgement_number;
  };
}

-- Whether a packet that is expected has a payload to store.
abbrev stores : Flow → TcpHeaderData → Bool
stores f h = not (is f.tcb.state syn_received) && (not (is_rst h) && is_ack h)

module _ {E : Type 0} (f : Flow) (p : Ipv4Packet) {h : TcpHeaderData} {payload : List ℕ}
    (t : IsTcp p h payload) (v : IsValid f.client_to_network) where
  acked-Leaves :
      is_rst h ≡ false
      → Leaves
          (if is_ack h then handle_ack {E = E} (noted f h) p else ok (noted f h))
          (if stores f h then after f payload else contents f.client_to_network)
  acked-Leaves r = elim (Bool-cases (is_ack h)) [
    | inl holds ↦
        let q = handle_ack-Leaves {E = E} (noted f h) p t v in
        (q.0, rw holds q.1, q.2, q.3 ∙ ground arith)
    | inr fails ↦ (noted f h, rw fails refl, v, ground arith)
  ]

  handle_expected-Leaves :
      Leaves
        (handle_expected {E = E} f h p)
        (if stores f h then after f payload else contents f.client_to_network)
  unfolding handle_expected close
  handle_expected-Leaves = elim (Bool-cases (is_rst h)) [
    | inl holds ↦ (close (noted f h), rw holds refl, v, ground arith)
    | inr fails ↦
        Leaves-eq (rw fails refl) (Leaves-map _ (finish h) (finish-buffer h) (acked-Leaves fails))
  ]

  ignored :
      (g : Flow)
      → g.client_to_network ≡ f.client_to_network
      → accepts f h ≡ false
      → Leaves {E = E}
          (ok g)
          (if accepts f h then after f payload else contents f.client_to_network)
  ignored g same no_payload = (g, refl, rw same v, rw (same, no_payload) refl)

  -- A packet of the device is handled without a panic. The bytes held for the network afterwards are those
  -- held before, with the payload behind them where the packet `accepts` and the payload fits: a packet
  -- that is not the expected one changes nothing of them, and no payload is stored in part.
  pub handle_packet_stores :
      (random : ℕ)
      → Leaves
          (handle_packet {E = E} f p random)
          (if accepts f h then after f payload else contents f.client_to_network)
  unfolding handle_packet
  handle_packet_stores random =
      let is_tcp = tcp_header_of_packet-IsTcp {E = E} p t in
      elim (Bool-cases (is f.tcb.state init)) [
        | inl first ↦ Leaves-eq (rw (is_tcp, first) refl) (
            ignored (handle_first_packet f h random) (handle_first_packet-buffer f h random)
              (ground arith))
        | inr later ↦ elim (Bool-cases (is_syn h)) [
          | inl syn ↦
              Leaves-eq (rw (is_tcp, later, syn) refl) (
                ignored (handle_duplicate_syn f h) (handle_duplicate_syn-buffer f h) (ground arith))
          | inr plain ↦ elim (Bool-cases (h.sequence_number == expected_packet f)) [
            | inl in_order ↦
                Leaves-eq (rw (is_tcp, later, plain, in_order) refl)
                  (Leaves-bytes (rw (later, plain, in_order) refl) handle_expected-Leaves)
            | inr stray ↦
                Leaves-eq (rw (is_tcp, later, plain, stray) refl) (ignored f refl (ground arith))
          ]
        ]
      ]
