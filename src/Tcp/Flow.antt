-- ===== src/Tcp/Flow.antt =====
-- The connection of relay/src/relay/tcp_connection.rs with what it reaches of its client, and the
-- helpers that its handlers call. The packetizer is seen through the header fields that a TCP
-- connection changes and its payload area. The end of a slice that a `u16` gives is written `% 2 ^ 16`.
use harmony_os_reverse_tethe.Prelude.{
  ℕ, ◌+◌, ◌-◌, ◌%◌, ◌^◌, ◌≡◌, refl, Bool, true, false, not, ◌||◌, List, [], ◌∷◌, ◌++◌, Option, none,
  some, take, ◌*◌, leb, ltb, if◌then◌else◌, Outcome, ok, ◌>>◌, assert,
}
use harmony_os_reverse_tethe.StreamBuffer
use harmony_os_reverse_tethe.StreamBuffer.{StreamBuffer}
use harmony_os_reverse_tethe.Tcp.State.{
  syn_sent, Tcb, is, is_connected, is_closed, remaining_client_window,
}

-- A packet that is sent to the device: `raw_length` bytes, whose IPv4 header says `total_length`.
pub record Segment : Type 0 where
  pub sequence_number : ℕ
  pub acknowledgement_number : ℕ
  pub flags : ℕ
  pub total_length : ℕ
  pub raw_length : ℕ
  pub payload : List ℕ

-- `payload_index` is the length of both headers, and `payload` what the payload area holds.
pub record Packetizer : Type 0 where
  pub payload_index : ℕ
  pub sequence_number : ℕ
  pub acknowledgement_number : ℕ
  pub flags : ℕ
  pub total_length : ℕ
  pub payload : List ℕ

-- What a connection reaches of its client: the room in the client's stream buffer, the packets
-- written there, and how many packet sources are registered as pending.
pub record ClientSide : Type 0 where
  pub remaining : ℕ
  pub sent : List Segment
  pub pending_sources : ℕ

pub record Ready : Type 0 where
  pub readable : Bool
  pub writable : Bool

pub record Flow : Type 0 where
  pub client_to_network : StreamBuffer
  pub network_to_client : Packetizer
  pub packet_for_client_length : Option ℕ
  pub closed : Bool
  pub tcb : Tcb
  pub interests : Ready
  pub idle_since : ℕ
  pub created_at : ℕ
  -- the client's side, the selector's registration and the router's entry
  pub client : ClientSide
  pub registered : Bool
  pub in_router : Bool

abbrev pub max_payload_length : ℕ
max_payload_length = 0x4000 - 20 - 20

abbrev pub idle_timeout_seconds : ℕ
idle_timeout_seconds = 10 * 60

abbrev pub connect_timeout_seconds : ℕ
connect_timeout_seconds = 10

-- `update_headers`
abbrev pub update_headers : Packetizer → Tcb → ℕ → Packetizer
update_headers p tcb flags = record p {
  sequence_number = tcb.sequence_number;
  acknowledgement_number = tcb.acknowledgement_number;
  flags = flags;
}

-- `Packetizer::build`, with the payload that stands in the buffer.
abbrev pub build : Packetizer → ℕ → Packetizer
build p payload_length = record p { total_length = (p.payload_index + payload_length) % 2 ^ 16 }

-- `Packetizer::inflate`: the first bytes of the buffer as they stand.
abbrev pub inflate : Packetizer → ℕ → Segment
inflate p packet_length = record {
  sequence_number = p.sequence_number;
  acknowledgement_number = p.acknowledgement_number;
  flags = p.flags;
  total_length = p.total_length;
  raw_length = packet_length;
  payload = take (packet_length - p.payload_index) p.payload;
}

-- `Client::send_to_client`: whether the packet fits the client's buffer.
abbrev pub send_to_client : ClientSide → Segment → ClientSide × Bool
send_to_client c s =
    if leb s.raw_length c.remaining
    then (record c { remaining = c.remaining - s.raw_length; sent = c.sent ++ s ∷ [] }, true)
    else (c, false)

abbrev pub packetize_empty_payload : Packetizer → Packetizer
packetize_empty_payload p = build p 0

-- The packetizer, and the packet that it holds.
abbrev pub create_empty_response_packet : Packetizer → Tcb → ℕ → Packetizer × Segment
create_empty_response_packet packetizer tcb flags =
    let p = packetize_empty_payload (update_headers packetizer tcb flags) in
    (p, inflate p p.total_length)

-- Where the packet does not fit the client it is lost.
unfoldable pub reply_empty_packet_to_client : Flow → ℕ → Flow
reply_empty_packet_to_client f flags =
    let packet = create_empty_response_packet f.network_to_client f.tcb flags in
    record f { network_to_client = packet.0; client = (send_to_client f.client packet.1).0 }

-- The same, where the client is not borrowed yet.
abbrev pub send_empty_packet_to_client : Flow → ℕ → Flow
send_empty_packet_to_client f flags = reply_empty_packet_to_client f flags

unfoldable pub close : Flow → Flow
close f = record f { closed = true; registered = false }

abbrev pub remove_from_router : Flow → Flow
remove_from_router f = record f { in_router = false }

abbrev pub touch : Flow → ℕ → Flow
touch f now = record f { idle_since = now }

unfoldable pub may_read : Flow → Bool
may_read f =
    if not (is_connected f.tcb.state) || is_closed f.tcb.state
    then false
    else elim f.packet_for_client_length [
      | some n ↦ false
      | none ↦ ltb 0 (remaining_client_window f.tcb)
    ]

unfoldable pub may_write : Flow → Bool
may_write f = not (StreamBuffer.is_empty f.client_to_network)

-- The interests that `update_interests` sets.
unfoldable pub interests_of : Flow → Ready
unfolding may_read may_write
interests_of f =
    if is f.tcb.state syn_sent
    then record { readable = false; writable = true }
    else record { readable = may_read f; writable = may_write f }

unfoldable pub update_interests : {E : Type 0} → Flow → Outcome E Flow
unfolding interests_of
update_interests f = do assert (not f.closed); ok (record f { interests = interests_of f })

pub update_interests-eq-ok :
    {E : Type 0} (f : Flow)
    → f.closed ≡ false
    → update_interests {E = E} f ≡ ok (record f { interests = interests_of f })
unfolding update_interests
update_interests-eq-ok f running = rw running refl
