-- ===== src/Tcp/Window.antt =====
-- What relay/src/relay/tcp_connection.rs sends to the device of the bytes that it reads from the network.
use harmony_os_reverse_tethe.Prelude.{
  ℕ, ◌+◌, ◌-◌, ◌%◌, ◌^◌, ◌≤◌, ◌<◌, ◌≡◌, ◌⊎◌, false, List, [], ◌∷◌, ◌++◌, length, take, none, some,
  arith, ok, ◌>>=◌, leb, Bool-cases, inl, inr, refl, ◌∙◌, take_all,
}
use harmony_os_reverse_tethe.TcpHeader.{flag_ack, flag_psh}
use harmony_os_reverse_tethe.Tcp.State.{Tcb, add32, remaining_client_window}
use harmony_os_reverse_tethe.Tcp.Flow.{
  Flow, Segment, inflate, build, update_headers, interests_of, update_interests-eq-ok,
}
use harmony_os_reverse_tethe.Tcp.Event.{
  IoError, Reader, done, max_read, deliver, process_receive, get, next,
}

-- The numbers of a control block are in the ranges of their types.
pub record InRange (tcb : Tcb) : Type 0 where
  pub sequence_in : tcb.sequence_number < 2 ^ 32
  pub acked_in : tcb.their_acknowledgement_number < 2 ^ 32
  pub window_in : tcb.client_window < 2 ^ 16

-- `Read::read` fills at most the buffer that it is given.
abbrev pub IsReader : Reader → Type 0
IsReader socket = (n : ℕ) (bytes : List ℕ) → socket n ≡ ok bytes → length bytes ≤ n

-- With a control block in the ranges of its types, sending as many bytes as the window lets through or
-- fewer closes it by exactly that number, also where the sequence number wraps.
pub remaining_client_window-advance :
    (tcb : Tcb) (n : ℕ)
    → InRange tcb
    → n ≤ remaining_client_window tcb
    → remaining_client_window (record tcb { sequence_number = add32 tcb.sequence_number n })
      ≡ remaining_client_window tcb - n
unfolding remaining_client_window
remaining_client_window-advance tcb n r h = ground arith

-- The packet with these bytes, which the window of the connection lets through.
pub data_segment : Flow → List ℕ → Segment
data_segment f bytes = record {
  sequence_number = f.tcb.sequence_number;
  acknowledgement_number = f.tcb.acknowledgement_number;
  flags = flag_ack + flag_psh;
  total_length = f.network_to_client.payload_index + length bytes;
  raw_length = f.network_to_client.payload_index + length bytes;
  payload = bytes;
}

-- The packet went to the client's buffer.
pub record IsSent (f : Flow) (bytes : List ℕ) (g : Flow) : Type 0 where
  pub fits : f.network_to_client.payload_index + length bytes ≤ f.client.remaining
  pub sent : g.client.sent ≡ f.client.sent ++ data_segment f bytes ∷ []
  pub window_closes : remaining_client_window g.tcb ≡ remaining_client_window f.tcb - length bytes
  pub none_waits : get g ≡ none

-- The packet waits for the client, which knows of it.
pub record IsDeferred (f : Flow) (bytes : List ℕ) (g : Flow) : Type 0 where
  pub full : f.client.remaining < f.network_to_client.payload_index + length bytes
  pub nothing_sent : g.client.sent ≡ f.client.sent
  pub registers : g.client.pending_sources ≡ f.client.pending_sources + 1
  pub waits : get g ≡ some (data_segment f bytes)
  pub tcb_stays : g.tcb ≡ f.tcb

next-advances :
    (f : Flow) (n : ℕ)
    → f.packet_for_client_length ≡ some n
    → f.closed ≡ false
    → (g : Flow) × (next {E = IoError} f ≡ ok g)
      × (g.tcb.sequence_number ≡ add32 f.tcb.sequence_number n)
unfolding next
next-advances f n waits running =
    let pulled = record f {
      tcb = record f.tcb { sequence_number = add32 f.tcb.sequence_number n };
      packet_for_client_length = none;
    } in
    (
      record pulled { interests = interests_of pulled },
      rw waits (update_interests-eq-ok pulled running),
      refl,
    )

module _ (f : Flow) (socket : Reader) (bytes : List ℕ) (r : InRange f.tcb)
    (header_in : f.network_to_client.payload_index ≤ 80) (idle : f.packet_for_client_length ≡ none)
    (reader : IsReader socket) (reads : socket (max_read f) ≡ ok bytes)
    (some_bytes : 0 < length bytes) where
  read-in-window : length bytes ≤ remaining_client_window f.tcb
  read-in-window = ground (arith, reader (max_read f) bytes reads)

  read-in-u16 : length bytes < 2 ^ 15
  read-in-u16 = ground (arith, reader (max_read f) bytes reads)

  take_payload :
      take
        (f.network_to_client.payload_index + length bytes - f.network_to_client.payload_index)
        bytes
      ≡ bytes
  take_payload = take_all _ bytes (omega arith)

  -- The connection once the packet is built.
  abbrev loaded : Flow
  loaded = record f {
    network_to_client = record (update_headers f.network_to_client f.tcb (flag_ack + flag_psh)) {
      payload = bytes;
    };
  }

  packet_length :
      (f.network_to_client.payload_index + length bytes) % 2 ^ 16
      ≡ f.network_to_client.payload_index + length bytes
  packet_length = ground (arith, read-in-u16)

  packet-data_segment :
      inflate
        (build loaded.network_to_client (length bytes))
        ((f.network_to_client.payload_index + length bytes) % 2 ^ 16)
      ≡ data_segment f bytes
  unfolding data_segment
  packet-data_segment = rw (packet_length, take_payload) refl

  process_receive-deliver :
      0 < remaining_client_window f.tcb
      → process_receive {E = IoError} f socket ≡ ok (done (deliver loaded (length bytes)))
  unfolding process_receive
  process_receive-deliver w = rw (idle, reads) (ground arith)

  delivers :
      IsSent f bytes (deliver loaded (length bytes))
      ⊎ IsDeferred f bytes (deliver loaded (length bytes))
  unfolding get data_segment deliver
  delivers =
      elim (Bool-cases
        (leb (f.network_to_client.payload_index + length bytes) f.client.remaining)) [
          | inl fits ↦ inl (record {
            fits = ground arith;
            sent = rw (packet_length, fits, take_payload) refl;
            window_closes =
                rw (packet_length, fits)
                  (remaining_client_window-advance f.tcb (length bytes) r read-in-window);
            none_waits = rw (packet_length, fits, idle) refl;
          })
          | inr full ↦ inr (record {
            full = ground arith;
            nothing_sent = rw (packet_length, full) refl;
            registers = rw (packet_length, full) refl;
            waits = rw (packet_length, full, take_payload) refl;
            tcb_stays = rw (packet_length, full) refl;
          })
        ]

  -- Take a control block in range, headers of at most 80 bytes, no packet that waits, and a socket that reads at most
  -- what it is asked for and has some bytes. Where the window is open `process_receive` succeeds. It
  -- reads no more than the window lets through, and makes one packet of what it reads, with the
  -- sequence number and the acknowledgement of the connection. Where the packet fits the client's
  -- buffer it is sent and the window closes by its payload; where it does not it waits, and the
  -- client is told.
  pub process_receive_delivers :
      0 < remaining_client_window f.tcb
      → (g : Flow) × (process_receive {E = IoError} f socket ≡ ok (done g))
        × (length bytes ≤ remaining_client_window f.tcb)
        × (IsSent f bytes g ⊎ IsDeferred f bytes g)
  process_receive_delivers w =
      (deliver loaded (length bytes), process_receive-deliver w, read-in-window, delivers)

  -- Take a control block in range, headers of at most 80 bytes, no packet that waits, a socket that reads at most
  -- what it is asked for and has some bytes, an open window, a connection that is not closed, and a
  -- client's buffer that the packet does not fit. Once the client pulls the packet, the sequence
  -- number has moved by the length of the whole packet, headers included.
  pub next_overshoots :
      0 < remaining_client_window f.tcb
      → f.client.remaining < f.network_to_client.payload_index + length bytes
      → f.closed ≡ false
      → (g : Flow) × ((process_receive f socket >>= λ h. next {E = IoError} h.flow) ≡ ok g)
        × (g.tcb.sequence_number
            ≡ add32 f.tcb.sequence_number (f.network_to_client.payload_index + length bytes))
  unfolding deliver
  next_overshoots w full running =
      let built = deliver loaded (length bytes) in
      let r =
        next-advances built (f.network_to_client.payload_index + length bytes)
          (rw packet_length (ground arith)) (rw packet_length (ground arith)) in
      (r.0, rw (process_receive-deliver w) r.1, r.2 ∙ rw packet_length (ground arith))
