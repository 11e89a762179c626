-- ===== src/Packetizer/Transport.antt =====
-- The transport header in a packetizer's buffer: its bytes read as the data beside them, whatever the packetizer writes.
use harmony_os_reverse_tethe.Prelude.{
  ℕ, ◌*◌, ◌/◌, ◌%◌, ◌+◌, ◌-◌, ◌^◌, ◌≤◌, ◌<◌, ◌≡◌, refl, ap, ◌∙◌, inl, List, [], ◌∷◌, length, true,
  leb, All, byte, arith, ok, ◌>>=◌, write_at, copy_at, length-copy_at, take, take_all,
}
use harmony_os_reverse_tethe.Prelude.Layout.{All-copy_at}
use harmony_os_reverse_tethe.ByteOrder.{ByteOrder, u16_at}
use harmony_os_reverse_tethe.IpPacket.Framing.{IsByte}
use harmony_os_reverse_tethe.Checksum.{fold, word_sum}
use harmony_os_reverse_tethe.Checksum.Words.{byte-copy_at}
use harmony_os_reverse_tethe.Ipv4Header.{Ipv4HeaderData, Protocol}
use harmony_os_reverse_tethe.TcpHeader
use harmony_os_reverse_tethe.TcpHeader.{TcpHeaderData}
use harmony_os_reverse_tethe.TcpHeader.Checksum.{pseudo_sum, update_tcp_checksum-verifies}
use harmony_os_reverse_tethe.UdpHeader
use harmony_os_reverse_tethe.UdpHeader.{UdpHeaderData}
use harmony_os_reverse_tethe.UdpHeader.Edit as UdpEdit
use harmony_os_reverse_tethe.TransportHeader
use harmony_os_reverse_tethe.TransportHeader.{TransportHeaderData}
use harmony_os_reverse_tethe.TransportHeader.Edit.{
  TransportHeaderMut, bind, set_payload_length, update_checksum,
}

abbrev pub protocol_of : TransportHeaderData → Protocol
protocol_of (TransportHeaderData.tcp h) = Protocol.tcp
protocol_of (TransportHeaderData.udp h) = Protocol.udp

abbrev pub least : TransportHeaderData → ℕ
least (TransportHeaderData.tcp h) = 20
least (TransportHeaderData.udp h) = 8

-- What the bytes say, read as the protocol of the data.
abbrev pub data_of : TransportHeaderData → List ℕ → TransportHeaderData
data_of (TransportHeaderData.tcp h) raw = TransportHeaderData.tcp (TcpHeader.header_of raw)
data_of (TransportHeaderData.udp h) raw = TransportHeaderData.udp (UdpHeader.header_of raw)

pub record IsTransport (raw : List ℕ) (d : TransportHeaderData) : Type 0 where
  pub long : least d ≤ length raw
  pub sized : length raw ≡ TransportHeader.header_length d
  pub reads : data_of d raw ≡ d
  pub bytes : All IsByte raw

-- A UDP header says how long the datagram is.
abbrev pub Counts : TransportHeaderData → List ℕ → ℕ → Type 0
Counts (TransportHeaderData.tcp h) raw n = Unit {0}
Counts (TransportHeaderData.udp h) raw n = u16_at raw 4 ≡ 8 + n

-- A receiver's sum over a TCP segment is all ones; the checksum of a UDP datagram is disabled.
abbrev pub Verifies : Ipv4HeaderData → TransportHeaderData → List ℕ → List ℕ → Type 0
Verifies ip (TransportHeaderData.tcp h) raw payload =
    fold 2 (pseudo_sum ip (length raw + length payload) + word_sum raw + word_sum payload)
    ≡ 2 ^ 16 - 1
Verifies ip (TransportHeaderData.udp h) raw payload = u16_at raw 6 ≡ 0

pub tcp-inj :
    {a b : TcpHeaderData}
    → ◌≡◌ {A = TransportHeaderData} (TransportHeaderData.tcp a) (TransportHeaderData.tcp b)
    → a ≡ b
tcp-inj e = cc

pub tcp_header_of-same :
    (a b : List ℕ)
    → ((k : ℕ) → k < 16 → byte a k ≡ byte b k)
    → TcpHeader.header_of a ≡ TcpHeader.header_of b
tcp_header_of-same a b h =
    rw
      (
        h 0 (omega arith),
        h 1 (omega arith),
        h 2 (omega arith),
        h 3 (omega arith),
        h 4 (omega arith),
        h 5 (omega arith),
        h 6 (omega arith),
        h 7 (omega arith),
        h 8 (omega arith),
        h 9 (omega arith),
        h 10 (omega arith),
        h 11 (omega arith),
        h 12 (omega arith),
        h 13 (omega arith),
        h 14 (omega arith),
        h 15 (omega arith),
      )
      refl

-- A header is two words longer at a time, from twenty bytes to sixty.
pub tcp_words :
    {raw : List ℕ} {h : TcpHeaderData}
    → IsTransport raw (TransportHeaderData.tcp h)
    → (h.header_length ≡ 2 * (9 + (u16_at raw 12 / 2 ^ 12 % 2 ^ 4 * 2 - 9)))
      × (10 ≤ u16_at raw 12 / 2 ^ 12 % 2 ^ 4 * 2)
tcp_words {raw} {h} v =
    omega (arith, v.long, v.sized, ap (λ (h : TcpHeaderData). h.header_length) (tcp-inj v.reads))

module _ {E : Type 0} ⦃order : ByteOrder⦄ where
  pub set_payload_length-IsTransport :
      (d : TransportHeaderData) (raw : List ℕ) (n : ℕ)
      → IsTransport raw d
      → 8 + n < 2 ^ 16
      → (r : List ℕ) × (set_payload_length {E = E} (bind d raw) n ≡ ok (bind d r))
        × IsTransport r d
        × (length r ≡ length raw)
        × Counts d r n
  unfolding set_payload_length bind UdpEdit.set_payload_length write_at
  set_payload_length-IsTransport (TransportHeaderData.tcp h) raw n v small =
      (raw, refl, v, refl, tt)
  set_payload_length-IsTransport (TransportHeaderData.udp h) raw n v small =
      let total = (8 + n) % 2 ^ 16 in
      let word = total / 2 ^ 8 ∷ total % 2 ^ 8 ∷ [] in
      let written : leb (4 + 2) (length raw) ≡ true = ground (arith, v.long) in
      let after : (k : ℕ) → _ =
        λ k. byte-copy_at 4 (total / 2 ^ 8) (total % 2 ^ 8) k raw (omega (arith, v.long)) in
      let same : length (copy_at 4 word raw) ≡ length raw =
        length-copy_at 4 word raw (omega (arith, v.long)) in
      (
        copy_at 4 word raw,
        rw (UdpEdit.set_payload_length, order.write_u16_lem total (omega arith), written) refl,
        record {
          long = omega (arith, v.long, same);
          sized = same ∙ v.sized;
          reads = rw (after 0, after 1, after 2, after 3) v.reads;
          bytes = All-copy_at IsByte 4 word raw (omega arith) v.bytes;
        },
        same,
        rw (after 4, after 5) (omega arith),
      )

  pub update_checksum-IsTransport :
      (d : TransportHeaderData) (ip : Ipv4HeaderData) (raw payload : List ℕ) (n : ℕ)
      → IsTransport raw d
      → Counts d raw n
      → ip.total_length ≡ ip.header_length + length raw + length payload
      → ip.total_length < 2 ^ 16
      → ip.source < 2 ^ 32
      → ip.destination < 2 ^ 32
      → All IsByte payload
      → (r : List ℕ) × (update_checksum {E = E} (bind d raw) ip payload ≡ ok (bind d r))
        × IsTransport r d
        × (length r ≡ length raw)
        × Counts d r n
        × Verifies ip d r payload
  unfolding update_checksum bind UdpEdit.update_checksum UdpEdit.set_checksum write_at
  update_checksum-IsTransport (TransportHeaderData.tcp h) ip raw payload n v counted total t s e
        small =
      let (whole, enough) = tcp_words v in
      let (r, done, kept, apart, same, bytes, folds) =
        update_tcp_checksum-verifies {E = E} (record { raw = raw; header_data = h }) ip payload
          (u16_at raw 12 / 2 ^ 12 % 2 ^ 4 * 2 - 9) whole (omega (arith, enough)) (omega arith)
          (omega (arith, v.sized)) (omega (arith, v.sized)) t s e v.bytes small in
      let all : take h.header_length r.raw ≡ r.raw =
        take_all h.header_length r.raw (omega (arith, v.sized, same)) in
      (
        r.raw,
        ap (λ m. m >>= λ s. ok (TransportHeaderMut.tcp s)) done
            ∙ ap
                (λ (h : TcpHeaderData).
                  ok (TransportHeaderMut.tcp (record { raw = r.raw; header_data = h })))
                kept,
        record {
          long = omega (arith, v.long, same);
          sized = same ∙ v.sized;
          reads =
              ap TransportHeaderData.tcp (tcp_header_of-same r.raw raw (λ k h. apart k (inl h)))
              ∙ v.reads;
          bytes = bytes;
        },
        same,
        tt,
        ap (fold 2)
              {x = pseudo_sum ip (length r.raw + length payload)
                + word_sum r.raw
                + word_sum payload}
              (omega (
                arith,
                same,
                v.sized,
                ap word_sum all,
                ap (λ n. pseudo_sum ip (n + length payload)) {x = length r.raw}
                    {y = h.header_length} (same ∙ v.sized),
              ))
            ∙ folds,
      )
  update_checksum-IsTransport (TransportHeaderData.udp h) ip raw payload n v counted total t s e
        small =
      let written : leb (6 + 2) (length raw) ≡ true = ground (arith, v.long) in
      let after : (k : ℕ) → _ = λ k. byte-copy_at 6 0 0 k raw (omega (arith, v.long)) in
      let same : length (copy_at 6 (0 ∷ 0 ∷ []) raw) ≡ length raw =
        length-copy_at 6 (0 ∷ 0 ∷ []) raw (omega (arith, v.long)) in
      (
        copy_at 6 (0 ∷ 0 ∷ []) raw,
        rw (UdpEdit.set_checksum, order.write_u16_lem 0 (omega arith), written) refl,
        record {
          long = omega (arith, v.long, same);
          sized = same ∙ v.sized;
          reads = rw (after 0, after 1, after 2, after 3) v.reads;
          bytes = All-copy_at IsByte 6 (0 ∷ 0 ∷ []) raw (omega arith) v.bytes;
        },
        same,
        rw (after 4, after 5) counted,
        rw (after 6, after 7) refl,
      )
