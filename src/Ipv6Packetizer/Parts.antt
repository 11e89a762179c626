-- ===== src/Ipv6Packetizer/Parts.antt =====
-- The two headers in the buffer of an IPv6 packetizer, and where the checksum stands.
use harmony_os_reverse_tethe.Prelude.{
  ℕ, ◌+◌, ◌*◌, ◌-◌, ◌/◌, ◌%◌, ◌^◌, ◌≤◌, ◌<◌, ◌≡◌, refl, sym, ap, ◌∙◌, ◌⊎◌, inl, inr, List, [], ◌∷◌,
  length, All, byte, slice, copy_at, length-copy_at, arith,
}
use harmony_os_reverse_tethe.Prelude.Layout.{All-copy_at}
use harmony_os_reverse_tethe.Prelude.Slices.{slice-copy_at_apart}
use harmony_os_reverse_tethe.ByteOrder.{u16_at}
use harmony_os_reverse_tethe.IpPacket.Framing.{IsByte}
use harmony_os_reverse_tethe.Checksum.Words.{byte-copy_at}
use harmony_os_reverse_tethe.Ipv6Header.{Ipv6HeaderData}
use harmony_os_reverse_tethe.TransportHeader.{TransportHeaderData}
use harmony_os_reverse_tethe.Packetizer.Transport.{
  IsTransport, protocol_of, Counts, tcp_words, tcp_header_of-same,
}
use harmony_os_reverse_tethe.Ipv6Packetizer.{checksum_offset}

-- The bytes of a header, and what is read from them but for the payload length, which a build sets.
pub record IsHeader (raw : List ℕ) (d : Ipv6HeaderData) : Type 0 where
  pub sized : length raw ≡ 40
  pub version : byte raw 0 / 2 ^ 4 ≡ 6
  pub next : d.next_header ≡ byte raw 6
  pub source : d.source ≡ slice 8 24 raw
  pub destination : d.destination ≡ slice 24 40 raw
  pub bytes : All IsByte raw

module _ (raw : List ℕ) (d : Ipv6HeaderData) (n : ℕ) (v : IsHeader raw d) (small : n < 2 ^ 16) where
  abbrev pub counted : List ℕ
  counted = copy_at 4 (n / 2 ^ 8 ∷ n % 2 ^ 8 ∷ []) raw

  pub counted-IsHeader : IsHeader counted d
  counted-IsHeader =
      let at_byte : (k : ℕ) → _ =
        λ k. byte-copy_at 4 (n / 2 ^ 8) (n % 2 ^ 8) k raw (omega (arith, v.sized)) in
      let word = n / 2 ^ 8 ∷ n % 2 ^ 8 ∷ [] in
      record {
        sized = length-copy_at 4 word raw (omega (arith, v.sized)) ∙ v.sized;
        version = rw (at_byte 0) v.version;
        next = v.next ∙ sym (at_byte 6);
        source =
            v.source
            ∙ sym
                (slice-copy_at_apart 8 24 4 word raw (omega (arith, v.sized)) (inr (omega arith)));
        destination =
            v.destination
            ∙ sym
                (slice-copy_at_apart 24 40 4 word raw (omega (arith, v.sized)) (inr (omega arith)));
        bytes = All-copy_at IsByte 4 word raw (omega arith) v.bytes;
      }

  pub payload_length-counted : u16_at counted 4 ≡ n
  payload_length-counted = ground (
    arith,
    v.sized,
    byte-copy_at 4 (n / 2 ^ 8) (n % 2 ^ 8) 4 raw,
    byte-copy_at 4 (n / 2 ^ 8) (n % 2 ^ 8) 5 raw,
  )

-- The index of the checksum's word, and how many words stand behind it.
abbrev pub field : TransportHeaderData → ℕ
field (TransportHeaderData.tcp h) = 8
field (TransportHeaderData.udp h) = 3

abbrev pub behind : TransportHeaderData → List ℕ → ℕ
behind (TransportHeaderData.tcp h) raw = u16_at raw 12 / 2 ^ 12 % 2 ^ 4 * 2 - 9
behind (TransportHeaderData.udp h) raw = 0

pub offset-field : (d : TransportHeaderData) → checksum_offset (protocol_of d) ≡ 2 * field d
unfolding checksum_offset
offset-field (TransportHeaderData.tcp h) = refl
offset-field (TransportHeaderData.udp h) = refl

pub length-transport :
    (d : TransportHeaderData) (raw : List ℕ)
    → IsTransport raw d
    → length raw ≡ 2 * (field d + 1 + behind d raw)
length-transport (TransportHeaderData.tcp h) raw v = omega (arith, tcp_words v, v.sized)
length-transport (TransportHeaderData.udp h) raw v = omega (arith, v.sized)

-- What is read of a transport header leaves its checksum out.
module _ (raw other : List ℕ) (same : length other ≡ length raw) (small : All IsByte other) where
  pub IsTransport-apart :
      (d : TransportHeaderData)
      → IsTransport raw d
      → ((k : ℕ) → (k < 2 * field d) ⊎ (2 * field d + 2 ≤ k) → byte other k ≡ byte raw k)
      → IsTransport other d
  IsTransport-apart (TransportHeaderData.tcp h) v apart = record {
    long = omega (arith, same, v.long);
    sized = same ∙ v.sized;
    reads =
        ap TransportHeaderData.tcp
          (tcp_header_of-same other raw (λ k l. apart k (inl (omega arith))))
        ∙ v.reads;
    bytes = small;
  }
  IsTransport-apart (TransportHeaderData.udp h) v apart = record {
    long = omega (arith, same, v.long);
    sized = same ∙ v.sized;
    reads =
        rw
          (
            apart 0 (inl (omega arith)),
            apart 1 (inl (omega arith)),
            apart 2 (inl (omega arith)),
            apart 3 (inl (omega arith)),
          )
          v.reads;
    bytes = small;
  }

pub Counts-apart :
    (raw other : List ℕ) (d : TransportHeaderData) (n : ℕ)
    → Counts d raw n
    → ((k : ℕ) → (k < 2 * field d) ⊎ (2 * field d + 2 ≤ k) → byte other k ≡ byte raw k)
    → Counts d other n
Counts-apart raw other (TransportHeaderData.tcp h) n c apart = tt
Counts-apart raw other (TransportHeaderData.udp h) n c apart =
    rw (apart 4 (inl (omega arith)), apart 5 (inl (omega arith))) c
