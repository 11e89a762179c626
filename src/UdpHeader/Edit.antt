-- ===== src/UdpHeader/Edit.antt =====
-- `UdpHeaderMut` of relay/src/relay/udp_header.rs: the fields of a header, changed in its bytes too.
use harmony_os_reverse_tethe.Prelude.{
  ℕ, ◌+◌, ◌%◌, ◌^◌, ◌≤◌, ◌≡◌, List, [], ◌∷◌, length, arith, Outcome, ok, ◌>>=◌, write_at, swap_at,
  index, refl, sym,
}
use harmony_os_reverse_tethe.ByteOrder.{ByteOrder}
use harmony_os_reverse_tethe.UdpHeader.{UdpHeaderData, udp_header_length, header_of}

pub record UdpHeaderMut : Type 0 where
  pub raw : List ℕ
  pub header_data : UdpHeaderData

module _ {E : Type 0} ⦃order : ByteOrder⦄ where
  unfoldable pub set_source_port : UdpHeaderMut → ℕ → Outcome E UdpHeaderMut
  set_source_port m port = do
    raw ← write_at m.raw 0 (order.write_u16 port)
    ok (record { raw = raw; header_data = record m.header_data { source_port = port } })

  unfoldable pub set_destination_port : UdpHeaderMut → ℕ → Outcome E UdpHeaderMut
  set_destination_port m port = do
    raw ← write_at m.raw 2 (order.write_u16 port)
    ok (record { raw = raw; header_data = record m.header_data { destination_port = port } })

  unfoldable pub set_payload_length : UdpHeaderMut → ℕ → Outcome E UdpHeaderMut
  set_payload_length m payload_length = do
    raw ← write_at m.raw 4 (order.write_u16 ((udp_header_length + payload_length) % 2 ^ 16))
    ok (record m { raw = raw })

  unfoldable pub set_checksum : UdpHeaderMut → ℕ → Outcome E UdpHeaderMut
  set_checksum m checksum = do
    raw ← write_at m.raw 6 (order.write_u16 checksum)
    ok (record m { raw = raw })

  -- The checksum is disabled.
  unfoldable pub update_checksum : UdpHeaderMut → Outcome E UdpHeaderMut
  unfolding set_checksum
  update_checksum m = set_checksum m 0

module _ {E : Type 0} where
  unfoldable pub swap_source_and_destination : UdpHeaderMut → Outcome E UdpHeaderMut
  swap_source_and_destination m = do
    once ← swap_at m.raw 0 2
    twice ← swap_at once 1 3
    ok (record {
      raw = twice;
      header_data = record {
        source_port = m.header_data.destination_port;
        destination_port = m.header_data.source_port;
      };
    })

-- The bytes are a header, and its fields are the data.
pub record IsBound (m : UdpHeaderMut) : Type 0 where
  pub long : 8 ≤ length m.raw
  pub agrees : header_of m.raw ≡ m.header_data

swapped :
    {E : Type 0} (raw : List ℕ) (d : UdpHeaderData)
    → 8 ≤ length raw
    → header_of raw ≡ d
    → (n : UdpHeaderMut) × (swap_source_and_destination {E = E}
          (record { raw = raw; header_data = d })
        ≡ ok n)
      × IsBound n
      × (n.header_data.source_port ≡ d.destination_port)
      × (n.header_data.destination_port ≡ d.source_port)
unfolding swap_source_and_destination swap_at index write_at
swapped [] d l e = absurd (omega arith)
swapped (x0 ∷ []) d l e = absurd (omega arith)
swapped (x0 ∷ x1 ∷ []) d l e = absurd (omega arith)
swapped (x0 ∷ x1 ∷ x2 ∷ []) d l e = absurd (omega arith)
swapped (x0 ∷ x1 ∷ x2 ∷ x3 ∷ rest) d l e = (
  record {
    raw = x2 ∷ x3 ∷ x0 ∷ x1 ∷ rest;
    header_data = record { source_port = d.destination_port; destination_port = d.source_port };
  },
  ground arith,
  record { long = omega arith; agrees = rw (sym e) refl },
  refl,
  refl,
)

-- Swapping the ports of a header whose bytes and data agree succeeds, the two agree afterwards, and the source
-- port is the former destination port and the other way around.
pub swap-IsBound :
    {E : Type 0} (m : UdpHeaderMut)
    → IsBound m
    → (n : UdpHeaderMut) × (swap_source_and_destination {E = E} m ≡ ok n)
      × IsBound n
      × (n.header_data.source_port ≡ m.header_data.destination_port)
      × (n.header_data.destination_port ≡ m.header_data.source_port)
swap-IsBound m b = swapped m.raw m.header_data b.long b.agrees
