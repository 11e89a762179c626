-- ===== src/UdpHeader.antt =====
-- relay/src/relay/udp_header.rs: the ports of a UDP header.
pub mod Edit
use harmony_os_reverse_tethe.Prelude.{ℕ, ◌≤◌, ◌≡◌, List, length, arith, Outcome, ok, ◌>>=◌}
use harmony_os_reverse_tethe.ByteOrder.{ByteOrder, u16_at, read_u16_at, read_u16_at-eq-ok}

abbrev pub udp_header_length : ℕ
udp_header_length = 8

pub record UdpHeaderData : Type 0 where
  pub source_port : ℕ
  pub destination_port : ℕ

abbrev pub header_of : List ℕ → UdpHeaderData
header_of raw = record { source_port = u16_at raw 0; destination_port = u16_at raw 2 }

module _ {E : Type 0} ⦃order : ByteOrder⦄ where
  unfoldable pub parse : List ℕ → Outcome E UdpHeaderData
  parse raw = do
    source ← read_u16_at raw 0
    destination ← read_u16_at raw 2
    ok (record { source_port = source; destination_port = destination })

  pub parse-eq-ok : (raw : List ℕ) → 8 ≤ length raw → parse raw ≡ ok (header_of raw)
  unfolding parse
  parse-eq-ok raw h =
      rw (
        read_u16_at-eq-ok {E = E} raw 0 (omega arith),
        read_u16_at-eq-ok {E = E} raw 2 (omega arith),
      )
