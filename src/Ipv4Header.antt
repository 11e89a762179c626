-- ===== src/Ipv4Header.antt =====
-- relay/src/relay/ipv4_header.rs: the fields that the relay reads from an IPv4 header.
-- Masks and shifts of a byte are written as arithmetic: `raw[0] >> 4` is `/ 2 ^ 4`, and `& 0xf` is
-- `% 2 ^ 4`.
pub mod Edit
pub mod Checksum
pub mod RoundTrip
use harmony_os_reverse_tethe.Prelude.{
  ℕ, ◌*◌, ◌/◌, ◌%◌, ◌^◌, ◌≤◌, ◌≡◌, List, length, Option, none, some, arith, leb, ◌==◌,
  if◌then◌else◌, Outcome, ok, ◌>>=◌, index, byte, index-eq-ok,
}
use harmony_os_reverse_tethe.ByteOrder.{
  ByteOrder, u16_at, u32_at, read_u16_at, read_u32_at, read_u16_at-eq-ok, read_u32_at-eq-ok,
}

pub data Protocol : Type 0 where
  tcp udp other : Protocol

pub record Ipv4HeaderData : Type 0 where
  pub version : ℕ
  pub header_length : ℕ
  pub total_length : ℕ
  pub protocol : Protocol
  pub source : ℕ
  pub destination : ℕ

unfoldable pub protocol_of : ℕ → Protocol
protocol_of n = if n == 6 then tcp else (if n == 17 then udp else other)

-- What `parse` reads where nothing is out of range.
abbrev pub header_of : List ℕ → Ipv4HeaderData
header_of raw = record {
  version = byte raw 0 / 2 ^ 4;
  header_length = byte raw 0 % 2 ^ 4 * 2 ^ 2;
  total_length = u16_at raw 2;
  protocol = protocol_of (byte raw 9);
  source = u32_at raw 12;
  destination = u32_at raw 16;
}

module _ {E : Type 0} ⦃order : ByteOrder⦄ where
  unfoldable pub parse : List ℕ → Outcome E Ipv4HeaderData
  parse raw = do
    first ← index raw 0
    total ← read_u16_at raw 2
    protocol ← index raw 9
    source ← read_u32_at raw 12
    destination ← read_u32_at raw 16
    ok (record {
      version = first / 2 ^ 4;
      header_length = first % 2 ^ 4 * 2 ^ 2;
      total_length = total;
      protocol = protocol_of protocol;
      source = source;
      destination = destination;
    })

  -- The version and the packet length, once four bytes are there.
  unfoldable pub peek_version_length : List ℕ → Outcome E (Option (ℕ × ℕ))
  peek_version_length raw =
      if leb 4 (length raw)
      then (index raw 0 >>= λ first. read_u16_at raw 2 >>= λ len. ok (some (first / 2 ^ 4, len)))
      else ok none

  pub parse-eq-ok : (raw : List ℕ) → 20 ≤ length raw → parse raw ≡ ok (header_of raw)
  unfolding parse
  parse-eq-ok raw h = rw (
    index-eq-ok {E = E} raw 0 (omega arith),
    read_u16_at-eq-ok {E = E} raw 2 (omega arith),
    index-eq-ok {E = E} raw 9 (omega arith),
    read_u32_at-eq-ok {E = E} raw 12 (omega arith),
    read_u32_at-eq-ok {E = E} raw 16 (omega arith),
  )
