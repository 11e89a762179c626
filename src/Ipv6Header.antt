-- ===== src/Ipv6Header.antt =====
-- relay/src/relay/ipv6_header.rs: the fixed header of an IPv6 packet.
use harmony_os_reverse_tethe.Prelude.{
  ℕ, ◌+◌, ◌/◌, ◌^◌, List, length, not, ltb, ◌==◌, Outcome, ok, ◌>>=◌, ◌>>◌, fail_if, index,
  subslice,
}
use harmony_os_reverse_tethe.ByteOrder.{ByteOrder, read_u16_at}

abbrev pub ipv6_header_length : ℕ
ipv6_header_length = 40

pub data Ipv6HeaderError : Type 0 where
  truncated_header invalid_version truncated_payload : Ipv6HeaderError

pub record Ipv6HeaderData : Type 0 where
  pub payload_length : ℕ
  pub next_header : ℕ
  pub source : List ℕ
  pub destination : List ℕ

abbrev pub total_length : Ipv6HeaderData → ℕ
total_length h = ipv6_header_length + h.payload_length

module _ ⦃order : ByteOrder⦄ where
  unfoldable pub parse : List ℕ → Outcome Ipv6HeaderError Ipv6HeaderData
  parse raw = do
    fail_if (ltb (length raw) ipv6_header_length) truncated_header
    first ← index raw 0
    fail_if (not (first / 2 ^ 4 == 6)) invalid_version
    payload_length ← read_u16_at raw 4
    fail_if (ltb (length raw) (ipv6_header_length + payload_length)) truncated_payload
    source ← subslice raw 8 24
    destination ← subslice raw 24 40
    next ← index raw 6
    ok (record {
      payload_length = payload_length;
      next_header = next;
      source = source;
      destination = destination;
    })

  -- The same with no demand on the payload.
  unfoldable pub parse_header_only : List ℕ → Outcome Ipv6HeaderError Ipv6HeaderData
  parse_header_only raw = do
    fail_if (ltb (length raw) ipv6_header_length) truncated_header
    first ← index raw 0
    fail_if (not (first / 2 ^ 4 == 6)) invalid_version
    source ← subslice raw 8 24
    destination ← subslice raw 24 40
    payload_length ← read_u16_at raw 4
    next ← index raw 6
    ok (record {
      payload_length = payload_length;
      next_header = next;
      source = source;
      destination = destination;
    })
