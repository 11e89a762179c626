-- ===== src/TcpHeader.antt =====
-- relay/src/relay/tcp_header.rs: the fields that the relay reads from a TCP header. The low nine
-- bits `x & 0x1FF` are `x % 2 ^ 9`, and `(x & 0xF000) >> 10` is `x / 2 ^ 12 * 2 ^ 2`, with `% 2 ^ 4` in
-- between for the top four of sixteen bits.
pub mod Edit
pub mod Checksum
use harmony_os_reverse_tethe.Prelude.{
  ℕ, ◌*◌, ◌/◌, ◌%◌, ◌^◌, ◌≤◌, ◌≡◌, Bool, List, length, arith, ◌==◌, Outcome, ok, ◌>>=◌,
}
use harmony_os_reverse_tethe.ByteOrder.{
  ByteOrder, u16_at, u32_at, read_u16_at, read_u32_at, read_u16_at-eq-ok, read_u32_at-eq-ok,
}

pub record TcpHeaderData : Type 0 where
  pub source_port : ℕ
  pub destination_port : ℕ
  pub sequence_number : ℕ
  pub acknowledgement_number : ℕ
  pub header_length : ℕ
  pub flags : ℕ
  pub window : ℕ

abbrev pub flag_fin : ℕ
flag_fin = 1

abbrev pub flag_syn : ℕ
flag_syn = 2 ^ 1

abbrev pub flag_rst : ℕ
flag_rst = 2 ^ 2

abbrev pub flag_psh : ℕ
flag_psh = 2 ^ 3

abbrev pub flag_ack : ℕ
flag_ack = 2 ^ 4

-- `flags & FLAG != 0`, for a flag of one bit.
abbrev pub has_flag : ℕ → ℕ → Bool
has_flag flags flag = flags / flag % 2 == 1

abbrev pub is_fin : TcpHeaderData → Bool
is_fin h = has_flag h.flags flag_fin

abbrev pub is_syn : TcpHeaderData → Bool
is_syn h = has_flag h.flags flag_syn

abbrev pub is_rst : TcpHeaderData → Bool
is_rst h = has_flag h.flags flag_rst

abbrev pub is_psh : TcpHeaderData → Bool
is_psh h = has_flag h.flags flag_psh

abbrev pub is_ack : TcpHeaderData → Bool
is_ack h = has_flag h.flags flag_ack

abbrev pub header_of : List ℕ → TcpHeaderData
header_of raw = record {
  source_port = u16_at raw 0;
  destination_port = u16_at raw 2;
  sequence_number = u32_at raw 4;
  acknowledgement_number = u32_at raw 8;
  header_length = u16_at raw 12 / 2 ^ 12 % 2 ^ 4 * 2 ^ 2;
  flags = u16_at raw 12 % 2 ^ 9;
  window = u16_at raw 14;
}

module _ {E : Type 0} ⦃order : ByteOrder⦄ where
  unfoldable pub parse : List ℕ → Outcome E TcpHeaderData
  parse raw = do
    data_offset_and_flags ← read_u16_at raw 12
    source ← read_u16_at raw 0
    destination ← read_u16_at raw 2
    sequence ← read_u32_at raw 4
    acknowledgement ← read_u32_at raw 8
    window ← read_u16_at raw 14
    ok (record {
      source_port = source;
      destination_port = destination;
      sequence_number = sequence;
      acknowledgement_number = acknowledgement;
      header_length = data_offset_and_flags / 2 ^ 12 % 2 ^ 4 * 2 ^ 2;
      flags = data_offset_and_flags % 2 ^ 9;
      window = window;
    })

  pub parse-eq-ok : (raw : List ℕ) → 20 ≤ length raw → parse raw ≡ ok (header_of raw)
  unfolding parse
  parse-eq-ok raw h = rw (
    read_u16_at-eq-ok {E = E} raw 12 (omega arith),
    read_u16_at-eq-ok {E = E} raw 0 (omega arith),
    read_u16_at-eq-ok {E = E} raw 2 (omega arith),
    read_u32_at-eq-ok {E = E} raw 4 (omega arith),
    read_u32_at-eq-ok {E = E} raw 8 (omega arith),
    read_u16_at-eq-ok {E = E} raw 14 (omega arith),
  )
