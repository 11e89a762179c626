-- ===== src/TcpHeader/Edit.antt =====
-- `TcpHeaderMut` of relay/src/relay/tcp_header.rs: the fields of a header, changed in its bytes too. The
-- masks `x & 0xFE00` and `x & 0x0FFF` of sixteen bits are written as `x / 2 ^ 9 * 2 ^ 9` and `x % 2 ^ 12`, and the `|` of
-- disjoint bits as `+`.
use harmony_os_reverse_tethe.Prelude.{
  ℕ, ◌+◌, ◌*◌, ◌/◌, ◌%◌, ◌^◌, List, Outcome, ok, ◌>>=◌, write_at, swap_at,
}
use harmony_os_reverse_tethe.ByteOrder.{ByteOrder, read_u16_at}
use harmony_os_reverse_tethe.TcpHeader.{TcpHeaderData}

pub record TcpHeaderMut : Type 0 where
  pub raw : List ℕ
  pub header_data : TcpHeaderData

module _ {E : Type 0} ⦃order : ByteOrder⦄ where
  unfoldable pub set_source_port : TcpHeaderMut → ℕ → Outcome E TcpHeaderMut
  set_source_port m port = do
    raw ← write_at m.raw 0 (order.write_u16 port)
    ok (record { raw = raw; header_data = record m.header_data { source_port = port } })

  unfoldable pub set_destination_port : TcpHeaderMut → ℕ → Outcome E TcpHeaderMut
  set_destination_port m port = do
    raw ← write_at m.raw 2 (order.write_u16 port)
    ok (record { raw = raw; header_data = record m.header_data { destination_port = port } })

  unfoldable pub set_sequence_number : TcpHeaderMut → ℕ → Outcome E TcpHeaderMut
  set_sequence_number m n = do
    raw ← write_at m.raw 4 (order.write_u32 n)
    ok (record { raw = raw; header_data = record m.header_data { sequence_number = n } })

  unfoldable pub set_acknowledgement_number : TcpHeaderMut → ℕ → Outcome E TcpHeaderMut
  set_acknowledgement_number m n = do
    raw ← write_at m.raw 8 (order.write_u32 n)
    ok (record { raw = raw; header_data = record m.header_data { acknowledgement_number = n } })

  unfoldable pub set_flags : TcpHeaderMut → ℕ → Outcome E TcpHeaderMut
  set_flags m flags = do
    data_offset_and_flags ← read_u16_at m.raw 12
    raw ←
        write_at m.raw 12 (order.write_u16 (data_offset_and_flags / 2 ^ 9 * 2 ^ 9 + flags % 2 ^ 9))
    ok (record { raw = raw; header_data = record m.header_data { flags = flags } })

  unfoldable pub set_data_offset : TcpHeaderMut → ℕ → Outcome E TcpHeaderMut
  set_data_offset m data_offset = do
    data_offset_and_flags ← read_u16_at m.raw 12
    raw ←
        write_at m.raw 12
          (order.write_u16 (data_offset_and_flags % 2 ^ 12 + data_offset * 2 ^ 12 % 2 ^ 16))
    ok (record {
      raw = raw;
      header_data = record m.header_data { header_length = data_offset * 2 ^ 2 % 2 ^ 8 };
    })

  unfoldable pub shrink_options : TcpHeaderMut → Outcome E TcpHeaderMut
  unfolding set_data_offset
  shrink_options m = set_data_offset m 5

  unfoldable pub set_checksum : TcpHeaderMut → ℕ → Outcome E TcpHeaderMut
  set_checksum m checksum = do
    raw ← write_at m.raw 16 (order.write_u16 checksum)
    ok (record m { raw = raw })

module _ {E : Type 0} where
  unfoldable pub swap_source_and_destination : TcpHeaderMut → Outcome E TcpHeaderMut
  swap_source_and_destination m = do
    once ← swap_at m.raw 0 2
    twice ← swap_at once 1 3
    ok (record {
      raw = twice;
      header_data = record m.header_data {
        source_port = m.header_data.destination_port;
        destination_port = m.header_data.source_port;
      };
    })
