-- ===== src/Ipv4Header/Edit.antt =====
-- `Ipv4HeaderMut` of relay/src/relay/ipv4_header.rs: the fields of a header, changed in its bytes too.
use harmony_os_reverse_tethe.Prelude.{ℕ, List, Outcome, ok, ◌>>=◌, write_at, swap_at}
use harmony_os_reverse_tethe.ByteOrder.{ByteOrder}
use harmony_os_reverse_tethe.Ipv4Header.{Ipv4HeaderData}

pub record Ipv4HeaderMut : Type 0 where
  pub raw : List ℕ
  pub header_data : Ipv4HeaderData

module _ {E : Type 0} ⦃order : ByteOrder⦄ where
  unfoldable pub set_total_length : Ipv4HeaderMut → ℕ → Outcome E Ipv4HeaderMut
  set_total_length m total_length = do
    raw ← write_at m.raw 2 (order.write_u16 total_length)
    ok (record { raw = raw; header_data = record m.header_data { total_length = total_length } })

  unfoldable pub set_source : Ipv4HeaderMut → ℕ → Outcome E Ipv4HeaderMut
  set_source m source = do
    raw ← write_at m.raw 12 (order.write_u32 source)
    ok (record { raw = raw; header_data = record m.header_data { source = source } })

  unfoldable pub set_destination : Ipv4HeaderMut → ℕ → Outcome E Ipv4HeaderMut
  set_destination m destination = do
    raw ← write_at m.raw 16 (order.write_u32 destination)
    ok (record { raw = raw; header_data = record m.header_data { destination = destination } })

  unfoldable pub set_checksum : Ipv4HeaderMut → ℕ → Outcome E Ipv4HeaderMut
  set_checksum m checksum = do
    raw ← write_at m.raw 10 (order.write_u16 checksum)
    ok (record m { raw = raw })

module _ {E : Type 0} where
  unfoldable pub swap_source_and_destination : Ipv4HeaderMut → Outcome E Ipv4HeaderMut
  swap_source_and_destination m = do
    a ← swap_at m.raw 12 16
    b ← swap_at a 13 17
    c ← swap_at b 14 18
    d ← swap_at c 15 19
    ok (record {
      raw = d;
      header_data = record m.header_data {
        source = m.header_data.destination;
        destination = m.header_data.source;
      };
    })
