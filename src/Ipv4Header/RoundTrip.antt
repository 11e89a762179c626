-- ===== src/Ipv4Header/RoundTrip.antt =====
-- What `Ipv4HeaderData::parse` of relay/src/relay/ipv4_header.rs reads from a header whose length was set.
use harmony_os_reverse_tethe.Prelude.{
  ℕ, ◌+◌, ◌/◌, ◌%◌, ◌^◌, ◌≤◌, ◌<◌, ◌≡◌, refl, sym, ap, ◌∙◌, ◌⊎◌, inl, inr, true, List, [], ◌∷◌,
  length, length-copy_at, byte, copy_at, leb, arith, ok, write_at,
}
use harmony_os_reverse_tethe.ByteOrder.{ByteOrder, u16_at, u32_at}
use harmony_os_reverse_tethe.Checksum.Words.{byte-copy_at}
use harmony_os_reverse_tethe.Ipv4Header.{Ipv4HeaderData, header_of, parse, parse-eq-ok}
use harmony_os_reverse_tethe.Ipv4Header.Edit.{Ipv4HeaderMut, set_total_length}

module _ (raw : List ℕ) (v : ℕ) (long : 20 ≤ length raw) (small : v < 2 ^ 16) where
  abbrev pub lengthened : List ℕ
  lengthened = copy_at 2 (v / 2 ^ 8 ∷ v % 2 ^ 8 ∷ []) raw

  pub at_byte : (k : ℕ) → (k < 2) ⊎ (4 ≤ k) → byte lengthened k ≡ byte raw k
  at_byte k apart = ground (arith, byte-copy_at 2 (v / 2 ^ 8) (v % 2 ^ 8) k raw)

  total-lengthened : u16_at lengthened 2 ≡ v
  total-lengthened = ground (
    arith,
    byte-copy_at 2 (v / 2 ^ 8) (v % 2 ^ 8) 2 raw,
    byte-copy_at 2 (v / 2 ^ 8) (v % 2 ^ 8) 3 raw,
  )

  u32-lengthened : (k : ℕ) → 4 ≤ k → u32_at lengthened k ≡ u32_at raw k
  u32-lengthened k h = omega (
    arith,
    at_byte k (inr (omega arith)),
    at_byte (k + 1) (inr (omega arith)),
    at_byte (k + 2) (inr (omega arith)),
    at_byte (k + 3) (inr (omega arith)),
  )

  pub header_of-lengthened : header_of lengthened ≡ record (header_of raw) { total_length = v }
  header_of-lengthened =
      rw
        (
          at_byte 0 (inl (omega arith)),
          at_byte 9 (inr (omega arith)),
          total-lengthened,
          u32-lengthened 12 (omega arith),
          u32-lengthened 16 (omega arith),
        )
        refl

-- From a buffer of at least twenty bytes that parses as the header's data: once a length of sixteen bits is set, the
-- bytes parse as the new data, which has that length and is otherwise the data before.
pub set_total_length-parse :
    {E : Type 0} ⦃order : ByteOrder⦄ (m : Ipv4HeaderMut) (v : ℕ)
    → 20 ≤ length m.raw
    → parse {E = E} m.raw ≡ ok m.header_data
    → v < 2 ^ 16
    → (r : Ipv4HeaderMut) × (set_total_length {E = E} m v ≡ ok r)
      × (parse {E = E} r.raw ≡ ok r.header_data)
      × (r.header_data ≡ record m.header_data { total_length = v })
      × (length r.raw ≡ length m.raw)
unfolding set_total_length write_at
set_total_length-parse {E} ⦃order⦄ m v long parsed small =
    let written : leb (2 + 2) (length m.raw) ≡ true = ground arith in
    let same : length (lengthened m.raw v long small) ≡ length m.raw =
      length-copy_at 2 (v / 2 ^ 8 ∷ v % 2 ^ 8 ∷ []) m.raw (omega arith) in
    let read : header_of m.raw ≡ m.header_data =
      cc (sym (parse-eq-ok {E = E} m.raw long) ∙ parsed) in
    (
      record {
        raw = lengthened m.raw v long small;
        header_data = record m.header_data { total_length = v };
      },
      rw (set_total_length, order.write_u16_lem v small, written) refl,
      parse-eq-ok {E = E} (lengthened m.raw v long small) (omega arith)
          ∙ ap ok (
              header_of-lengthened m.raw v long small
              ∙ ap (λ (d : Ipv4HeaderData). record d { total_length = v }) read),
      refl,
      same,
    )
