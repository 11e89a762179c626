-- ===== src/Packetizer/Header.antt =====
-- The IPv4 header in a packetizer's buffer: its bytes are those of a whole packet's header and read as the data beside
-- them, whatever the packetizer writes.
use harmony_os_reverse_tethe.Prelude.{
  ℕ, ◌*◌, ◌-◌, ◌/◌, ◌%◌, ◌+◌, ◌^◌, ◌≤◌, ◌<◌, ◌≡◌, refl, sym, ap, ◌∙◌, ◌⊎◌, inl, inr, List, [], ◌∷◌,
  length, true, leb, All, byte, arith, ok, write_at, length-copy_at,
}
use harmony_os_reverse_tethe.Prelude.Layout.{All-copy_at}
use harmony_os_reverse_tethe.Prelude.Swap.{IsSwap, swap_at_lem, IsSwap-below}
use harmony_os_reverse_tethe.ByteOrder.{ByteOrder}
use harmony_os_reverse_tethe.IpPacket.Framing.{IsByte, IsSwap-IsByte}
use harmony_os_reverse_tethe.Checksum.{fold}
use harmony_os_reverse_tethe.Checksum.Words.{words, read_words-eq-ok}
use harmony_os_reverse_tethe.Ipv4Header.{Ipv4HeaderData, header_of}
use harmony_os_reverse_tethe.Ipv4Header.Edit.{set_total_length, swap_source_and_destination}
use harmony_os_reverse_tethe.Ipv4Header.Checksum.{update_checksum, update_checksum-verifies}
use harmony_os_reverse_tethe.Ipv4Header.RoundTrip.{lengthened, header_of-lengthened, at_byte}

-- Bytes of a header of version 4 of a packet that is no fragment.
pub record IsHeader (raw : List ℕ) (d : Ipv4HeaderData) : Type 0 where
  pub least : 20 ≤ length raw
  pub sized : length raw ≡ d.header_length
  pub reads : header_of raw ≡ d
  pub version : d.version ≡ 4
  pub flags : byte raw 6 / 2 ^ 5 % 2 ≡ 0
  pub offset : (byte raw 6 % 2 ^ 5 ≡ 0) × (byte raw 7 ≡ 0)
  pub bytes : All IsByte raw

-- A length is four times a number of four bits.
pub length-header :
    {raw : List ℕ} {d : Ipv4HeaderData}
    → IsHeader raw d
    → length raw ≡ 2 * (6 + (byte raw 0 % 2 ^ 4 * 2 - 6))
length-header {raw} v =
    omega (arith, v.least, v.sized ∙ ap (λ (d : Ipv4HeaderData). d.header_length) (sym v.reads))

-- What is read leaves the checksum field out.
header_of-same :
    (a b : List ℕ)
    → ((k : ℕ) → (k < 10) ⊎ (12 ≤ k) → byte a k ≡ byte b k)
    → header_of a ≡ header_of b
header_of-same a b h =
    rw
      (
        h 0 (inl (omega arith)),
        h 2 (inl (omega arith)),
        h 3 (inl (omega arith)),
        h 9 (inl (omega arith)),
        h 12 (inr (omega arith)),
        h 13 (inr (omega arith)),
        h 14 (inr (omega arith)),
        h 15 (inr (omega arith)),
        h 16 (inr (omega arith)),
        h 17 (inr (omega arith)),
        h 18 (inr (omega arith)),
        h 19 (inr (omega arith)),
      )
      refl

module _ {E : Type 0} ⦃order : ByteOrder⦄ {raw : List ℕ} {d : Ipv4HeaderData}
    (v : IsHeader raw d) where
  pub set_total_length-IsHeader :
      (n : ℕ)
      → n < 2 ^ 16
      → (r : List ℕ) × (set_total_length {E = E} (record { raw = raw; header_data = d }) n
          ≡ ok (record { raw = r; header_data = record d { total_length = n } }))
        × IsHeader r (record d { total_length = n })
        × (length r ≡ length raw)
  unfolding set_total_length write_at
  set_total_length-IsHeader n small =
      let written : leb (2 + 2) (length raw) ≡ true = ground (arith, v.least) in
      let same : length (lengthened raw n v.least small) ≡ length raw =
        length-copy_at 2 (n / 2 ^ 8 ∷ n % 2 ^ 8 ∷ []) raw (omega (arith, v.least)) in
      let at_six = at_byte raw n v.least small 6 (inr (omega arith)) in
      let at_seven = at_byte raw n v.least small 7 (inr (omega arith)) in
      (
        lengthened raw n v.least small,
        rw (set_total_length, order.write_u16_lem n small, written) refl,
        record {
          least = omega (arith, same, v.least);
          sized = same ∙ v.sized;
          reads =
              header_of-lengthened raw n v.least small
              ∙ ap (λ (d : Ipv4HeaderData). record d { total_length = n }) v.reads;
          version = v.version;
          flags = rw at_six v.flags;
          offset = (rw at_six v.offset.0, rw at_seven v.offset.1);
          bytes = All-copy_at IsByte 2 (n / 2 ^ 8 ∷ n % 2 ^ 8 ∷ []) raw (omega arith) v.bytes;
        },
        same,
      )

  -- A receiver's sum over the header is all ones.
  pub update_checksum-IsHeader :
      (r : List ℕ) × (update_checksum {E = E} (record { raw = raw; header_data = d })
        ≡ ok (record { raw = r; header_data = d }))
      × IsHeader r d
      × (length r ≡ length raw)
      × (fold 2 (words r 0 (length r / 2)) ≡ 2 ^ 16 - 1)
  update_checksum-IsHeader =
      let words_left = byte raw 0 % 2 ^ 4 * 2 - 6 in
      let whole : d.header_length ≡ 2 * (6 + words_left) = sym v.sized ∙ length-header v in
      let (r, total, done, kept, apart, same, bytes, read, folds) =
        update_checksum-verifies {E = E} (record { raw = raw; header_data = d }) words_left whole
          (omega (arith, v.least, v.sized)) (omega arith) (omega (arith, v.sized)) v.bytes in
      let half : d.header_length / 2 ≡ length r.raw / 2 = ap (λ n. n / 2) (sym (same ∙ v.sized)) in
      let counted : words r.raw 0 (length r.raw / 2) ≡ total = cc (
        sym (read_words-eq-ok {E = E} r.raw 0 (length r.raw / 2) (omega arith))
        ∙ rw half at read) in
      (
        r.raw,
        done ∙ ap ok (ap (λ (d : Ipv4HeaderData). record { raw = r.raw; header_data = d }) kept),
        record {
          least = omega (arith, same, v.least);
          sized = same ∙ v.sized;
          reads = header_of-same r.raw raw apart ∙ v.reads;
          version = v.version;
          flags = rw (apart 6 (inl (omega arith))) v.flags;
          offset = (
            rw (apart 6 (inl (omega arith))) v.offset.0,
            rw (apart 7 (inl (omega arith))) v.offset.1,
          );
          bytes = bytes;
        },
        same,
        ap (fold 2) counted ∙ folds,
      )

-- The header that a reply has.
abbrev pub turned : Ipv4HeaderData → Ipv4HeaderData
turned d = record d { source = d.destination; destination = d.source }

-- The four swaps of the address bytes.
module _ {raw a b c r : List ℕ} (s1 : IsSwap raw 12 16 a) (s2 : IsSwap a 13 17 b)
    (s3 : IsSwap b 14 18 c) (s4 : IsSwap c 15 19 r) where
  swaps_below : (k : ℕ) → k < 12 → byte r k ≡ byte raw k
  swaps_below k h =
      IsSwap-below s4 k (omega arith) (omega arith)
      ∙ IsSwap-below s3 k (omega arith) (omega arith)
      ∙ IsSwap-below s2 k (omega arith) (omega arith)
      ∙ IsSwap-below s1 k (omega arith) (omega arith)

  length-swaps : length r ≡ length raw
  length-swaps = s4.same ∙ s3.same ∙ s2.same ∙ s1.same

  -- The tests of the swaps are decided, since the indices are numerals.
  header_of-swaps : header_of r ≡ turned (header_of raw)
  header_of-swaps =
      rw
        (
          swaps_below 0 (omega arith),
          swaps_below 2 (omega arith),
          swaps_below 3 (omega arith),
          swaps_below 9 (omega arith),
          s4.at 12 ∙ s3.at 12 ∙ s2.at 12 ∙ s1.at 12,
          s4.at 13 ∙ s3.at 13 ∙ s2.at 13 ∙ s1.at 17,
          s4.at 14 ∙ s3.at 14 ∙ s2.at 18 ∙ s1.at 18,
          s4.at 15 ∙ s3.at 19 ∙ s2.at 19 ∙ s1.at 19,
          s4.at 16 ∙ s3.at 16 ∙ s2.at 16 ∙ s1.at 16,
          s4.at 17 ∙ s3.at 17 ∙ s2.at 17 ∙ s1.at 13,
          s4.at 18 ∙ s3.at 18 ∙ s2.at 14 ∙ s1.at 14,
          s4.at 19 ∙ s3.at 15 ∙ s2.at 15 ∙ s1.at 15,
        )
        refl

  swaps-IsHeader : {d : Ipv4HeaderData} → IsHeader raw d → IsHeader r (turned d)
  swaps-IsHeader v = record {
    least = omega (arith, length-swaps, v.least);
    sized = length-swaps ∙ v.sized;
    reads = header_of-swaps ∙ ap turned v.reads;
    version = v.version;
    flags = rw (swaps_below 6 (omega arith)) v.flags;
    offset =
        (rw (swaps_below 6 (omega arith)) v.offset.0, rw (swaps_below 7 (omega arith)) v.offset.1);
    bytes = IsSwap-IsByte s4 (IsSwap-IsByte s3 (IsSwap-IsByte s2 (IsSwap-IsByte s1 v.bytes)));
  }

pub swap-IsHeader :
    {E : Type 0} {raw : List ℕ} {d : Ipv4HeaderData}
    → IsHeader raw d
    → (r : List ℕ) × (swap_source_and_destination {E = E} (record { raw = raw; header_data = d })
        ≡ ok (record { raw = r; header_data = turned d }))
      × IsHeader r (turned d)
      × (length r ≡ length raw)
unfolding swap_source_and_destination
swap-IsHeader {E} {raw} {d} v =
    let (a, s1) = swap_at_lem raw 12 16 (omega (arith, v.least)) (omega (arith, v.least)) in
    let (b, s2) =
      swap_at_lem a 13 17 (omega (arith, v.least, s1.same)) (omega (arith, v.least, s1.same)) in
    let (c, s3) =
      swap_at_lem b 14 18 (omega (arith, v.least, s1.same, s2.same))
        (omega (arith, v.least, s1.same, s2.same)) in
    let (r, s4) =
      swap_at_lem c 15 19 (omega (arith, v.least, s1.same, s2.same, s3.same))
        (omega (arith, v.least, s1.same, s2.same, s3.same)) in
    (
      r,
      rw
          (
            swap_source_and_destination,
            s1.runs {E = E},
            s2.runs {E = E},
            s3.runs {E = E},
            s4.runs {E = E},
          )
          refl,
      swaps-IsHeader s1 s2 s3 s4 v,
      length-swaps s1 s2 s3 s4,
    )
