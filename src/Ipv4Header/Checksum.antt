-- ===== src/Ipv4Header/Checksum.antt =====
-- `update_checksum` of relay/src/relay/ipv4_header.rs, and the header that a receiver sees.
use harmony_os_reverse_tethe.Prelude.{
  ℕ, ◌+◌, ◌-◌, ◌*◌, ◌/◌, ◌%◌, ◌^◌, ◌≤◌, ◌<◌, ◌≡◌, refl, ap, ◌∙◌, ◌⊎◌, [], ◌∷◌, length, All, byte,
  length-copy_at, true, arith, leb, Outcome, ok, ◌>>=◌, write_at,
}
use harmony_os_reverse_tethe.ByteOrder.{ByteOrder}
use harmony_os_reverse_tethe.IpPacket.Framing.{IsByte}
use harmony_os_reverse_tethe.Checksum.{fold, complement, fold-complement}
use harmony_os_reverse_tethe.Checksum.Words.{
  words, read_words, read_words-eq-ok, words-le, summed, summed-IsByte, summed_elsewhere,
  words-summed,
}
use harmony_os_reverse_tethe.Ipv4Header.Edit.{Ipv4HeaderMut, set_checksum}

-- The words 0..5 and 6..j, which leave the checksum field out.
unfoldable pub update_checksum :
    {E : Type 0} ⦃order : ByteOrder⦄ → Ipv4HeaderMut → Outcome E Ipv4HeaderMut
unfolding set_checksum fold read_words
update_checksum m = do
  let j = m.header_data.header_length / 2
  before ← read_words m.raw 0 5
  behind ← read_words m.raw 6 (j - 6)
  set_checksum m (complement (fold 2 (before + behind)))

-- The buffer is bytes and holds the header, which has an even length between 20 and 60: the
-- checksum is written, nothing else changes, the buffer keeps its length and holds bytes, and the
-- words of the new header fold to all ones, as a receiver checks.
pub update_checksum-verifies :
    {E : Type 0} ⦃order : ByteOrder⦄ (m : Ipv4HeaderMut) (n : ℕ)
    → m.header_data.header_length ≡ 2 * (6 + n)
    → 4 ≤ n
    → n ≤ 24
    → m.header_data.header_length ≤ length m.raw
    → All IsByte m.raw
    → (r : Ipv4HeaderMut) × (total : ℕ) × (update_checksum {E = E} m ≡ ok r)
      × (r.header_data ≡ m.header_data)
      × ((k : ℕ) → (k < 10) ⊎ (12 ≤ k) → byte r.raw k ≡ byte m.raw k)
      × (length r.raw ≡ length m.raw)
      × All IsByte r.raw
      × (read_words {E = E} r.raw 0 (m.header_data.header_length / 2) ≡ ok total)
      × (fold 2 total ≡ 2 ^ 16 - 1)
unfolding update_checksum set_checksum write_at
update_checksum-verifies {E} ⦃order⦄ m n e least most long small =
    let sum = words m.raw 0 5 + words m.raw 6 n in
    let bound : sum < 2 ^ 32 - 2 ^ 16 =
      omega (arith, words-le m.raw 0 5 small, words-le m.raw 6 n small) in
    let c = complement (fold 2 sum) in
    let c_small : c < 2 ^ 16 = omega (arith) in
    let fits : 12 + 2 * n ≤ length m.raw = omega arith in
    let raw = summed m.raw 5 c n fits c_small in
    let rest : m.header_data.header_length / 2 - 6 ≡ n = omega arith in
    let whole : m.header_data.header_length / 2 ≡ 6 + n = omega arith in
    let written : leb (10 + 2) (length m.raw) ≡ true = ground arith in
    let same : length raw ≡ length m.raw =
      length-copy_at 10 (c / 2 ^ 8 ∷ c % 2 ^ 8 ∷ []) m.raw (omega arith) in
    (
      record m { raw = raw },
      sum + c,
      rw
          (
            update_checksum,
            read_words-eq-ok {E = E} m.raw 0 5 (omega arith),
            rest,
            read_words-eq-ok {E = E} m.raw 6 n (omega arith),
            order.write_u16_lem c c_small,
            written,
          )
          refl,
      refl,
      (λ k apart. summed_elsewhere m.raw 5 c n fits c_small k apart),
      same,
      summed-IsByte m.raw 5 c n fits c_small small,
      rw whole (
          read_words-eq-ok {E = E} raw 0 (6 + n) (omega arith)
          ∙ ap ok (words-summed m.raw 5 c n fits c_small)),
      fold-complement sum bound,
    )
