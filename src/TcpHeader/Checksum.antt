-- ===== src/TcpHeader/Checksum.antt =====
-- `update_checksum` of relay/src/relay/tcp_header.rs, and the segment that a receiver sees. The debug assertions and
-- the overflow checks of the lengths are kept; the header is read through a pointer in the source, here as a slice.
use harmony_os_reverse_tethe.Prelude.{
  ℕ, ◌+◌, ◌-◌, ◌*◌, ◌/◌, ◌%◌, ◌^◌, ◌≤◌, ◌<◌, ◌≡◌, refl, sym, ap, ◌∙◌, ◌⊎◌, List, [], ◌∷◌, length,
  All, byte, take, copy_at, true, ◌&&◌, ◌==◌, arith, leb, Outcome, ok, ◌>>=◌, ◌>>◌, assert,
  write_at, subslice, subslice_front,
}
use harmony_os_reverse_tethe.ByteOrder.{ByteOrder}
use harmony_os_reverse_tethe.IpPacket.Framing.{IsByte}
use harmony_os_reverse_tethe.Ipv4Header.{Ipv4HeaderData}
use harmony_os_reverse_tethe.Checksum.{
  fold, complement, fold-complement, word_sum, high_low, high_low-eq-word_sum,
}
use harmony_os_reverse_tethe.Checksum.Words.{
  words, words-le, word_sum-take, word_sum-le, summed, summed-IsByte, summed_elsewhere,
  words-summed, length-summed, long_again, words-summed_again,
}
use harmony_os_reverse_tethe.TcpHeader.Edit.{TcpHeaderMut, set_checksum}

-- The pseudo header of a segment of this many bytes.
abbrev pub pseudo_sum : Ipv4HeaderData → ℕ → ℕ
pseudo_sum ip transport_length =
    6
    + ip.source / 2 ^ 16
    + ip.source % 2 ^ 16
    + ip.destination / 2 ^ 16
    + ip.destination % 2 ^ 16
    + transport_length

unfoldable pub update_checksum :
    {E : Type 0} ⦃order : ByteOrder⦄
    → TcpHeaderMut
    → Ipv4HeaderData
    → List ℕ
    → Outcome E TcpHeaderMut
unfolding set_checksum fold high_low
update_checksum m ip payload = do
  assert (leb ip.header_length ip.total_length)
  let transport_length = ip.total_length - ip.header_length
  let header_length = m.header_data.header_length
  assert (header_length % 2 == 0 && leb 20 header_length)
  assert (leb header_length transport_length)
  let payload_length = transport_length - header_length
  assert (payload_length == length payload)
  reset ← set_checksum m 0
  header ← subslice reset.raw 0 header_length
  let h = high_low header
  let p = high_low payload
  let sum = pseudo_sum ip transport_length + h.1 + p.1 + (h.0 + p.0) * 2 ^ 8
  set_checksum reset (complement (fold 2 sum))

set_checksum-eq-ok :
    {E : Type 0} ⦃order : ByteOrder⦄ (m : TcpHeaderMut) (c : ℕ)
    → 18 ≤ length m.raw
    → c < 2 ^ 16
    → set_checksum {E = E} m c
      ≡ ok (record m { raw = copy_at 16 (c / 2 ^ 8 ∷ c % 2 ^ 8 ∷ []) m.raw })
unfolding set_checksum write_at
set_checksum-eq-ok {E} ⦃order⦄ m c long small =
    let written : leb (16 + 2) (length m.raw) ≡ true = ground arith in
    rw (set_checksum, order.write_u16_lem c small, written) refl

-- What the code computes, given the sum of its words.
update_checksum-eq-ok :
    {E : Type 0} ⦃order : ByteOrder⦄ (m : TcpHeaderMut) (ip : Ipv4HeaderData) (payload : List ℕ)
    (n c : ℕ)
    → m.header_data.header_length ≡ 2 * (9 + n)
    → 1 ≤ n
    → m.header_data.header_length ≤ length m.raw
    → ip.total_length ≡ ip.header_length + m.header_data.header_length + length payload
    → c < 2 ^ 16
    → (reset : List ℕ) → copy_at 16 (0 ∷ 0 ∷ []) m.raw ≡ reset
    → length reset ≡ length m.raw
    → c
      ≡ complement (
          fold 2 (
            pseudo_sum ip (m.header_data.header_length + length payload)
            + word_sum (take m.header_data.header_length reset)
            + word_sum payload))
    → update_checksum {E = E} m ip payload
      ≡ ok (record m { raw = copy_at 16 (c / 2 ^ 8 ∷ c % 2 ^ 8 ∷ []) reset })
unfolding update_checksum
update_checksum-eq-ok {E} m ip payload n c e least long counts small reset is_reset same is_sum =
    let header_length = m.header_data.header_length in
    let a : leb ip.header_length ip.total_length ≡ true = ground arith in
    let b : (header_length % 2 == 0 && leb 20 header_length) ≡ true = ground arith in
    let f : ip.total_length - ip.header_length ≡ header_length + length payload = omega arith in
    let g : leb header_length (header_length + length payload) ≡ true = ground arith in
    let h : (header_length + length payload - header_length == length payload) ≡ true =
      ground arith in
    let first = set_checksum-eq-ok {E = E} m 0 (omega arith) (omega arith) in
    let header = subslice_front {E = E} reset header_length (omega arith) in
    let last = set_checksum-eq-ok {E = E} (record m { raw = reset }) c (omega arith) small in
    let hs = high_low (take header_length reset) in
    let ps = high_low payload in
    let sums : pseudo_sum ip (header_length + length payload) + hs.1 + ps.1 + (hs.0 + ps.0) * 2 ^ 8
        ≡ pseudo_sum ip (header_length + length payload)
          + word_sum (take header_length reset)
          + word_sum payload =
      omega
        (arith, high_low-eq-word_sum (take header_length reset), high_low-eq-word_sum payload) in
    rw (update_checksum, a, b, f, g, h, first, is_reset, header)
      (ap (set_checksum (record m { raw = reset }))
          (ap (λ k. complement (fold 2 k)) sums ∙ sym is_sum)
        ∙ last)

-- The header and the payload are bytes, the header of an even length between 20 and 60, the
-- buffer holds it, and the IPv4 header has addresses of 32 bits and a length of 16 bits that
-- counts both headers and the payload: the checksum is written, nothing else changes, the buffer
-- keeps its length and holds bytes, and
-- pseudo header, header and payload fold to all ones.
pub update_tcp_checksum-verifies :
    {E : Type 0} ⦃order : ByteOrder⦄ (m : TcpHeaderMut) (ip : Ipv4HeaderData) (payload : List ℕ)
    (n : ℕ)
    → m.header_data.header_length ≡ 2 * (9 + n)
    → 1 ≤ n
    → n ≤ 21
    → m.header_data.header_length ≤ length m.raw
    → ip.total_length ≡ ip.header_length + m.header_data.header_length + length payload
    → ip.total_length < 2 ^ 16
    → ip.source < 2 ^ 32
    → ip.destination < 2 ^ 32
    → All IsByte m.raw
    → All IsByte payload
    → (r : TcpHeaderMut) × (update_checksum {E = E} m ip payload ≡ ok r)
      × (r.header_data ≡ m.header_data)
      × ((k : ℕ) → (k < 16) ⊎ (18 ≤ k) → byte r.raw k ≡ byte m.raw k)
      × (length r.raw ≡ length m.raw)
      × All IsByte r.raw
      × (fold 2 (
            pseudo_sum ip (m.header_data.header_length + length payload)
            + word_sum (take m.header_data.header_length r.raw)
            + word_sum payload)
          ≡ 2 ^ 16 - 1)
unfolding update_checksum
update_tcp_checksum-verifies {E} ⦃order⦄ m ip payload n e least most long counts total s d small
      bytes =
    let raw = m.raw in
    let fits : 2 * 8 + 2 + 2 * n ≤ length raw = omega arith in
    let zero_small : 0 < 2 ^ 16 = omega arith in
    let reset = summed raw 8 0 n fits zero_small in
    let same : length reset ≡ length raw = length-summed raw 8 0 0 n fits zero_small zero_small in
    let transport = m.header_data.header_length + length payload in
    let sum = pseudo_sum ip transport + (words raw 0 8 + words raw 9 n) + word_sum payload in
    let bound : sum < 2 ^ 32 - 2 ^ 16 =
      omega (arith, words-le raw 0 8 small, words-le raw 9 n small, word_sum-le payload bytes) in
    let c = complement (fold 2 sum) in
    let c_small : c < 2 ^ 16 = omega arith in
    let again = long_again raw 8 0 c n fits zero_small c_small in
    let after = summed reset 8 c n again c_small in
    let whole : m.header_data.header_length ≡ 2 * (8 + 1 + n) = omega arith in
    let header_words : word_sum (take m.header_data.header_length reset)
        ≡ words raw 0 8 + words raw 9 n =
      ap (λ k. word_sum (take k reset)) whole
      ∙ word_sum-take reset (8 + 1 + n) (omega arith)
      ∙ words-summed raw 8 0 n fits zero_small
      ∙ omega arith in
    let after_words : word_sum (take m.header_data.header_length after)
        ≡ words raw 0 8 + words raw 9 n + c =
      ap (λ k. word_sum (take k after)) whole
      ∙ word_sum-take after (8 + 1 + n)
          (omega (arith, length-summed reset 8 c c n again c_small c_small))
      ∙ words-summed_again raw 8 0 c n fits zero_small c_small in
    (
      record m { raw = after },
      update_checksum-eq-ok m ip payload n c e least long counts c_small reset refl same (
          ap (λ k. complement (fold 2 k)) {x = sum}
            {y = pseudo_sum ip transport
              + word_sum (take m.header_data.header_length reset)
              + word_sum payload}
            (omega (arith, header_words))),
      refl,
      λ k apart.
          summed_elsewhere reset 8 c n again c_small k apart
          ∙ summed_elsewhere raw 8 0 n fits zero_small k apart,
      length-summed reset 8 c c n again c_small c_small ∙ same,
      summed-IsByte reset 8 c n again c_small (summed-IsByte raw 8 0 n fits zero_small small),
      ap (fold 2)
            {x = pseudo_sum ip transport
              + word_sum (take m.header_data.header_length after)
              + word_sum payload}
            {y = sum + c} (omega (arith, after_words))
          ∙ fold-complement sum bound,
    )
