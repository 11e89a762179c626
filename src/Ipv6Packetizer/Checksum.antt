-- ===== src/Ipv6Packetizer/Checksum.antt =====
-- The transport checksum of relay/src/relay/ipv6_packetizer.rs: what a receiver's sum is once the field is written.
use harmony_os_reverse_tethe.Prelude.{
  ℕ, ◌+◌, ◌*◌, ◌-◌, ◌^◌, ◌≤◌, ◌<◌, ◌≡◌, sym, ap, ◌∙◌, ◌⊎◌, List, [], ◌∷◌, ◌++◌, length, All, byte,
  take_all, arith,
}
use harmony_os_reverse_tethe.IpPacket.Framing.{IsByte}
use harmony_os_reverse_tethe.Checksum.{fold, complement, fold-complement, word_sum}
use harmony_os_reverse_tethe.Checksum.Words.{
  words, word_sum-take, summed, summed-IsByte, summed_elsewhere, words-summed, length-summed,
  long_again, words-summed_again,
}
use harmony_os_reverse_tethe.Ipv4Header.{Protocol}
use harmony_os_reverse_tethe.Ipv6Packetizer.{sent_checksum}

-- All ones is the other zero: what is sent in its place has the same sum.
pub fold-sent_checksum :
    (p : Protocol) (sum : ℕ)
    → sum < 2 ^ 32 - 2 ^ 16
    → fold 2 (sum + sent_checksum p (complement (fold 2 sum))) ≡ 2 ^ 16 - 1
unfolding sent_checksum
fold-sent_checksum Protocol.tcp sum h = fold-complement sum h
fold-sent_checksum Protocol.udp sum h = unfold fold in ground arith
fold-sent_checksum Protocol.other sum h = fold-complement sum h

pub sent_checksum-lt : (p : Protocol) (c : ℕ) → c < 2 ^ 16 → sent_checksum p c < 2 ^ 16
unfolding sent_checksum
sent_checksum-lt Protocol.tcp c h = h
sent_checksum-lt Protocol.udp c h = ground arith
sent_checksum-lt Protocol.other c h = h

-- Behind a list of an even length the words start afresh.
pub word_sum-append :
    (m : ℕ) (a b : List ℕ) → length a ≡ 2 * m → word_sum (a ++ b) ≡ word_sum a + word_sum b
word_sum-append m [] b h = omega arith
word_sum-append m (x ∷ []) b h = absurd (omega arith)
word_sum-append m (x ∷ y ∷ a) b h = omega (arith, word_sum-append (m - 1) a b (omega arith))

module _ (raw payload : List ℕ) (f c n : ℕ) (long : 2 * f + 2 + 2 * n ≤ length raw)
    (zero_small : 0 < 2 ^ 16) (small : c < 2 ^ 16) (whole : length raw ≡ 2 * (f + 1 + n)) where
  -- The field is reset, and then written.
  abbrev pub reset : List ℕ
  reset = summed raw f 0 n long zero_small

  abbrev pub written : List ℕ
  written = summed reset f c n (long_again raw f 0 c n long zero_small small) small

  pub length-reset : length reset ≡ length raw
  length-reset = length-summed raw f 0 c n long zero_small small

  pub length-written : length written ≡ length raw
  length-written =
      length-summed reset f c 0 n (long_again raw f 0 c n long zero_small small) small zero_small
      ∙ length-reset

  sum-words : (xs : List ℕ) → length xs ≡ length raw → word_sum xs ≡ words xs 0 (f + 1 + n)
  sum-words xs same =
      ap word_sum (sym (take_all (2 * (f + 1 + n)) xs (omega arith)))
      ∙ word_sum-take xs (f + 1 + n) (omega arith)

  -- The field adds its value to the sum over header and payload.
  pub word_sum-written : word_sum (written ++ payload) ≡ word_sum (reset ++ payload) + c
  word_sum-written = omega (
    arith,
    word_sum-append (f + 1 + n) written payload (length-written ∙ whole),
    word_sum-append (f + 1 + n) reset payload (length-reset ∙ whole),
    sum-words written length-written,
    sum-words reset length-reset,
    words-summed raw f 0 n long zero_small,
    words-summed_again raw f 0 c n long zero_small small,
  )

  pub written_elsewhere : (k : ℕ) → (k < 2 * f) ⊎ (2 * f + 2 ≤ k) → byte written k ≡ byte raw k
  written_elsewhere k apart =
      summed_elsewhere reset f c n (long_again raw f 0 c n long zero_small small) small k apart
      ∙ summed_elsewhere raw f 0 n long zero_small k apart

  pub written-IsByte : All IsByte raw → All IsByte written
  written-IsByte h =
      summed-IsByte reset f c n (long_again raw f 0 c n long zero_small small) small
        (summed-IsByte raw f 0 n long zero_small h)
