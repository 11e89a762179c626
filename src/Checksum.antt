-- ===== src/Checksum.antt =====
-- The Internet checksum, as relay/src/relay/ipv4_header.rs, tcp_header.rs and ipv6_packetizer.rs compute it: the sum of
-- 16-bit words in a `u32`, whose carries are folded back, in a loop on fuel. Two rounds are enough for any `u32`.
pub mod Words
use harmony_os_reverse_tethe.Prelude.{
  ℕ, zero, suc, ◌+◌, ◌-◌, ◌*◌, ◌/◌, ◌%◌, ◌^◌, ◌≤◌, ◌<◌, ◌≡◌, refl, List, [], ◌∷◌, ◌++◌, length,
  Bool, true, false, not, arith, ◌==◌, if◌then◌else◌,
}

-- `while (sum & !0xffff) != 0 { sum = (sum & 0xffff) + (sum >> 16); }`
unfoldable pub fold : ℕ → ℕ → ℕ
fold zero sum = sum
fold (suc fuel) sum = if sum / 2 ^ 16 == 0 then sum else fold fuel (sum % 2 ^ 16 + sum / 2 ^ 16)

-- `!sum as u16`
abbrev pub complement : ℕ → ℕ
complement sum = 2 ^ 16 - 1 - sum % 2 ^ 16

fold_small : (fuel sum : ℕ) → sum < 2 ^ 16 → fold fuel sum ≡ sum
unfolding fold
fold_small zero sum h = refl
fold_small (suc fuel) sum h = ground arith

-- The loop over a `u32` is over after two rounds; the result has sixteen bits and the residue of the sum modulo
-- 2 ^ 16 - 1, and is zero for zero only.
pub fold_ends :
    (fuel sum : ℕ)
    → sum < 2 ^ 32
    → (fold (2 + fuel) sum ≡ fold 2 sum)
      × (fold 2 sum < 2 ^ 16)
      × (fold 2 sum % (2 ^ 16 - 1) ≡ sum % (2 ^ 16 - 1))
      × (fold 2 sum ≡ 0 → sum ≡ 0)
unfolding fold
fold_ends fuel sum h =
    let once = sum % 2 ^ 16 + sum / 2 ^ 16 in
    ground (
      arith,
      fold_small fuel (once % 2 ^ 16 + once / 2 ^ 16),
      fold_small (1 + fuel) once,
      fold_small (2 + fuel) sum,
    )

-- The words of the bytes, high byte first; an odd last byte is a high one.
abbrev pub word_sum : List ℕ → ℕ
word_sum [] = 0
word_sum (a ∷ []) = a * 2 ^ 8
word_sum (a ∷ b ∷ raw) = a * 2 ^ 8 + b + word_sum raw

-- A receiver that adds the checksum to the sum that it was made of, and folds, gets all ones.
pub fold-complement :
    (sum : ℕ) → sum < 2 ^ 32 - 2 ^ 16 → fold 2 (sum + complement (fold 2 sum)) ≡ 2 ^ 16 - 1
unfolding fold
fold-complement sum h = ground arith

-- The sums of the bytes at even and at odd places, as tcp_header.rs keeps them apart.
unfoldable pub high_low : List ℕ → ℕ × ℕ
high_low [] = (0, 0)
high_low (a ∷ []) = (a, 0)
high_low (a ∷ b ∷ raw) = let rest = high_low raw in (a + rest.0, b + rest.1)

-- Adding the two sums, the high one shifted, is adding the words.
pub high_low-eq-word_sum :
    (raw : List ℕ) → (high_low raw).1 + (high_low raw).0 * 2 ^ 8 ≡ word_sum raw
unfolding high_low
high_low-eq-word_sum [] = refl
high_low-eq-word_sum (a ∷ []) = omega arith
high_low-eq-word_sum (a ∷ b ∷ raw) = omega (arith, high_low-eq-word_sum raw)
