-- ===== src/Checksum/Words.antt =====
-- Sums of the 16-bit words of a buffer by their indices, and what a write into the buffer does to them.
use harmony_os_reverse_tethe.Prelude.{
  ℕ, zero, suc, ◌+◌, ◌-◌, ◌*◌, ◌/◌, ◌%◌, ◌^◌, ◌≤◌, ◌<◌, ◌≡◌, refl, ap, ◌∙◌, List, [], ◌∷◌, ◌++◌,
  length, take, drop, copy_at, All, byte, ◌⊎◌, inl, inr, ◌==◌, if◌then◌else◌, arith, Outcome, ok,
  ◌>>=◌, length-copy_at,
}
use harmony_os_reverse_tethe.Prelude.Layout.{All-copy_at}
use harmony_os_reverse_tethe.ByteOrder.{ByteOrder, u16_at, read_u16_at, read_u16_at-eq-ok}
use harmony_os_reverse_tethe.Checksum.{word_sum}
use harmony_os_reverse_tethe.IpPacket.Framing.{IsByte, byte-lt}

-- The sum of `n` words from the word at index `i`.
abbrev pub words : List ℕ → ℕ → ℕ → ℕ
words raw i zero = 0
words raw i (suc n) = u16_at raw (2 * i) + words raw (i + 1) n

-- As the source reads them.
unfoldable pub read_words : {E : Type 0} ⦃order : ByteOrder⦄ → List ℕ → ℕ → ℕ → Outcome E ℕ
read_words raw i zero = ok 0
read_words raw i (suc n) = do
  word ← read_u16_at raw (2 * i)
  rest ← read_words raw (i + 1) n
  ok (word + rest)

pub read_words-eq-ok :
    {E : Type 0} ⦃order : ByteOrder⦄ (raw : List ℕ) (i n : ℕ)
    → 2 * (i + n) ≤ length raw
    → read_words {E = E} raw i n ≡ ok (words raw i n)
unfolding read_words
read_words-eq-ok raw i zero h = refl
read_words-eq-ok {E} raw i (suc n) h =
    rw
      (
        read_words,
        read_u16_at-eq-ok {E = E} raw (2 * i) (omega arith),
        read_words-eq-ok {E = E} raw (i + 1) n (omega arith),
      )
      refl

pub words-add :
    (raw : List ℕ) (i n m : ℕ) → words raw i (n + m) ≡ words raw i n + words raw (i + n) m
words-add raw i zero m = omega (
  arith,
  ap (λ j. words raw i j) {x = 0 + m} {y = m} (omega arith),
  ap (λ j. words raw j m) {x = i + 0} {y = i} (omega arith),
)
words-add raw i (suc n) m = omega (
  arith,
  words-add raw (i + 1) n m,
  ap (λ j. words raw i j) {x = suc n + m} {y = suc (n + m)} (omega arith),
  ap (λ j. words raw j m) {x = i + 1 + n} {y = i + suc n} (omega arith),
)

pub words-le : (raw : List ℕ) (i n : ℕ) → All IsByte raw → words raw i n ≤ n * (2 ^ 16 - 1)
words-le raw i zero h = omega arith
words-le raw i (suc n) h =
    omega (arith, words-le raw (i + 1) n h, byte-lt raw (2 * i) h, byte-lt raw (2 * i + 1) h)

-- Buffers that agree on the bytes of the words.
pub words-same :
    (raw other : List ℕ) (i n : ℕ)
    → ((k : ℕ) → 2 * i ≤ k → k < 2 * (i + n) → byte raw k ≡ byte other k)
    → words raw i n ≡ words other i n
words-same raw other i zero h = refl
words-same raw other i (suc n) h = omega (
  arith,
  h (2 * i) (omega arith) (omega arith),
  h (2 * i + 1) (omega arith) (omega arith),
  words-same raw other (i + 1) n (λ k a b. h k (omega arith) (omega arith)),
)

get_or-drop : (n k : ℕ) (raw : List ℕ) → byte (drop n raw) k ≡ byte raw (n + k)
get_or-drop zero k raw = ap (byte raw) (omega arith)
get_or-drop (suc n) k [] = refl
get_or-drop (suc n) k (x ∷ raw) =
    get_or-drop n k raw ∙ ap (byte (x ∷ raw)) {x = suc (n + k)} (omega arith)

-- By the index behind the word.
byte-put :
    (i e a b k : ℕ) (raw : List ℕ)
    → e ≡ i + 2
    → e ≤ length raw
    → byte (take i raw ++ (a ∷ b ∷ drop e raw)) k
      ≡ (if k == i then a else (if k == i + 1 then b else byte raw k))
byte-put zero e a b zero raw s h = ground arith
byte-put zero e a b (suc zero) raw s h = ground arith
byte-put zero e a b (suc (suc k)) raw s h =
    ground (arith, get_or-drop e k raw, ap (byte raw) {x = e + k} {y = suc (suc k)} (omega arith))
byte-put (suc i) zero a b k raw s h = absurd (omega arith)
byte-put (suc i) (suc e) a b k [] s h = absurd (omega arith)
byte-put (suc i) (suc e) a b zero (x ∷ raw) s h = ground arith
byte-put (suc i) (suc e) a b (suc k) (x ∷ raw) s h = ground (arith, byte-put i e a b k raw)

-- A word that is written at `i`.
pub byte-copy_at :
    (i a b k : ℕ) (raw : List ℕ)
    → i + 2 ≤ length raw
    → byte (copy_at i (a ∷ b ∷ []) raw) k
      ≡ (if k == i then a else (if k == i + 1 then b else byte raw k))
byte-copy_at i a b k raw h = byte-put i (i + 2) a b k raw refl h

module _ (raw : List ℕ) (f c n : ℕ) (long : 2 * f + 2 + 2 * n ≤ length raw)
    (small : c < 2 ^ 16) where
  -- The buffer with `c` for the word at index `f`.
  abbrev pub summed : List ℕ
  summed = copy_at (2 * f) (c / 2 ^ 8 ∷ c % 2 ^ 8 ∷ []) raw

  pub summed-IsByte : All IsByte raw → All IsByte summed
  summed-IsByte h = All-copy_at IsByte (2 * f) (c / 2 ^ 8 ∷ c % 2 ^ 8 ∷ []) raw (omega arith) h

  pub summed_elsewhere : (k : ℕ) → (k < 2 * f) ⊎ (2 * f + 2 ≤ k) → byte summed k ≡ byte raw k
  summed_elsewhere k apart = ground (arith, byte-copy_at (2 * f) (c / 2 ^ 8) (c % 2 ^ 8) k raw)

  summed_field : u16_at summed (2 * f) ≡ c
  summed_field = ground (
    arith,
    byte-copy_at (2 * f) (c / 2 ^ 8) (c % 2 ^ 8) (2 * f) raw,
    byte-copy_at (2 * f) (c / 2 ^ 8) (c % 2 ^ 8) (2 * f + 1) raw,
  )

  pub words-summed : words summed 0 (f + 1 + n) ≡ words raw 0 f + words raw (f + 1) n + c
  words-summed = omega (
    arith,
    words-add summed 0 f (1 + n),
    words-add summed f 1 n,
    ap (λ i. words summed i (1 + n)) {x = 0 + f} {y = f} (omega arith),
    words-same summed raw 0 f (λ k a b. summed_elsewhere k (inl (omega arith))),
    words-same summed raw (f + 1) n (λ k a b. summed_elsewhere k (inr (omega arith))),
    ap (words summed 0) {x = f + (1 + n)} {y = f + 1 + n} (omega arith),
    summed_field,
  )

module _ (raw : List ℕ) (f d c n : ℕ) (long : 2 * f + 2 + 2 * n ≤ length raw) (d_small : d < 2 ^ 16)
    (small : c < 2 ^ 16) where
  -- The word is written twice.
  pub length-summed : length (summed raw f d n long d_small) ≡ length raw
  length-summed = length-copy_at (2 * f) (d / 2 ^ 8 ∷ d % 2 ^ 8 ∷ []) raw (omega arith)

  pub long_again : 2 * f + 2 + 2 * n ≤ length (summed raw f d n long d_small)
  long_again = omega (arith, length-summed)

  pub words-summed_again :
      words (summed (summed raw f d n long d_small) f c n long_again small) 0 (f + 1 + n)
      ≡ words raw 0 f + words raw (f + 1) n + c
  words-summed_again = omega (
    arith,
    words-summed (summed raw f d n long d_small) f c n long_again small,
    words-same (summed raw f d n long d_small) raw 0 f
        (λ k a b. summed_elsewhere raw f d n long d_small k (inl (omega arith))),
    words-same (summed raw f d n long d_small) raw (f + 1) n
        (λ k a b. summed_elsewhere raw f d n long d_small k (inr (omega arith))),
  )

words-cons : (a b : ℕ) (raw : List ℕ) (i n : ℕ) → words (a ∷ b ∷ raw) (i + 1) n ≡ words raw i n
words-cons a b raw i zero = refl
words-cons a b raw i (suc n) = omega (
  arith,
  words-cons a b raw (i + 1) n,
  ap (byte (a ∷ b ∷ raw)) {x = 2 * (i + 1)} {y = suc (suc (2 * i))} (omega arith),
  ap (byte (a ∷ b ∷ raw)) {x = 2 * (i + 1) + 1} {y = suc (suc (2 * i + 1))} (omega arith),
)

-- The words of the bytes in front, by indices and by the list.
pub word_sum-take :
    (raw : List ℕ) (n : ℕ) → 2 * n ≤ length raw → word_sum (take (2 * n) raw) ≡ words raw 0 n
word_sum-take raw zero h = refl
word_sum-take [] (suc n) h = absurd (omega arith)
word_sum-take (a ∷ []) (suc n) h = absurd (omega arith)
word_sum-take (a ∷ b ∷ raw) (suc n) h = omega (
  arith,
  word_sum-take raw n (omega arith),
  words-cons a b raw 0 n,
  ap (λ k. word_sum (take k (a ∷ b ∷ raw))) {x = 2 * suc n} {y = suc (suc (2 * n))} (omega arith),
)

pub word_sum-le :
    (raw : List ℕ) → All IsByte raw → 2 * word_sum raw ≤ (length raw + 1) * (2 ^ 16 - 1)
word_sum-le [] h = omega arith
word_sum-le (a ∷ []) h = omega (arith, h.0)
word_sum-le (a ∷ b ∷ raw) (p, (q, h)) = omega (arith, p, q, word_sum-le raw h)
