-- ===== src/ByteOrder.antt =====
-- The `byteorder` crate, which the relay calls as `BigEndian::read_u16` and so on: an interface
-- with its documented behaviour, and an instance that meets it.
use harmony_os_reverse_tethe.Prelude.{
  ℕ, zero, suc, ◌+◌, ◌*◌, ◌/◌, ◌%◌, ◌^◌, ◌≤◌, ◌<◌, ◌≡◌, refl, ap, ◌∙◌, List, [], ◌∷◌, arith, take,
  drop, get_or, length, Outcome, ok, ◌>>=◌, subslice, subslice-eq-ok,
}

-- A reader takes the slice that it is given, and a writer gives the bytes that it stores.
pub record ByteOrder : Type 0 where
  pub read_u16 : List ℕ → ℕ
  pub read_u32 : List ℕ → ℕ
  pub write_u16 : ℕ → List ℕ
  pub write_u32 : ℕ → List ℕ
  pub read_u16_lem : (a b : ℕ) → read_u16 (a ∷ b ∷ []) ≡ a * 2 ^ 8 + b
  pub read_u32_lem :
      (a b c d : ℕ) → read_u32 (a ∷ b ∷ c ∷ d ∷ []) ≡ a * 2 ^ 24 + b * 2 ^ 16 + c * 2 ^ 8 + d
  pub write_u16_lem : (v : ℕ) → v < 2 ^ 16 → write_u16 v ≡ v / 2 ^ 8 ∷ v % 2 ^ 8 ∷ []
  pub write_u32_lem :
      (v : ℕ)
      → v < 2 ^ 32
      → write_u32 v ≡ v / 2 ^ 24 ∷ v / 2 ^ 16 % 2 ^ 8 ∷ v / 2 ^ 8 % 2 ^ 8 ∷ v % 2 ^ 8 ∷ []

abbrev pub byte_at : List ℕ → ℕ → ℕ
byte_at raw i = get_or raw i 0

instance abbrev pub big_endian : ByteOrder
big_endian = record {
  read_u16 = λ raw. byte_at raw 0 * 2 ^ 8 + byte_at raw 1;
  read_u32 = λ raw.
      byte_at raw 0 * 2 ^ 24 + byte_at raw 1 * 2 ^ 16 + byte_at raw 2 * 2 ^ 8 + byte_at raw 3;
  write_u16 = λ v. v / 2 ^ 8 ∷ v % 2 ^ 8 ∷ [];
  write_u32 = λ v. v / 2 ^ 24 ∷ v / 2 ^ 16 % 2 ^ 8 ∷ v / 2 ^ 8 % 2 ^ 8 ∷ v % 2 ^ 8 ∷ [];
  read_u16_lem = λ a b. refl;
  read_u32_lem = λ a b c d. refl;
  write_u16_lem = λ v h. refl;
  write_u32_lem = λ v h. refl;
}

-- The value of two or four bytes at an index, high byte first.
abbrev pub u16_at : List ℕ → ℕ → ℕ
u16_at raw i = byte_at raw i * 2 ^ 8 + byte_at raw (i + 1)

abbrev pub u32_at : List ℕ → ℕ → ℕ
u32_at raw i =
    byte_at raw i * 2 ^ 24
    + byte_at raw (i + 1) * 2 ^ 16
    + byte_at raw (i + 2) * 2 ^ 8
    + byte_at raw (i + 3)

take_two :
    (i : ℕ) (raw : List ℕ)
    → i + 2 ≤ length raw
    → take 2 (drop i raw) ≡ byte_at raw i ∷ byte_at raw (i + 1) ∷ []
take_two zero [] h = absurd (omega arith)
take_two zero (a ∷ []) h = absurd (omega arith)
take_two zero (a ∷ b ∷ raw) h = refl
take_two (suc i) [] h = absurd (omega arith)
take_two (suc i) (a ∷ raw) h = ground (arith, take_two i raw)

take_four :
    (i : ℕ) (raw : List ℕ)
    → i + 4 ≤ length raw
    → take 4 (drop i raw)
      ≡ byte_at raw i ∷ byte_at raw (i + 1) ∷ byte_at raw (i + 2) ∷ byte_at raw (i + 3) ∷ []
take_four zero [] h = absurd (omega arith)
take_four zero (a ∷ []) h = absurd (omega arith)
take_four zero (a ∷ b ∷ []) h = absurd (omega arith)
take_four zero (a ∷ b ∷ c ∷ []) h = absurd (omega arith)
take_four zero (a ∷ b ∷ c ∷ d ∷ raw) h = refl
take_four (suc i) [] h = absurd (omega arith)
take_four (suc i) (a ∷ raw) h = ground (arith, take_four i raw)

module _ {E : Type 0} ⦃order : ByteOrder⦄ (raw : List ℕ) (i : ℕ) where
  -- `BigEndian::read_u16(&raw[i..i + 2])`, and the same of four bytes.
  unfoldable pub read_u16_at : Outcome E ℕ
  read_u16_at = do s ← subslice raw i (i + 2); ok (order.read_u16 s)

  unfoldable pub read_u32_at : Outcome E ℕ
  read_u32_at = do s ← subslice raw i (i + 4); ok (order.read_u32 s)

  pub read_u16_at-eq-ok : i + 2 ≤ length raw → read_u16_at ≡ ok (u16_at raw i)
  unfolding read_u16_at
  read_u16_at-eq-ok h = rw (subslice-eq-ok {E = E} raw i (i + 2) (omega arith) h) (
      ap ok (
        ap order.read_u16 (ap (λ n. take n (drop i raw)) {y = 2} (omega arith) ∙ take_two i raw h)
        ∙ order.read_u16_lem _ _))

  pub read_u32_at-eq-ok : i + 4 ≤ length raw → read_u32_at ≡ ok (u32_at raw i)
  unfolding read_u32_at
  read_u32_at-eq-ok h = rw (subslice-eq-ok {E = E} raw i (i + 4) (omega arith) h) (
      ap ok (
        ap order.read_u32 (ap (λ n. take n (drop i raw)) {y = 4} (omega arith) ∙ take_four i raw h)
        ∙ order.read_u32_lem _ _ _ _))
