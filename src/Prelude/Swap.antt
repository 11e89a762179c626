-- ===== src/Prelude/Swap.antt =====
-- What `raw.swap(i, j)` does to the bytes.
use Prim.Native.Nat.{ℕ, zero, suc, ◌+◌, ◌≤◌, ◌<◌}
use mathlib.Core.Path.{◌≡◌, refl, ap, ◌∙◌}
use mathlib.Core.Bool.{true}
use mathlib.Core.List.{List, [], ◌∷◌, ◌++◌}
use native.Mathlib.Omega.{arith}
use harmony_os_reverse_tethe.Prelude.Tests.{◌==◌, leb, if◌then◌else◌}
use harmony_os_reverse_tethe.Prelude.Lists.{length, take, drop, copy_at, length-copy_at}
use harmony_os_reverse_tethe.Prelude.Rust.{ok, byte, index-eq-ok, write_at, swap_at}

-- By the index behind the byte.
byte-put :
    (i e a k : ℕ) (raw : List ℕ)
    → e ≡ i + 1
    → e ≤ length raw
    → byte (take i raw ++ (a ∷ drop e raw)) k ≡ (if k == i then a else byte raw k)
byte-put zero e a k [] s h = absurd (omega arith)
byte-put zero zero a k (x ∷ raw) s h = absurd (omega arith)
byte-put zero (suc zero) a zero (x ∷ raw) s h = ground arith
byte-put zero (suc zero) a (suc k) (x ∷ raw) s h = ground arith
byte-put zero (suc (suc e)) a k (x ∷ raw) s h = absurd (omega arith)
byte-put (suc i) zero a k raw s h = absurd (omega arith)
byte-put (suc i) (suc e) a k [] s h = absurd (omega arith)
byte-put (suc i) (suc e) a zero (x ∷ raw) s h = ground arith
byte-put (suc i) (suc e) a (suc k) (x ∷ raw) s h = ground (arith, byte-put i e a k raw)

-- `r` is `raw` with the bytes at `i` and `j` exchanged.
pub record IsSwap (raw : List ℕ) (i j : ℕ) (r : List ℕ) : Type 1 where
  pub runs : {E : Type 0} → swap_at {E = E} raw i j ≡ ok r
  pub same : length r ≡ length raw
  pub at :
      (k : ℕ)
      → byte r k ≡ (if k == j then byte raw i else if k == i then byte raw j else byte raw k)

module _ (raw : List ℕ) (i j : ℕ) (i_in : i < length raw) (j_in : j < length raw) where
  abbrev pub swapped : List ℕ
  swapped = copy_at j (byte raw i ∷ []) (copy_at i (byte raw j ∷ []) raw)

  length-once : length (copy_at i (byte raw j ∷ []) raw) ≡ length raw
  length-once = length-copy_at i (byte raw j ∷ []) raw (omega arith)

  length-swapped : length swapped ≡ length raw
  length-swapped =
      length-copy_at j (byte raw i ∷ []) (copy_at i (byte raw j ∷ []) raw)
        (omega (arith, length-once))
      ∙ length-once

  byte-swapped :
      (k : ℕ)
      → byte swapped k ≡ (if k == j then byte raw i else if k == i then byte raw j else byte raw k)
  byte-swapped k =
      byte-put j (j + 1) (byte raw i) k (copy_at i (byte raw j ∷ []) raw) refl
        (omega (arith, length-once))
      ∙ ap (λ b. if k == j then byte raw i else b)
          (byte-put i (i + 1) (byte raw j) k raw refl (omega arith))

  swap_at-eq-ok : {E : Type 0} → swap_at {E = E} raw i j ≡ ok swapped
  unfolding swap_at write_at
  swap_at-eq-ok {E} =
      let once_fits : leb (i + 1) (length raw) ≡ true = ground arith in
      let twice_fits : leb (j + 1) (length (copy_at i (byte raw j ∷ []) raw)) ≡ true =
        ground (arith, length-once) in
      rw
        (
          swap_at,
          index-eq-ok {E = E} raw i i_in,
          index-eq-ok {E = E} raw j j_in,
          once_fits,
          twice_fits,
        )
        refl

  pub swap_at_lem : (r : List ℕ) × IsSwap raw i j r
  swap_at_lem = (
    swapped,
    record { runs = λ {E}. swap_at-eq-ok {E = E}; same = length-swapped; at = byte-swapped },
  )

-- Indices in front of both are not touched.
pub IsSwap-below :
    {raw r : List ℕ} {i j : ℕ} → IsSwap raw i j r → (k : ℕ) → k < i → k < j → byte r k ≡ byte raw k
IsSwap-below s k h l = s.at k ∙ ground arith
