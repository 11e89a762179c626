-- ===== src/Prelude/Slices.antt =====
-- What a copy into a buffer does to the slices of that buffer.
use Prim.Native.Nat.{ℕ, ◌+◌, ◌-◌, ◌≤◌}
use mathlib.Core.Path.{◌≡◌}
use mathlib.Core.Logic.{◌⊎◌}
use mathlib.Core.List.{List}
use native.Mathlib.Omega.{arith}
use harmony_os_reverse_tethe.Prelude.Lists.{length, slice, copy_at, drop, length-take, length-drop}
use harmony_os_reverse_tethe.Prelude.Pointwise.{list_ext, pointwise, get_elem?-ge}

module _ {A : Type 0} where
  pub slice-copy_at_self :
      (h : ℕ) (src buf : List A)
      → h + length src ≤ length buf
      → slice h (h + length src) (copy_at h src buf) ≡ src
  slice-copy_at_self h src buf fits =
      list_ext _ _ λ i. simp (pointwise, length-take) (ground (arith, get_elem?-ge src i))

  pub slice-copy_at_apart :
      (t e h : ℕ) (src buf : List A)
      → h + length src ≤ length buf
      → (e ≤ h) ⊎ (h + length src ≤ t)
      → slice t e (copy_at h src buf) ≡ slice t e buf
  slice-copy_at_apart t e h src buf fits apart =
      list_ext _ _ λ i. simp (pointwise, length-take) (ground arith)

  pub length-slice : (a b : ℕ) (xs : List A) → a ≤ b → b ≤ length xs → length (slice a b xs) ≡ b - a
  length-slice a b xs h k = ground (arith, length-take (b - a) (drop a xs), length-drop a xs)
