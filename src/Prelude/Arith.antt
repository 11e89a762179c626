-- ===== src/Prelude/Arith.antt =====
-- Arithmetic that the components share.
use Prim.Native.Nat.{ℕ, ◌+◌, ◌-◌, ◌%◌, ◌<◌}
use mathlib.Core.Path.{◌≡◌}
use native.Mathlib.Nat.{mod-eq_of_lt, mod-eq-sub-mod}
use native.Mathlib.Decide.{dec_lt}
use native.Mathlib.Omega.{arith}
use harmony_os_reverse_tethe.Prelude.Tests.{ltb, if◌then◌else◌}

-- An index that has gone round a circular buffer at most once.
pub mod_wrap : (x n : ℕ) → x < n + n → x % n ≡ (if ltb x n then x else x - n)
mod_wrap x n h = elim (dec_lt x n) [
  | yes p ↦ ground (arith, mod-eq_of_lt p)
  | no p ↦ ground (
    arith,
    mod-eq-sub-mod {n = x} {m = n} (omega arith),
    mod-eq_of_lt {n = x - n} {m = n} (omega arith),
  )
]
