-- ===== src/Prelude/Rust.antt =====
-- The result of Rust code that may return an error or panic, and checked access to byte slices.
use Prim.Native.Nat.{ℕ, ◌+◌, ◌≤◌, ◌<◌}
use mathlib.Core.Path.{◌≡◌, refl, ap}
use mathlib.Core.Logic.{◌≢◌, ◌⊎◌, inl, inr}
use mathlib.Core.Bool.{Bool, true, false, ◌&&◌}
use mathlib.Core.Option.{Option, none, some}
use mathlib.Core.List.{List, [], ◌∷◌}
use native.Mathlib.Omega.{arith}
use harmony_os_reverse_tethe.Prelude.Tests.{leb, ◌==◌, if◌then◌else◌}
use harmony_os_reverse_tethe.Prelude.Lists.{
  length, get_elem?, get_or, slice, take, get_elem?-eq-get_or, copy_at,
}

-- `panic` is an index out of range, a failed `assert!` or `expect`.
pub data Outcome {ℓ} (E : Type 0) (A : Type ℓ) : Type ℓ where
  ok : A → Outcome E A
  err : E → Outcome E A
  panic : Outcome E A

infixl 5 ◌>>=◌ ◌>>◌
abbrev pub ◌>>=◌ {ℓ κ} :
    {E : Type 0} {A : Type ℓ} {B : Type κ} → Outcome E A → (A → Outcome E B) → Outcome E B
panic >>= rest = panic
err reason >>= rest = err reason
ok value >>= rest = rest value

-- `assert!(b)`.
abbrev pub assert : {E : Type 0} → Bool → Outcome E (Unit {0})
assert true = ok tt
assert false = panic

-- `if b { return Err(e) }`.
abbrev pub fail_if : {E : Type 0} → Bool → E → Outcome E (Unit {0})
fail_if false reason = ok tt
fail_if true reason = err reason

-- For a step that is done for its error or panic only.
abbrev pub ◌>>◌ {κ} : {E : Type 0} {B : Type κ} → Outcome E (Unit {0}) → Outcome E B → Outcome E B
step >> rest = step >>= λ done. rest

-- `raw[i]`.
abbrev pub from_elem : {E : Type 0} → Option ℕ → Outcome E ℕ
from_elem none = panic
from_elem (some b) = ok b

unfoldable pub index : {E : Type 0} → List ℕ → ℕ → Outcome E ℕ
index raw i = from_elem (get_elem? raw i)

-- `&raw[a..b]`.
unfoldable pub subslice : {E : Type 0} → List ℕ → ℕ → ℕ → Outcome E (List ℕ)
subslice raw a b = if leb a b && leb b (length raw) then ok (slice a b raw) else panic

-- The byte at `i`, read where `i` is known to be in range.
abbrev pub byte : List ℕ → ℕ → ℕ
byte raw i = get_or raw i 0

pub index-eq-ok :
    {E : Type 0} (raw : List ℕ) (i : ℕ) → i < length raw → index {E = E} raw i ≡ ok (byte raw i)
unfolding index
index-eq-ok raw i h = rw (get_elem?-eq-get_or raw i 0 h)

pub subslice-eq-ok :
    {E : Type 0} (raw : List ℕ) (a b : ℕ)
    → a ≤ b
    → b ≤ length raw
    → subslice {E = E} raw a b ≡ ok (slice a b raw)
unfolding subslice
subslice-eq-ok raw a b h k = ground arith

-- Inversion of a bind that succeeds.
pub >>=-eq-ok {ℓ κ} :
    {E : Type 0} {A : Type ℓ} {B : Type κ} (step : Outcome E A) (rest : A → Outcome E B)
    {result : B}
    → (step >>= rest) ≡ ok result
    → (value : A) × (step ≡ ok value) × (rest value ≡ ok result)
>>=-eq-ok panic rest e = cc
>>=-eq-ok (err reason) rest e = cc
>>=-eq-ok (ok value) rest e = (value, refl, e)

-- To split on a computed outcome and keep the equation.
pub Outcome-cases {ℓ} :
    {E : Type 0} {A : Type ℓ} (m : Outcome E A)
    → ((a : A) × (m ≡ ok a)) ⊎ ((e : E) × (m ≡ err e)) ⊎ (m ≡ panic)
Outcome-cases (ok a) = inl (a, refl)
Outcome-cases (err e) = inr (inl (e, refl))
Outcome-cases panic = inr (inr refl)

-- A chain panics only where a step does.
pub >>=-ne-panic {ℓ κ} :
    {E : Type 0} {A : Type ℓ} {B : Type κ} (m : Outcome E A) (f : A → Outcome E B)
    → m ≢ panic
    → ((a : A) → m ≡ ok a → f a ≢ panic)
    → (m >>= f) ≢ panic
>>=-ne-panic (ok a) f h k = k a refl
>>=-ne-panic (err e) f h k = λ p. cc
>>=-ne-panic panic f h k = absurd (h refl)

-- `&raw[..n]`.
pub subslice_front :
    {E : Type 0} (raw : List ℕ) (n : ℕ)
    → n ≤ length raw
    → subslice {E = E} raw 0 n ≡ ok (take n raw)
subslice_front {E} raw n h =
    rw (subslice-eq-ok {E = E} raw 0 n (omega arith) h)
      (ap ok (ap (λ m. take m raw) {y = n} (omega arith)))

-- A write to `raw[i..i + bytes.len()]`, which panics out of range.
unfoldable pub write_at : {E : Type 0} → List ℕ → ℕ → List ℕ → Outcome E (List ℕ)
write_at raw i bytes =
    if leb (i + length bytes) (length raw) then ok (copy_at i bytes raw) else panic

-- `raw[a..b].copy_from_slice(bytes)`, which also panics where the lengths differ.
unfoldable pub copy_from_slice : {E : Type 0} → List ℕ → ℕ → ℕ → List ℕ → Outcome E (List ℕ)
unfolding write_at
copy_from_slice raw a b bytes = if a + length bytes == b then write_at raw a bytes else panic

pub copy_from_slice-write_at :
    {E : Type 0} (raw : List ℕ) (a b : ℕ) (bytes : List ℕ)
    → a + length bytes ≡ b
    → copy_from_slice {E = E} raw a b bytes ≡ write_at raw a bytes
unfolding copy_from_slice
copy_from_slice-write_at raw a b bytes h =
    let same : (a + length bytes == b) ≡ true = ground arith in rw (copy_from_slice, same) refl

-- `raw.swap(i, j)`.
unfoldable pub swap_at : {E : Type 0} → List ℕ → ℕ → ℕ → Outcome E (List ℕ)
unfolding index write_at
swap_at raw i j = do
  a ← index raw i
  b ← index raw j
  once ← write_at raw i (b ∷ [])
  write_at once j (a ∷ [])

-- The code returns a value: no error and no panic.
abbrev pub IsOk {ℓ} : {E : Type 0} {A : Type ℓ} → Outcome E A → Type ℓ
IsOk {A} m = (a : A) × (m ≡ ok a)

pub >>=-IsOk {ℓ κ} :
    {E : Type 0} {A : Type ℓ} {B : Type κ} (m : Outcome E A) (f : A → Outcome E B)
    → IsOk m
    → ((a : A) → m ≡ ok a → IsOk (f a))
    → IsOk (m >>= f)
>>=-IsOk (ok a) f h k = k a refl
>>=-IsOk (err e) f h k = absurd (cc (h.1))
>>=-IsOk panic f h k = absurd (cc (h.1))

-- A chain that fails the way `o` does: with its error, or with a panic.
pub data FailsAs {ℓ κ} {E : Type 0} {A : Type ℓ} {B : Type κ} (o : Outcome E A)
    : Outcome E B → Type (ℓ ⊔ κ) where
  panics : o ≡ panic → FailsAs o panic
  errs : (e : E) → o ≡ err e → FailsAs o (err e)

pub Outcome-total {ℓ} : {E : Type 0} {A : Type ℓ} (m : Outcome E A) → IsOk m ⊎ FailsAs m m
Outcome-total (ok a) = inl (a, refl)
Outcome-total (err e) = inr (errs e refl)
Outcome-total panic = inr (panics refl)

pub >>=-FailsAs {ℓ κ μ} :
    {E : Type 0} {A : Type ℓ} {B : Type κ} {C : Type μ} {o : Outcome E A} {m : Outcome E B}
    (f : B → Outcome E C)
    → FailsAs o m
    → FailsAs o (m >>= f)
>>=-FailsAs f (panics e) = panics e
>>=-FailsAs f (errs reason e) = errs reason e
