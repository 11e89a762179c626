-- ===== src/HashMap.antt =====
-- `std::collections::HashMap`, as the router uses it: an association list, whose order stands for the order of
-- iteration.
pub mod Laws
use mathlib.Core.Logic.{ite}
use harmony_os_reverse_tethe.Prelude.{
  ◌≡◌, ◌≢◌, refl, Bool, true, false, not, List, [], ◌∷◌, Option, none, some, arith, if◌then◌else◌,
}

-- `Eq` of the key.
pub record Key {ℓ} (K : Type ℓ) : Type ℓ where
  pub dec : Discrete K

abbrev pub HashMap {ℓ κ} : Type ℓ → Type κ → Type (ℓ ⊔ κ)
HashMap K V = List (K × V)

module _ {ℓ} {K : Type ℓ} ⦃e : Key K⦄ where
  abbrev pub same : K → K → Bool
  same a b = ite (e.dec a b) true false

module _ {ℓ κ} {K : Type ℓ} {V : Type κ} ⦃e : Key K⦄ where
  abbrev pub get : K → HashMap K V → Option V
  get k [] = none
  get k ((j, v) ∷ m) = if same k j then some v else get k m

  abbrev pub insert : K → V → HashMap K V → HashMap K V
  insert k v [] = (k, v) ∷ []
  insert k v ((j, w) ∷ m) = if same k j then (j, v) ∷ m else (j, w) ∷ insert k v m

  abbrev pub remove : K → HashMap K V → HashMap K V
  remove k [] = []
  remove k ((j, v) ∷ m) = let rest = remove k m in if same k j then rest else (j, v) ∷ rest

  -- No key stands twice.
  abbrev pub NodupKeys : HashMap K V → Type κ
  NodupKeys [] = Unit
  NodupKeys ((k, v) ∷ m) = (get k m ≡ none) × NodupKeys m

  -- Of every value.
  abbrev pub Values : (V → Type κ) → HashMap K V → Type κ
  Values P [] = Unit
  Values P ((k, v) ∷ m) = P v × Values P m
