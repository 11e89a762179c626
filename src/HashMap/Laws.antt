-- ===== src/HashMap/Laws.antt =====
-- The laws of a map, in the form that its users rewrite with.
use harmony_os_reverse_tethe.Prelude.{
  ◌≡◌, refl, true, [], ◌∷◌, none, some, arith, if◌then◌else◌, Bool-cases, inl, inr,
}
use harmony_os_reverse_tethe.HashMap.{Key, same, HashMap, get, insert, remove, NodupKeys, Values}

pub same_refl : {K : Type 0} ⦃e : Key K⦄ (k : K) → same k k ≡ true
same_refl ⦃e⦄ k = ground arith

pub same-eq : {K : Type 0} ⦃e : Key K⦄ (i j : K) → same i j ≡ true → i ≡ j
same-eq ⦃e⦄ i j h = ground arith

module _ {K V : Type 0} ⦃e : Key K⦄ where
  pub get-insert :
      (i k : K) (v : V) (m : HashMap K V)
      → get i (insert k v m) ≡ (if same i k then some v else get i m)
  get-insert i k v [] = refl
  get-insert i k v ((j, w) ∷ m) = ground (arith, get-insert i k v m)

  pub get-remove :
      (i k : K) (m : HashMap K V) → get i (remove k m) ≡ (if same i k then none else get i m)
  get-remove i k [] = ground arith
  get-remove i k ((j, w) ∷ m) = ground (arith, get-remove i k m)

  pub insert-NodupKeys : (k : K) (v : V) (m : HashMap K V) → NodupKeys m → NodupKeys (insert k v m)
  insert-NodupKeys k v [] u = (refl, tt)
  insert-NodupKeys k v ((j, w) ∷ m) (fresh, u) =
      ground (arith, insert-NodupKeys k v m u, get-insert j k v m)

  pub remove-NodupKeys : (k : K) (m : HashMap K V) → NodupKeys m → NodupKeys (remove k m)
  remove-NodupKeys k [] u = tt
  remove-NodupKeys k ((j, w) ∷ m) (fresh, u) =
      ground (arith, remove-NodupKeys k m u, get-remove j k m)

  pub insert-Values :
      (P : V → Type 0) (k : K) (v : V) (m : HashMap K V)
      → P v
      → Values P m
      → Values P (insert k v m)
  insert-Values P k v [] p ps = (p, tt)
  insert-Values P k v ((j, w) ∷ m) p (q, ps) = elim (Bool-cases (same k j)) [
    | inl holds ↦ rw holds (p, ps)
    | inr fails ↦ rw fails (q, insert-Values P k v m p ps)
  ]

  pub remove-Values :
      (P : V → Type 0) (k : K) (m : HashMap K V) → Values P m → Values P (remove k m)
  remove-Values P k [] ps = tt
  remove-Values P k ((j, w) ∷ m) (q, ps) = elim (Bool-cases (same k j)) [
    | inl holds ↦ rw holds (remove-Values P k m ps)
    | inr fails ↦ rw fails (q, remove-Values P k m ps)
  ]

  pub get-Values :
      (P : V → Type 0) (k : K) (m : HashMap K V) {v : V} → Values P m → get k m ≡ some v → P v
  get-Values P k [] ps e = cc
  get-Values P k ((j, w) ∷ m) {v} (q, ps) h = elim (Bool-cases (same k j)) [
    | inl holds ↦ let found : w ≡ v = ground (arith, holds, h) in rw (← found) q
    | inr fails ↦ get-Values P k m ps (ground (arith, fails, h))
  ]

  pub remove-insert : (k : K) (v : V) (m : HashMap K V) → remove k (insert k v m) ≡ remove k m
  remove-insert k v [] = rw (same_refl k) refl
  remove-insert k v ((j, w) ∷ m) = elim (Bool-cases (same k j)) [
    | inl holds ↦ rw (holds, holds) refl
    | inr fails ↦ rw (fails, fails, remove-insert k v m) refl
  ]

  pub insert-insert : (k : K) (v w : V) (m : HashMap K V) → insert k v (insert k w m) ≡ insert k v m
  insert-insert k v w [] = rw (same_refl k) refl
  insert-insert k v w ((j, u) ∷ m) = elim (Bool-cases (same k j)) [
    | inl holds ↦ rw (holds, holds) refl
    | inr fails ↦ rw (fails, fails, insert-insert k v w m) refl
  ]
