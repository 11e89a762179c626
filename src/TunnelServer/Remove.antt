-- ===== src/TunnelServer/Remove.antt =====
-- The removal of a client: exactly one leaves, and the order of the others does not matter.
use mathlib.Core.List.{Perm, perm_append_singleton}
use mathlib.Core.List.Perm
use harmony_os_reverse_tethe.Prelude.{
  ℕ, zero, suc, ◌≡◌, refl, sym, ap, ◌∙◌, List, [], ◌∷◌, ◌++◌, get_or, set, some, Bool-cases, ◌==◌,
  arith, ok, inl, inr, false, ◌⊎◌,
}
use mathlib.Core.Path.{subst}
use harmony_os_reverse_tethe.TunnelServer.{
  Held, TunnelServer, pop, swap_remove, position, remove_client,
}

module _ {A : Type 0} where
  pop-cases :
      (x : A) (xs : List A)
      → (front : List A) × (last : A) × (pop (x ∷ xs) ≡ some (front, last))
        × (x ∷ xs ≡ front ++ last ∷ [])
  unfolding pop
  pop-cases x [] = ([], x, refl, refl)
  pop-cases x (y ∷ xs) =
      let (front, last, popped, whole) = pop-cases y xs in
      (x ∷ front, last, rw (pop, popped) refl, ap (◌∷◌ x) whole)

  -- With the last element in its place, an element leaves.
  perm-set :
      (front : List A) (i : ℕ) (last : A)
      → Perm (front ++ last ∷ []) (get_or front i last ∷ set front i last)
  perm-set [] i last = Perm.refl _
  perm-set (x ∷ front) zero last = Perm.cons x (perm_append_singleton last front)
  perm-set (x ∷ front) (suc i) last =
      Perm.trans (Perm.cons x (perm-set front i last))
        (Perm.swap (get_or front i last) x (set front i last))

  get_or-front :
      (front : List A) (i : ℕ) (last : A) → get_or front i last ≡ get_or (front ++ last ∷ []) i last
  get_or-front [] zero last = refl
  get_or-front [] (suc i) last = refl
  get_or-front (x ∷ front) zero last = refl
  get_or-front (x ∷ front) (suc i) last = get_or-front front i last

module _ {C : Type 0} where
  -- Some client has the pointer.
  abbrev pub Holds : ℕ → List (Held C) → Type 0
  Holds pointer [] = ⊥
  Holds pointer (held ∷ clients) = (held.pointer ≡ pointer) ⊎ Holds pointer clients

  position-Holds :
      (clients : List (Held C)) (pointer : ℕ)
      → Holds pointer clients
      → (i : ℕ) × (position clients pointer ≡ some i)
        × ((d : Held C) → (get_or clients i d).pointer ≡ pointer)
  unfolding position
  position-Holds [] pointer h = elim h [ ]
  position-Holds (held ∷ clients) pointer h = elim (Bool-cases (held.pointer == pointer)) [
    | inl here ↦ (0, rw (position, here) refl, λ d. ground arith)
    | inr there ↦
        let (i, found, has) = position-Holds clients pointer (behind h there) in
        (suc i, rw (position, there, found) refl, has)
  ]
    where
      behind :
          (held.pointer ≡ pointer) ⊎ Holds pointer clients
          → (held.pointer == pointer) ≡ false
          → Holds pointer clients
      behind (inl same) there = absurd (ground arith)
      behind (inr rest) there = rest

  removed-Perm :
      (clients : List (Held C)) (i pointer : ℕ)
      → Holds pointer clients
      → ((d : Held C) → (get_or clients i d).pointer ≡ pointer)
      → (removed : Held C) × (removed.pointer ≡ pointer)
        × Perm clients (removed ∷ swap_remove clients i)
  unfolding swap_remove
  removed-Perm [] i pointer h has = elim h [ ]
  removed-Perm (x ∷ xs) i pointer h has =
      let (front, last, popped, whole) = pop-cases x xs in
      (
        get_or front i last,
        ap (λ (held : Held C). held.pointer)
              (get_or-front front i last ∙ ap (λ l. get_or l i last) (sym whole))
            ∙ has last,
        rw (swap_remove, popped)
            (subst (λ l. Perm l (get_or front i last ∷ set front i last)) (sym whole)
              (perm-set front i last)),
      )

  -- The removal of a client that is held by its pointer does not panic: one client with that pointer leaves, and the
  -- others stay, in some order; the next id does not change.
  pub remove_client-Perm :
      {E : Type 0} (s : TunnelServer C) (pointer : ℕ)
      → Holds pointer s.clients
      → (r : TunnelServer C) × (removed : Held C) × (remove_client {E = E} s pointer ≡ ok r)
        × (removed.pointer ≡ pointer)
        × Perm s.clients (removed ∷ r.clients)
        × (r.next_client_id ≡ s.next_client_id)
  unfolding remove_client
  remove_client-Perm s pointer h =
      let (i, found, has) = position-Holds s.clients pointer h in
      let (removed, same, perm) = removed-Perm s.clients i pointer h has in
      (
        record s { clients = swap_remove s.clients i },
        removed,
        rw (remove_client, found) refl,
        same,
        perm,
        refl,
      )
