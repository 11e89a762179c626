-- ===== src/Selector/Tokens.antt =====
-- The tokens of relay/src/relay/selector.rs that wait to be removed.
use harmony_os_reverse_tethe.Prelude.{
  ℕ, ◌≡◌, ◌≢◌, refl, ◌∙◌, Bool, true, false, List, [], ◌∷◌, ◌++◌, none, some, arith, if◌then◌else◌,
  Bool-cases, Option-cases, inl, inr, ok,
}
use harmony_os_reverse_tethe.HashMap.{HashMap, same, get, insert, remove}
use harmony_os_reverse_tethe.HashMap.Laws.{get-insert, get-remove, same_refl, same-eq}
use harmony_os_reverse_tethe.Selector.{
  Selector, Slab, token_key, slab_remove, register, deregister, remove_all, clean_removed_tokens,
}

abbrev pub mem : ℕ → List ℕ → Bool
mem t [] = false
mem t (u ∷ us) = if same t u then true else mem t us

mem-snoc :
    (ts : List ℕ) (t u : ℕ) → mem u ts ≡ false → same u t ≡ false → mem u (ts ++ t ∷ []) ≡ false
mem-snoc [] t u h differs = rw differs refl
mem-snoc (v ∷ ts) t u h differs = ground (arith, mem-snoc ts t u)

-- A token that is not among these differs from each of them.
mem-cons :
    (t v : ℕ) (ts : List ℕ) → mem t (v ∷ ts) ≡ false → (same v t ≡ false) × (mem t ts ≡ false)
mem-cons t v ts h = elim (Bool-cases (same t v)) [
  | inl equal ↦ absurd (ground (arith, equal, h))
  | inr differs ↦ (ground (arith, differs), rw differs at h)
]

module _ {H : Type 0} where
  -- The tokens are in use, and none of them stands twice.
  abbrev pub Removable : List ℕ → HashMap ℕ H → Type 0
  Removable [] handlers = Unit
  Removable (t ∷ ts) handlers = (get t handlers ≢ none) × (mem t ts ≡ false) × Removable ts handlers

  -- Maps with the same tokens in use.
  Removable-more :
      (ts : List ℕ) (m n : HashMap ℕ H)
      → ((t : ℕ) → mem t ts ≡ true → get t m ≢ none → get t n ≢ none)
      → Removable ts m
      → Removable ts n
  Removable-more [] m n keep r = tt
  Removable-more (t ∷ ts) m n keep (used, once, rest) = (
    keep t (rw (same_refl t) refl) used,
    once,
    Removable-more ts m n (λ u h. keep u (ground (arith, h))) rest,
  )

  still_used :
      (t : ℕ) (ts : List ℕ) (m : HashMap ℕ H)
      → mem t ts ≡ false
      → (u : ℕ) → mem u ts ≡ true
      → get u m ≢ none
      → get u (remove t m) ≢ none
  still_used t ts m once u h used = elim (Bool-cases (same u t)) [
    | inl equal ↦
        let waits : mem t ts ≡ true = rw (same-eq u t equal) at h in
        absurd (ground (arith, waits, once))
    | inr differs ↦ rw (get-remove u t m, differs) used
  ]

  remove_all-eq :
      {E : Type 0} (ts : List ℕ) (m : HashMap ℕ H)
      → Removable ts m
      → (n : HashMap ℕ H) × (remove_all {E = E} ts m ≡ ok n)
        × ((j : ℕ) → get j n ≡ (if mem j ts then none else get j m))
  unfolding remove_all slab_remove
  remove_all-eq [] m r = (m, refl, λ j. refl)
  remove_all-eq {E} (t ∷ ts) m (used, once, rest) = elim (Option-cases (get t m)) [
    | inl missing ↦ absurd (used missing)
    | inr (h, found) ↦
        let (n, e, left) =
          remove_all-eq {E = E} ts (remove t m)
            (Removable-more ts m (remove t m) (still_used t ts m once) rest) in
        (n, rw (remove_all, slab_remove, found) e, λ j. left j ∙ ground (arith, get-remove j t m))
  ]

  -- Where the tokens that wait to be removed are in use and none of them stands twice, their removal does not panic,
  -- and exactly those handlers are gone.
  pub clean_removed_tokens_lem :
      {E : Type 0} (s : Selector H)
      → Removable s.tokens_to_remove s.handlers
      → (t : Selector H) × (clean_removed_tokens {E = E} s ≡ ok t)
        × (t.tokens_to_remove ≡ [])
        × ((j : ℕ)
            → get j t.handlers ≡ (if mem j s.tokens_to_remove then none else get j s.handlers))
  unfolding clean_removed_tokens
  clean_removed_tokens_lem {E} s r =
      let (n, e, left) = remove_all-eq {E = E} s.tokens_to_remove s.handlers r in
      (record { handlers = n; tokens_to_remove = [] }, rw e refl, refl, left)

  not_pending :
      (ts : List ℕ) (m : HashMap ℕ H) (t : ℕ) → Removable ts m → get t m ≡ none → mem t ts ≡ false
  not_pending [] m t r unused = refl
  not_pending (u ∷ us) m t (used, once, rest) unused = elim (Bool-cases (same t u)) [
    | inl equal ↦ absurd (used (rw (same-eq t u equal) at unused))
    | inr differs ↦ rw differs (not_pending us m t rest unused)
  ]

  stays :
      (token : ℕ) (handler : H) (m : HashMap ℕ H) (u : ℕ)
      → get u m ≢ none
      → get u (insert token handler m) ≢ none
  stays token handler m u used = elim (Bool-cases (same u token)) [
    | inl equal ↦ rw (get-insert u token handler m, equal) (λ e. cc)
    | inr differs ↦ rw (get-insert u token handler m, differs) used
  ]

  -- With a slab that gives out a key not in use: a handler that is registered gets a token that no handler had and
  -- that does not wait to be removed, and the tokens that wait stay removable; the other handlers stay.
  pub register_lem :
      {E : Type 0} (slab : Slab H) (s : Selector H) (handler : H)
      → Removable s.tokens_to_remove s.handlers
      → (t : Selector H) × (token : ℕ) × (register {E = E} slab s handler (ok tt)
          ≡ ok (t, ok token))
        × (get token s.handlers ≡ none)
        × (mem token s.tokens_to_remove ≡ false)
        × Removable t.tokens_to_remove t.handlers
        × ((j : ℕ) → get j t.handlers ≡ (if same j token then some handler else get j s.handlers))
  unfolding register
  register_lem slab s handler r =
      let token = slab.vacant s.handlers in
      let unused = slab.vacant_lem s.handlers in
      (
        record s { handlers = insert token handler s.handlers },
        token,
        refl,
        unused,
        not_pending s.tokens_to_remove s.handlers token r unused,
        Removable-more s.tokens_to_remove s.handlers (insert token handler s.handlers)
            (λ u h used. stays token handler s.handlers u used) r,
        λ j. get-insert j token handler s.handlers,
      )

  Removable-snoc :
      (ts : List ℕ) (m : HashMap ℕ H) (t : ℕ)
      → Removable ts m
      → get t m ≢ none
      → mem t ts ≡ false
      → Removable (ts ++ t ∷ []) m
  Removable-snoc [] m t r used fresh = (used, refl, tt)
  Removable-snoc (v ∷ ts) m t (present, once, rest) used fresh = (
    present,
    mem-snoc ts t v once (mem-cons t v ts fresh).0,
    Removable-snoc ts m t rest used (mem-cons t v ts fresh).1,
  )

  -- A token in use that does not wait yet may be deregistered: the tokens that wait stay removable.
  pub deregister-Removable :
      (s : Selector H) (token : ℕ)
      → Removable s.tokens_to_remove s.handlers
      → get token s.handlers ≢ none
      → mem token s.tokens_to_remove ≡ false
      → Removable (deregister s token).tokens_to_remove (deregister s token).handlers
  unfolding deregister
  deregister-Removable s token r used fresh =
      Removable-snoc s.tokens_to_remove s.handlers token r used fresh
