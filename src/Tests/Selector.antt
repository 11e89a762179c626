-- ===== src/Tests/Selector.antt =====
-- A selector with two handlers, one of which waits to be removed.
use harmony_os_reverse_tethe.Prelude.{
  ℕ, suc, ◌+◌, ◌<◌, ◌≡◌, refl, Bool, true, false, [], ◌∷◌, none, some, arith, Bool-cases, inl, inr,
  if◌then◌else◌, ok,
}
use harmony_os_reverse_tethe.HashMap.{HashMap, same, get}
use harmony_os_reverse_tethe.HashMap.Laws.{same-eq, same_refl}
use harmony_os_reverse_tethe.Selector
use harmony_os_reverse_tethe.Selector.{token_key}
use harmony_os_reverse_tethe.Selector.Tokens

abbrev top : HashMap ℕ Bool → ℕ
top [] = 0
top ((k, v) ∷ m) = k + top m

get-above : (n : ℕ) (m : HashMap ℕ Bool) → top m < n → get n m ≡ none
get-above n [] h = refl
get-above n ((k, v) ∷ m) h = elim (Bool-cases (same n k)) [
  | inl equal ↦ let e = same-eq n k equal in absurd (omega arith)
  | inr differs ↦ rw differs (get-above n m (omega arith))
]

-- It gives out a key above all others.
abbrev slab : Selector.Slab Bool
slab = record {
  vacant = λ m. suc (top m);
  vacant_lem = λ m. get-above (suc (top m)) m (omega arith);
}

abbrev selector : Selector.Selector Bool
selector = record { handlers = (3, true) ∷ (5, false) ∷ []; tokens_to_remove = 5 ∷ [] }

abbrev tokens : ℕ × ℕ
tokens = (5, 3)

same-5-3 : same tokens.0 tokens.1 ≡ false
same-5-3 = elim (Bool-cases (same tokens.0 tokens.1)) [
  | inl equal ↦ let e = same-eq tokens.0 tokens.1 equal in absurd (omega arith)
  | inr differs ↦ differs
]

get-5 : get 5 selector.handlers ≡ some false
get-5 = rw (same-5-3, same_refl tokens.0) refl

selector-Removable : Selector.Tokens.Removable selector.tokens_to_remove selector.handlers
selector-Removable = (rw get-5 (λ e. cc), refl, tt)

clean_removed_tokens_lem_example :
    (t : Selector.Selector Bool) × (Selector.clean_removed_tokens {E = Bool} selector ≡ ok t)
    × (t.tokens_to_remove ≡ [])
    × ((j : ℕ)
        → get j t.handlers
          ≡ (if Selector.Tokens.mem j (5 ∷ []) then none else get j selector.handlers))
clean_removed_tokens_lem_example =
    Selector.Tokens.clean_removed_tokens_lem selector selector-Removable

register_lem_example :
    (t : Selector.Selector Bool) × (token : ℕ) × (Selector.register {E = Bool} slab selector true
        (ok tt)
      ≡ ok (t, ok token))
    × (get token selector.handlers ≡ none)
    × (Selector.Tokens.mem token (5 ∷ []) ≡ false)
    × Selector.Tokens.Removable t.tokens_to_remove t.handlers
    × ((j : ℕ) → get j t.handlers ≡ (if same j token then some true else get j selector.handlers))
register_lem_example = Selector.Tokens.register_lem slab selector true selector-Removable
