-- ===== src/Selector.antt =====
-- relay/src/relay/selector.rs: the handlers of events, by tokens. The `slab` crate is seen as a map and the choice of a
-- vacant key; what mio answers is a parameter.
pub mod Tokens
use native.Mathlib.Decide.{ℕ_discrete}
use harmony_os_reverse_tethe.Prelude.{
  ℕ, ◌≡◌, Bool, true, false, List, [], ◌∷◌, ◌++◌, Option, none, some, if◌then◌else◌, Outcome, ok,
  err, panic, ◌>>=◌,
}
use harmony_os_reverse_tethe.HashMap.{Key, HashMap, get, insert, remove}
use harmony_os_reverse_tethe.Tcp.Event.{IoError}

instance unfoldable pub token_key : Key ℕ
token_key = record { dec = ℕ_discrete }

pub record Selector (H : Type 0) : Type 0 where
  pub handlers : HashMap ℕ H
  pub tokens_to_remove : List ℕ

-- `Slab::vacant_key`: a key that is not in use.
pub record Slab (H : Type 0) : Type 0 where
  pub vacant : HashMap ℕ H → ℕ
  pub vacant_lem : (m : HashMap ℕ H) → get (vacant m) m ≡ none

-- `Slab::remove` panics where the key is not in use.
unfoldable pub slab_remove : {E H : Type 0} → ℕ → HashMap ℕ H → Outcome E (HashMap ℕ H)
slab_remove token handlers = elim (get token handlers) [
  | none ↦ panic
  | some handler ↦ ok (remove token handlers)
]

module _ {H : Type 0} where
  unfoldable pub create : Selector H
  create = record { handlers = []; tokens_to_remove = [] }

  -- The selector, and the token or the error of `Poll::register`.
  unfoldable pub register :
      {E : Type 0}
      → Slab H
      → Selector H
      → H
      → Outcome IoError (Unit {0})
      → Outcome E (Selector H × Outcome IoError ℕ)
  unfolding slab_remove
  register slab s handler registered =
      let token = slab.vacant s.handlers in
      let added = insert token handler s.handlers in
      elim registered [
        | ok u ↦ ok (record s { handlers = added }, ok token)
        | err reason ↦ slab_remove token added >>= λ m. ok (record s { handlers = m }, err reason)
        | panic ↦ panic
      ]

  -- The token is marked, whatever `Poll::deregister` answers.
  unfoldable pub deregister : Selector H → ℕ → Selector H
  deregister s token = record s { tokens_to_remove = s.tokens_to_remove ++ token ∷ [] }

  unfoldable pub remove_all : {E : Type 0} → List ℕ → HashMap ℕ H → Outcome E (HashMap ℕ H)
  unfolding slab_remove
  remove_all [] handlers = ok handlers
  remove_all (token ∷ tokens) handlers = do
    rest ← slab_remove token handlers
    remove_all tokens rest

  unfoldable pub clean_removed_tokens : {E : Type 0} → Selector H → Outcome E (Selector H)
  unfolding remove_all
  clean_removed_tokens s = do
    m ← remove_all s.tokens_to_remove s.handlers
    ok (record { handlers = m; tokens_to_remove = [] })

  -- The loop over the events, by their tokens; a handler may change the selector.
  unfoldable pub run_all :
      {E : Type 0}
      → (H → Selector H → Outcome E (Selector H))
      → List ℕ
      → Selector H
      → Outcome E (Selector H)
  run_all run [] s = ok s
  run_all run (token ∷ tokens) s = elim (get token s.handlers) [
    | none ↦ panic
    | some handler ↦ run handler s >>= λ t. run_all run tokens t
  ]

  unfoldable pub run_handlers :
      {E : Type 0}
      → (H → Selector H → Outcome E (Selector H))
      → List ℕ
      → Selector H
      → Outcome E (Selector H)
  unfolding run_all clean_removed_tokens
  run_handlers run events s = do t ← run_all run events s; clean_removed_tokens t
