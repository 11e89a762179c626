-- ===== src/TunnelServer.antt =====
-- relay/src/relay/tunnel_server.rs: the clients of the relay. A client is held by a pointer; `Client::create` on an accepted
-- stream is a parameter, and so is what `accept` gives while streams wait. Once none waits it gives WouldBlock.
pub mod Accept
pub mod Remove
use harmony_os_reverse_tethe.Prelude.{
  ℕ, suc, ◌+◌, ◌%◌, ◌^◌, List, [], ◌∷◌, ◌++◌, map, set, Option, none, some, ◌==◌, if◌then◌else◌,
  Outcome, ok, err, panic, ◌>>=◌,
}
use harmony_os_reverse_tethe.Tcp.Event.{IoError}
use harmony_os_reverse_tethe.Client.Event.{Handled, done}

-- `Rc<RefCell<Client>>`
pub record Held (C : Type 0) : Type 0 where
  pub pointer : ℕ
  pub client : C

pub record TunnelServer (C : Type 0) : Type 0 where
  pub clients : List (Held C)
  pub next_client_id : ℕ

unfoldable pub create : {C : Type 0} → TunnelServer C
create = record { clients = []; next_client_id = 0 }

module _ {C S : Type 0} (open_client : ℕ → S → Outcome IoError (Held C)) where
  -- The client of an accepted stream. Its id is taken, whether or not it can be made.
  unfoldable pub opened :
      TunnelServer C → Outcome IoError (Held C) → Outcome IoError (Handled (TunnelServer C))
  opened s (ok held) = ok (done (record s { clients = s.clients ++ held ∷ [] }))
  opened s (err e) = ok (record { state = s; error = some e })
  opened s panic = panic

  -- On what `accept` gives.
  unfoldable pub accept_client :
      TunnelServer C → Outcome IoError S → Outcome IoError (Handled (TunnelServer C))
  unfolding opened
  accept_client s (ok stream) =
      opened (record s { next_client_id = (s.next_client_id + 1) % 2 ^ 32 })
        (open_client s.next_client_id stream)
  accept_client s (err e) = ok (record { state = s; error = some e })
  accept_client s panic = panic

  -- The loop, with the streams that still wait when it ends.
  unfoldable pub on_ready :
      TunnelServer C
      → List (Outcome IoError S)
      → Outcome IoError (TunnelServer C × List (Outcome IoError S))
  unfolding accept_client
  on_ready s [] = ok (s, [])
  on_ready s (accepted ∷ waiting) = accept_client s accepted >>= λ r. elim r.error [
    | none ↦ on_ready r.state waiting
    | some e ↦ ok (r.state, waiting)
  ]

module _ {A : Type 0} where
  -- `Vec::pop`
  unfoldable pub pop : List A → Option (List A × A)
  pop [] = none
  pop (x ∷ xs) = elim (pop xs) [ none ↦ some ([], x) | some (front, last) ↦ some (x ∷ front, last) ]

  -- `Vec::swap_remove`: the last element takes the place of the one that is removed.
  unfoldable pub swap_remove : List A → ℕ → List A
  unfolding pop
  swap_remove xs i = elim (pop xs) [ none ↦ [] | some (front, last) ↦ set front i last ]

module _ {C : Type 0} where
  -- `position`, by the pointer.
  unfoldable pub position : List (Held C) → ℕ → Option ℕ
  position [] pointer = none
  position (held ∷ clients) pointer =
      let behind = position clients pointer in
      if held.pointer == pointer
      then some 0
      else elim behind [ none ↦ none | some i ↦ some (suc i) ]

  unfoldable pub remove_client : {E : Type 0} → TunnelServer C → ℕ → Outcome E (TunnelServer C)
  unfolding position swap_remove
  remove_client s pointer = elim (position s.clients pointer) [
    | none ↦ panic
    | some i ↦ ok (record s { clients = swap_remove s.clients i })
  ]

  -- `Client::clean_expired_connections` of every client.
  unfoldable pub clean_held : (C → C) → Held C → Held C
  clean_held clean held = record held { client = clean held.client }

  unfoldable pub clean_up : (C → C) → TunnelServer C → TunnelServer C
  unfolding clean_held
  clean_up clean s = record s { clients = map (clean_held clean) s.clients }
