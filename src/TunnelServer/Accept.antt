-- ===== src/TunnelServer/Accept.antt =====
-- The loop that accepts clients: it drains the queue of those that wait, up to the first that fails.
use mathlib.Core.List.{append_assoc, append-nil}
use harmony_os_reverse_tethe.Prelude.{
  ℕ, ◌+◌, ◌%◌, ◌^◌, ◌≡◌, refl, sym, ap, ◌∙◌, List, [], ◌∷◌, ◌++◌, map, Outcome, ok, err,
}
use harmony_os_reverse_tethe.Tcp.Event.{IoError}
use harmony_os_reverse_tethe.TunnelServer.{Held, TunnelServer, on_ready}

-- The id behind this one, a `u32`.
abbrev pub next_id : ℕ → ℕ
next_id id = (id + 1) % 2 ^ 32

-- The id after this many clients.
abbrev pub id_after : {C : Type 0} → ℕ → List (Held C) → ℕ
id_after id [] = id
id_after id (held ∷ more) = id_after (next_id id) more

module _ {C S : Type 0} where
  -- Each stream becomes a client, with one id after the other.
  abbrev pub Opens : (ℕ → S → Outcome IoError (Held C)) → ℕ → List S → List (Held C) → Type 0
  Opens open_client id [] [] = Unit {0}
  Opens open_client id [] (held ∷ more) = ⊥
  Opens open_client id (stream ∷ streams) [] = ⊥
  Opens open_client id (stream ∷ streams) (held ∷ more) =
      (open_client id stream ≡ ok held) × Opens open_client (next_id id) streams more

  module _ (open_client : ℕ → S → Outcome IoError (Held C)) where
    -- The part of the queue that goes well.
    on_ready-append :
        (streams : List S) (held : List (Held C)) (s : TunnelServer C)
        (waiting : List (Outcome IoError S))
        → Opens open_client s.next_client_id streams held
        → on_ready open_client s (map ok streams ++ waiting)
          ≡ on_ready open_client
              (record {
                clients = s.clients ++ held;
                next_client_id = id_after s.next_client_id held;
              })
              waiting
    unfolding on_ready
    on_ready-append [] [] s waiting opens =
        ap
          (λ l.
            on_ready open_client (record { clients = l; next_client_id = s.next_client_id })
              waiting)
          (sym (append-nil s.clients))
    on_ready-append [] (h ∷ held) s waiting opens = elim opens [ ]
    on_ready-append (stream ∷ streams) [] s waiting opens = elim opens [ ]
    on_ready-append (stream ∷ streams) (h ∷ held) s waiting (made, opens) =
        rw (on_ready, made)
          (on_ready-append streams held
              (record { clients = s.clients ++ h ∷ []; next_client_id = next_id s.next_client_id })
              waiting opens
            ∙ ap
                (λ l.
                  on_ready open_client
                    (record {
                      clients = l;
                      next_client_id = id_after (next_id s.next_client_id) held;
                    })
                    waiting)
                (append_assoc s.clients (h ∷ []) held))

    -- Where every stream that waits becomes a client, the loop accepts them all, in order, with one id after the other.
    pub on_ready_drains :
        (s : TunnelServer C) (streams : List S) (held : List (Held C))
        → Opens open_client s.next_client_id streams held
        → on_ready open_client s (map ok streams)
          ≡ ok (
            record { clients = s.clients ++ held; next_client_id = id_after s.next_client_id held },
            [],
          )
    unfolding on_ready
    on_ready_drains s streams held opens =
        ap (on_ready open_client s) (sym (append-nil (map ok streams)))
        ∙ on_ready-append streams held s [] opens

    -- Where the streams in front become clients and the next one does not, the loop ends: those behind it are left in the
    -- queue, although they wait, and the id of the one that failed is spent.
    pub on_ready_stops :
        (s : TunnelServer C) (streams : List S) (held : List (Held C)) (bad : S) (e : IoError)
        (waiting : List (Outcome IoError S))
        → Opens open_client s.next_client_id streams held
        → open_client (id_after s.next_client_id held) bad ≡ err e
        → on_ready open_client s (map ok streams ++ (ok bad ∷ waiting))
          ≡ ok (
            record {
              clients = s.clients ++ held;
              next_client_id = next_id (id_after s.next_client_id held);
            },
            waiting,
          )
    unfolding on_ready
    on_ready_stops s streams held bad e waiting opens fails =
        on_ready-append streams held s (ok bad ∷ waiting) opens ∙ rw (on_ready, fails) refl
