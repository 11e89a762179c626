-- ===== src/Client/Drain.antt =====
-- `push_to_network` of relay/src/relay/client.rs comes to an end, and what is left in the buffer then.
use harmony_os_reverse_tethe.Prelude.{
  ℕ, zero, suc, ◌<◌, ◌≡◌, refl, ◌⊎◌, inl, inr, Bool, true, false, length, Option, some, arith,
  Outcome, ok,
}
use harmony_os_reverse_tethe.ByteOrder.{ByteOrder}
use harmony_os_reverse_tethe.ByteBuffer.Laws.{IsValid}
use harmony_os_reverse_tethe.IpPacketBuffer.Laws.{bytes}
use harmony_os_reverse_tethe.Router.{Operations, Creation}
use harmony_os_reverse_tethe.Tcp.Event.{IoError}
use harmony_os_reverse_tethe.Client.{Client, ClientChannel}
use harmony_os_reverse_tethe.Client.Push.{round, push_to_network}
use harmony_os_reverse_tethe.Client.Round.{
  Drained, RoundResult, again, last, round-RoundResult, Blocked, >>=-Blocked, round-total,
}

module _ {C Src : Type 0} ⦃order : ByteOrder⦄ (operations : Operations IoError C ClientChannel)
    (creation : Creation C) where
  -- The clients that the rounds of the loop come to, each of which asks for another round.
  pub data Reaches : Client C Src → Client C Src → Type 0 where
    here : (client : Client C Src) → Reaches client client
    after :
        {client c d : Client C Src}
        → round operations creation client ≡ ok (c, true)
        → Reaches c d
        → Reaches client d

  -- The loop is over with nothing left to push, or it has come to a client whose packet in front is
  -- refused by its connection, and has failed the way that connection did.
  abbrev pub Ends : Client C Src → Outcome IoError (Option (Client C Src)) → Type 0
  Ends client o =
      ((d : Client C Src) × (o ≡ ok (some d)) × Drained d)
      ⊎ ((c : Client C Src) × Reaches client c × Blocked operations creation c o)

  goes_on :
      {client c : Client C Src} {o : Outcome IoError (Option (Client C Src))}
      → round operations creation client ≡ ok (c, true)
      → Ends c o
      → Ends client o
  goes_on played (inl drained) = inl drained
  goes_on played (inr (d, reached, blocked)) = inr (d, after played reached, blocked)

  finishes :
      (fuel : ℕ) (client : Client C Src) {r : Client C Src × Bool}
      → ((c : Client C Src)
          → IsValid c.client_to_network.buf
          → length (bytes c.client_to_network) < fuel
          → Ends c (push_to_network operations creation fuel c))
      → length (bytes client.client_to_network) < suc fuel
      → round operations creation client ≡ ok r
      → RoundResult client r
      → Ends client (elim r.1 as (λ b. Outcome IoError (Option (Client C Src))) [
        | true ↦ push_to_network operations creation fuel r.0
        | false ↦ ok (some r.0)
      ])
  finishes fuel client rest enough played (again c v h) = goes_on played (rest c v (omega arith))
  finishes fuel client rest enough played (last c drained) = inl (c, refl, drained)

  -- On a valid buffer the loop with more fuel than bytes does one of two things. It returns, and then the
  -- buffer is valid, and the tunnel is closed or no whole packet is in front. Or it fails, and then its rounds have come to
  -- a client whose router has or makes a connection for the packet in front that fails on it in the same way.
  pub push_to_network_lem :
      (fuel : ℕ) (client : Client C Src)
      → IsValid client.client_to_network.buf
      → length (bytes client.client_to_network) < fuel
      → Ends client (push_to_network operations creation fuel client)
  unfolding push_to_network
  push_to_network_lem zero client v enough = absurd (omega arith)
  push_to_network_lem (suc fuel) client v enough = elim (round-total operations creation client v) [
    | inl (r, played) ↦
        rw (push_to_network, played)
          (finishes fuel client (push_to_network_lem fuel) enough played
            (round-RoundResult operations creation client v played))
    | inr blocked ↦ inr (client, here client, >>=-Blocked operations creation client _ blocked)
  ]
