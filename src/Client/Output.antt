-- ===== src/Client/Output.antt =====
-- What relay/src/relay/client.rs sends to the device: the packets of the connections that fit its buffer, and, once
-- there is room again, those that had to wait, in their order.
use harmony_os_reverse_tethe.Prelude.{
  ℕ, ◌-◌, ◌≤◌, ◌<◌, ◌≡◌, refl, ap, true, false, List, [], ◌∷◌, ◌++◌, length, some, arith, leb,
  if◌then◌else◌, ok, err, length-append,
}
use harmony_os_reverse_tethe.StreamBuffer.{capacity, remaining}
use harmony_os_reverse_tethe.StreamBuffer.Inv.{IsValid}
use harmony_os_reverse_tethe.StreamBuffer.Refine.{contents, length-contents, read_from_refines}
use harmony_os_reverse_tethe.Tcp.Event.{IoError, would_block}
use harmony_os_reverse_tethe.Client.{
  Client, ClientChannel, interests_of, update_interests, send_raw_to_client,
}
use harmony_os_reverse_tethe.Client.Event.{PacketSource}

pub record Sent (channel : ClientChannel) (raw : List ℕ) (after : ClientChannel) : Type 0 where
  pub valid : IsValid after.network_to_client
  pub same_capacity : capacity after.network_to_client ≡ capacity channel.network_to_client
  pub appended : contents after.network_to_client ≡ contents channel.network_to_client ++ raw
  pub interested : after.interests ≡ interests_of after

-- A packet that fits is appended as a whole, and the interests follow the buffer.
pub send_raw_to_client-fits :
    (channel : ClientChannel) (raw : List ℕ)
    → IsValid channel.network_to_client
    → length raw ≤ remaining channel.network_to_client
    → (after : ClientChannel) × (send_raw_to_client channel raw ≡ ok after) × Sent channel raw after
unfolding send_raw_to_client update_interests interests_of
send_raw_to_client-fits channel raw v fits =
    let (b, e, valid, same, appended) =
      read_from_refines {E = IoError} channel.network_to_client raw v fits in
    let test : leb (length raw) (remaining channel.network_to_client) ≡ true = ground arith in
    (
      update_interests (record channel { network_to_client = b }),
      rw (test, e) refl,
      record { valid = valid; same_capacity = same; appended = appended; interested = refl },
    )

-- A packet that does not fit is refused with `WouldBlock`.
pub send_raw_to_client-full :
    (channel : ClientChannel) (raw : List ℕ)
    → remaining channel.network_to_client < length raw
    → send_raw_to_client channel raw ≡ err would_block
unfolding send_raw_to_client
send_raw_to_client-full channel raw full =
    let test : leb (length raw) (remaining channel.network_to_client) ≡ false = ground arith in
    rw test refl

-- The room that is left.
pub remaining-Sent :
    (channel : ClientChannel) (raw : List ℕ) {after : ClientChannel}
    → IsValid channel.network_to_client
    → Sent channel raw after
    → remaining after.network_to_client ≡ remaining channel.network_to_client - length raw
unfolding remaining
remaining-Sent channel raw {after} v s = omega (
  arith,
  s.same_capacity,
  length-contents channel.network_to_client v,
  length-contents after.network_to_client s.valid,
  ap length s.appended,
  length-append (contents channel.network_to_client) raw,
)

-- The packets that are taken in turn, each if it fits the room that is left, and the sources of the others.
abbrev pub taken : ℕ → List (List ℕ) → List ℕ
taken room [] = []
taken room (raw ∷ raws) =
    if leb (length raw) room then raw ++ taken (room - length raw) raws else taken room raws

module _ {Src : Type 0} where
  abbrev pub left_waiting : ℕ → List Src → List (List ℕ) → List Src
  left_waiting room [] raws = []
  left_waiting room (s ∷ ss) [] = s ∷ ss
  left_waiting room (s ∷ ss) (raw ∷ raws) =
      if leb (length raw) room
      then left_waiting (room - length raw) ss raws
      else s ∷ left_waiting room ss raws

module _ {W Src : Type 0} where
  -- Each source has its packet, whichever sources before it were served.
  abbrev pub Waiting : PacketSource W Src → W → List Src → List (List ℕ) → Type 0
  Waiting sources w [] [] = Unit
  Waiting sources w [] (raw ∷ raws) = ⊥
  Waiting sources w (s ∷ ss) [] = ⊥
  Waiting sources w (s ∷ ss) (raw ∷ raws) =
      (sources.get w s ≡ some raw)
      × Waiting sources w ss raws
      × ((v : W) × (sources.next w s ≡ ok v) × Waiting sources v ss raws)

-- A packet for the device goes into a valid buffer as a whole, and the interests follow the buffer; a packet that is
-- longer than the room is refused with `WouldBlock`.
pub send_raw_to_client_lem :
    (channel : ClientChannel) (raw : List ℕ)
    → IsValid channel.network_to_client
    → (length raw ≤ remaining channel.network_to_client
        → (after : ClientChannel) × (send_raw_to_client channel raw ≡ ok after)
          × Sent channel raw after)
      × (remaining channel.network_to_client < length raw
          → send_raw_to_client channel raw ≡ err would_block)
send_raw_to_client_lem channel raw v =
    (send_raw_to_client-fits channel raw v, send_raw_to_client-full channel raw)
