-- ===== src/Client/Interests.antt =====
-- The id of relay/src/relay/client.rs, which is sent before anything else, and what the tunnel waits for meanwhile.
use harmony_os_reverse_tethe.Prelude.{
  ℕ, ◌+◌, ◌-◌, ◌≤◌, ◌<◌, ◌^◌, ◌≡◌, refl, sym, ap, ◌∙◌, true, false, List, ◌++◌, length, get_elem?,
  take, drop, arith, ok, >>=-eq-ok, subslice, subslice-eq-ok, length-drop, take-append-drop, assert,
  take_all,
}
use harmony_os_reverse_tethe.Prelude.Pointwise.{list_ext, pointwise}
use harmony_os_reverse_tethe.ByteOrder.{ByteOrder}
use harmony_os_reverse_tethe.ByteBuffer.{Source}
use harmony_os_reverse_tethe.StreamBuffer
use harmony_os_reverse_tethe.StreamBuffer.{Sink}
use harmony_os_reverse_tethe.Router.{Operations, Creation}
use harmony_os_reverse_tethe.Tcp.Flow.{Ready}
use harmony_os_reverse_tethe.Tcp.Event.{IoError}
use harmony_os_reverse_tethe.Client.{
  Client, ClientChannel, interests_of, update_interests, must_send_id, send_id,
}
use harmony_os_reverse_tethe.Client.Event.{
  PacketSource, done, process_send, process_readable, process,
}

drop-drop : {A : Type 0} (n m : ℕ) (xs : List A) → drop n (drop m xs) ≡ drop (m + n) xs
drop-drop n m xs = list_ext _ _ λ i. simp pointwise (ap (get_elem? xs) (omega arith))

module _ ⦃order : ByteOrder⦄ where
  length-write_u32 : (v : ℕ) → v < 2 ^ 32 → length (order.write_u32 v) ≡ 4
  length-write_u32 v h = rw (order.write_u32_lem v h) refl

module _ {C Src : Type 0} ⦃order : ByteOrder⦄ where
  -- The bytes of the id that are still to be sent.
  abbrev pub id_bytes : Client C Src → List ℕ
  id_bytes client = drop (4 - client.pending_id_bytes) (order.write_u32 client.id)

  -- For an id of 32 bits of which one to four bytes are to be sent, and a destination that takes
  -- `w` of those: they are the next ones, and exactly the others are kept for later.
  pub send_id_lem :
      (client : Client C Src) (stream : Sink IoError) (w : ℕ)
      → client.id < 2 ^ 32
      → 0 < client.pending_id_bytes
      → client.pending_id_bytes ≤ 4
      → stream (id_bytes client) ≡ ok w
      → w ≤ length (id_bytes client)
      → (c : Client C Src) × (send_id client stream ≡ ok c)
        × (id_bytes client ≡ take w (id_bytes client) ++ id_bytes c)
        × (c.pending_id_bytes + w ≡ client.pending_id_bytes)
  unfolding send_id
  send_id_lem client stream w small some_left most takes fits =
      let raw = order.write_u32 client.id in
      let k = 4 - client.pending_id_bytes in
      let four = length-write_u32 client.id small in
      let rest : length (drop k raw) ≡ client.pending_id_bytes =
        omega (arith, length-drop k raw, four) in
      let owes : must_send_id client ≡ true = ground arith in
      let offered : subslice {E = IoError} raw k (length raw) ≡ ok (drop k raw) =
        subslice-eq-ok raw k (length raw) (omega arith) (omega arith)
        ∙ ap ok (take_all (length raw - k) (drop k raw) (omega arith)) in
      (
        record client { pending_id_bytes = client.pending_id_bytes - w },
        rw (owes, offered, takes) refl,
        sym (take-append-drop w (drop k raw))
            ∙ ap (λ xs. take w (drop k raw) ++ xs)
                (drop-drop w k raw ∙ ap (λ n. drop n raw) (omega arith)),
        omega arith,
      )

  -- Nothing else changes.
  send_id-same :
      (client : Client C Src) (stream : Sink IoError) {c : Client C Src}
      → send_id client stream ≡ ok c
      → record client { pending_id_bytes = c.pending_id_bytes } ≡ c
  unfolding send_id
  send_id-same client stream {c} e =
      let raw = order.write_u32 client.id in
      let (_, _, f) = >>=-eq-ok (assert (must_send_id client)) _ e in
      let (offered, _, g) =
        >>=-eq-ok (subslice raw (4 - client.pending_id_bytes) (length raw)) _ f in
      let (w, _, made) = >>=-eq-ok (stream offered) _ g in
      let same : record client { pending_id_bytes = client.pending_id_bytes - w } ≡ c = cc made in
      rw (← same) refl

module _ {W C Src : Type 0} ⦃order : ByteOrder⦄ (sources : PacketSource W Src)
    (operations : Operations IoError C ClientChannel) (creation : Creation C) where
  -- An open tunnel has nothing else to send, the socket takes a part of the id and has nothing to read: the
  -- handler then no longer waits to write, though the rest of the id is still to be sent.
  pub process_stalls :
      (client : Client C Src) (w : W) (ready : Ready) (writer : Sink IoError)
      (reader : Source IoError) {c : Client C Src}
      → client.closed ≡ false
      → ready.writable ≡ true
      → ready.readable ≡ false
      → StreamBuffer.is_empty client.channel.network_to_client ≡ true
      → must_send_id client ≡ true
      → send_id client writer ≡ ok c
      → must_send_id c ≡ true
      → (d : Client C Src) × (process sources operations creation client w ready writer reader
          ≡ ok (done (d, w)))
        × (must_send_id d ≡ true)
        × (d.channel.interests.writable ≡ false)
  unfolding process process_send process_readable update_interests interests_of
  process_stalls client w ready writer reader {c} running writes silent empty owes sent still =
      let same = send_id-same client writer sent in
      let sends : process_send sources operations creation client w writer ≡ ok (done (c, w)) =
        rw (process_send, owes, sent) refl in
      let open_still : c.closed ≡ false = rw (← same) running in
      let empty_still : StreamBuffer.is_empty c.channel.network_to_client ≡ true =
        rw (← same) empty in
      (
        record c { channel = update_interests c.channel },
        rw (process, writes, sends, open_still, silent, running) refl,
        still,
        rw empty_still refl,
      )
