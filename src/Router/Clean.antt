-- ===== src/Router/Clean.antt =====
-- The expiry of the connections of relay/src/relay/router.rs.
use harmony_os_reverse_tethe.Prelude.{
  ◌≡◌, refl, ◌∙◌, Bool, true, false, List, [], ◌∷◌, Option, none, some, arith, if◌then◌else◌,
  Option-cases, inl, inr,
}
use harmony_os_reverse_tethe.HashMap.{same, get, remove, NodupKeys}
use harmony_os_reverse_tethe.HashMap.Laws.{get-remove, remove-NodupKeys, remove-Values}
use harmony_os_reverse_tethe.Connection.{ConnectionId}
use harmony_os_reverse_tethe.Connection.Same.{connection_id_key}
use harmony_os_reverse_tethe.Router.{
  Operations, Router, expired_ids, expire_ids, clean_expired_connections,
}
use harmony_os_reverse_tethe.Router.Send.{IsValid}

mem : ConnectionId → List ConnectionId → Bool
mem i [] = false
mem i (j ∷ js) = if same i j then true else mem i js

module _ {E C Ch : Type 0} (operations : Operations E C Ch) where
  -- What is left of an entry of the table.
  abbrev pub survivor : Option C → Option C
  survivor none = none
  survivor (some c) = if operations.is_expired c then none else some c

  get-expire_ids :
      (j : ConnectionId) (ids : List ConnectionId) (router : Router C) (channel : Ch)
      → get j (expire_ids operations ids router channel).0.0
        ≡ (if mem j ids then none else get j router)
  unfolding expire_ids mem
  get-expire_ids j [] router channel = refl
  get-expire_ids j (id ∷ ids) router channel = elim (Option-cases (get id router)) [
    | inl missing ↦
        rw (expire_ids, missing) (ground (arith, missing, get-expire_ids j ids router channel))
    | inr (c, found) ↦
        rw (expire_ids, found)
          (ground (
            arith,
            get-expire_ids j ids (remove id router) (operations.expire c channel).1,
            get-remove j id router,
          ))
  ]

  -- An id that the table does not have is not among the expired.
  mem-expired_ids_missing :
      (j : ConnectionId) (router : Router C)
      → get j router ≡ none
      → mem j (expired_ids operations router) ≡ false
  unfolding expired_ids mem
  mem-expired_ids_missing j [] h = refl
  mem-expired_ids_missing j ((id, c) ∷ router) h = ground (arith, mem-expired_ids_missing j router)

  mem-expired_ids :
      (j : ConnectionId) (router : Router C)
      → NodupKeys router
      → (if mem j (expired_ids operations router) then none else get j router)
        ≡ survivor (get j router)
  unfolding expired_ids mem
  mem-expired_ids j [] u = refl
  mem-expired_ids j ((id, c) ∷ router) (fresh, u) =
      ground (arith, mem-expired_ids j router u, mem-expired_ids_missing id router fresh)

  expire_ids-IsValid :
      (ids : List ConnectionId) (router : Router C) (channel : Ch)
      → IsValid operations router
      → IsValid operations (expire_ids operations ids router channel).0.0
  unfolding expire_ids
  expire_ids-IsValid [] router channel v = v
  expire_ids-IsValid (id ∷ ids) router channel v = elim (Option-cases (get id router)) [
    | inl missing ↦ rw (expire_ids, missing) (expire_ids-IsValid ids router channel v)
    | inr (c, found) ↦
        rw (expire_ids, found)
          (expire_ids-IsValid ids (remove id router) (operations.expire c channel).1 (record {
            nodup = remove-NodupKeys id router v.nodup;
            all_open = remove-Values _ id router v.all_open;
          }))
  ]

  -- Of a valid table, the expired connections are removed, and nothing else is; the table stays valid.
  pub clean_expired_connections_lem :
      (router : Router C) (channel : Ch)
      → IsValid operations router
      → IsValid operations (clean_expired_connections operations router channel).0.0
        × ((j : ConnectionId)
            → get j (clean_expired_connections operations router channel).0.0
              ≡ survivor (get j router))
  unfolding clean_expired_connections
  clean_expired_connections_lem router channel v = (
    expire_ids-IsValid (expired_ids operations router) router channel v,
    λ j.
        get-expire_ids j (expired_ids operations router) router channel
        ∙ mem-expired_ids j router v.nodup,
  )
