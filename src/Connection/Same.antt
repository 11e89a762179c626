-- ===== src/Connection/Same.antt =====
-- Equality of connection ids, as `derive(Eq)` gives it.
use harmony_os_reverse_tethe.Prelude.{
  ℕ, ◌≡◌, refl, ap, Bool, true, false, ◌&&◌, List, [], ◌∷◌, arith, ◌==◌, Bool-cases, inl, inr,
}
use harmony_os_reverse_tethe.HashMap.{Key, same}
use harmony_os_reverse_tethe.Ipv4Header.{Protocol}
use harmony_os_reverse_tethe.Connection.{Ipv4Addr, SocketAddr, v4, v6, ConnectionId}

abbrev pub same_protocol : Protocol → Protocol → Bool
same_protocol Protocol.tcp Protocol.tcp = true
same_protocol Protocol.udp Protocol.udp = true
same_protocol Protocol.other Protocol.other = true
same_protocol p q = false

abbrev pub same_octets : List ℕ → List ℕ → Bool
same_octets [] [] = true
same_octets (x ∷ xs) (y ∷ ys) = x == y && same_octets xs ys
same_octets xs ys = false

abbrev pub same_ip : Ipv4Addr → Ipv4Addr → Bool
same_ip i j = i.a == j.a && (i.b == j.b && (i.c == j.c && i.d == j.d))

abbrev pub same_addr : SocketAddr → SocketAddr → Bool
same_addr (v4 i p) (v4 j q) = same_ip i j && p == q
same_addr (v6 i p) (v6 j q) = same_octets i j && p == q
same_addr i j = false

unfoldable pub same_id : ConnectionId → ConnectionId → Bool
same_id i j =
    same_protocol i.protocol j.protocol
    && (same_addr i.source j.source && same_addr i.destination j.destination)

same_protocol-eq : (p q : Protocol) → same_protocol p q ≡ true → p ≡ q
same_protocol-eq Protocol.tcp Protocol.tcp h = refl
same_protocol-eq Protocol.tcp Protocol.udp h = cc
same_protocol-eq Protocol.tcp Protocol.other h = cc
same_protocol-eq Protocol.udp Protocol.tcp h = cc
same_protocol-eq Protocol.udp Protocol.udp h = refl
same_protocol-eq Protocol.udp Protocol.other h = cc
same_protocol-eq Protocol.other Protocol.tcp h = cc
same_protocol-eq Protocol.other Protocol.udp h = cc
same_protocol-eq Protocol.other Protocol.other h = refl

same_protocol_refl : (p : Protocol) → same_protocol p p ≡ true
same_protocol_refl Protocol.tcp = refl
same_protocol_refl Protocol.udp = refl
same_protocol_refl Protocol.other = refl

same_octets-eq : (xs ys : List ℕ) → same_octets xs ys ≡ true → xs ≡ ys
same_octets-eq [] [] h = refl
same_octets-eq [] (y ∷ ys) h = cc
same_octets-eq (x ∷ xs) [] h = cc
same_octets-eq (x ∷ xs) (y ∷ ys) h = ground (arith, same_octets-eq xs ys)

same_octets_refl : (xs : List ℕ) → same_octets xs xs ≡ true
same_octets_refl [] = refl
same_octets_refl (x ∷ xs) = ground (arith, same_octets_refl xs)

same_addr-eq : (i j : SocketAddr) → same_addr i j ≡ true → i ≡ j
same_addr-eq (v4 i p) (v4 j q) h = ground arith
same_addr-eq (v6 i p) (v6 j q) h = ground (arith, same_octets-eq i j)
same_addr-eq (v4 i p) (v6 j q) h = cc
same_addr-eq (v6 i p) (v4 j q) h = cc

same_addr_refl : (i : SocketAddr) → same_addr i i ≡ true
same_addr_refl (v4 i p) = ground arith
same_addr_refl (v6 i p) = ground (arith, same_octets_refl i)

same_id-eq : (i j : ConnectionId) → same_id i j ≡ true → i ≡ j
unfolding same_id
same_id-eq i j h = ground (
  arith,
  same_protocol-eq i.protocol j.protocol,
  same_addr-eq i.source j.source,
  same_addr-eq i.destination j.destination,
)

same_id_refl : (i : ConnectionId) → same_id i i ≡ true
unfolding same_id
same_id_refl i =
    ground
      (arith, same_protocol_refl i.protocol, same_addr_refl i.source, same_addr_refl i.destination)

id_dec : Discrete ConnectionId
id_dec i j = elim (Bool-cases (same_id i j)) [
  | inl same ↦ yes (same_id-eq i j same)
  | inr differs ↦ no (λ e. ground (arith, differs, same_id_refl i, ap (same_id i) e))
]

instance pub connection_id_key : Key ConnectionId
unfolding id_dec
connection_id_key = record { dec = id_dec }

-- As the map compares keys.
pub same-eq-same_id : (i j : ConnectionId) → same i j ≡ same_id i j
unfolding connection_id_key same_id
same-eq-same_id i j = elim (Bool-cases (same_id i j)) [
  | inl equal ↦ rw equal (ground (arith, same_id-eq i j equal))
  | inr differs ↦ rw differs (ground (arith, differs, same_id_refl i))
]
