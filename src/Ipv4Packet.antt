-- ===== src/Ipv4Packet.antt =====
-- relay/src/relay/ipv4_packet.rs: an IPv4 packet with its headers read.
pub mod Parts
use harmony_os_reverse_tethe.Prelude.{
  ℕ, ◌+◌, List, length, Option, none, some, Bool, true, false, Outcome, ok, ◌>>=◌, subslice,
}
use harmony_os_reverse_tethe.ByteOrder.{ByteOrder}
use harmony_os_reverse_tethe.Ipv4Header
use harmony_os_reverse_tethe.Ipv4Header.{Ipv4HeaderData}
use harmony_os_reverse_tethe.TransportHeader
use harmony_os_reverse_tethe.TransportHeader.{TransportHeaderData}

pub record Ipv4Packet : Type 0 where
  pub raw : List ℕ
  pub ipv4_header_data : Ipv4HeaderData
  pub transport_header_data : Option TransportHeaderData

unfoldable pub is_valid : Ipv4Packet → Bool
is_valid p = elim p.transport_header_data [ none ↦ false | some h ↦ true ]

module _ {E : Type 0} ⦃order : ByteOrder⦄ where
  unfoldable pub parse : List ℕ → Outcome E Ipv4Packet
  parse raw = do
    header ← Ipv4Header.parse raw
    payload ← subslice raw header.header_length (length raw)
    transport ← TransportHeader.parse header.protocol payload
    front ← subslice raw 0 header.total_length
    ok (record { raw = front; ipv4_header_data = header; transport_header_data = transport })

-- The bytes behind both headers, `none` without a transport header.
unfoldable pub payload : {E : Type 0} → Ipv4Packet → Outcome E (Option (List ℕ))
payload p = elim p.transport_header_data [
  | none ↦ ok none
  | some h ↦
      subslice p.raw (p.ipv4_header_data.header_length + TransportHeader.header_length h)
        (length p.raw)
      >>= λ bytes. ok (some bytes)
]

-- `Ipv4Packet::length`: what the header says.
abbrev pub packet_length : Ipv4Packet → ℕ
packet_length p = p.ipv4_header_data.total_length
