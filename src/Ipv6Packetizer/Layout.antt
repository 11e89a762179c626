-- ===== src/Ipv6Packetizer/Layout.antt =====
-- The steps of `build` of relay/src/relay/ipv6_packetizer.rs on a buffer that holds its parts.
use mathlib.Core.List.{append_assoc}
use harmony_os_reverse_tethe.Prelude.{
  ℕ, ◌+◌, ◌*◌, ◌-◌, ◌/◌, ◌%◌, ◌^◌, ◌≤◌, ◌<◌, ◌≡◌, refl, sym, ap, ◌∙◌, List, [], ◌∷◌, ◌++◌, length,
  copy_at, length-copy_at, arith, ok, subslice, write_at, length-append,
}
use harmony_os_reverse_tethe.Prelude.Layout.{subslice-middle, write_at-middle, write_at-inside}
use harmony_os_reverse_tethe.ByteOrder.{ByteOrder}
use harmony_os_reverse_tethe.IpPacket.Framing.{byte-append}
use harmony_os_reverse_tethe.Checksum.{fold, complement, word_sum}
use harmony_os_reverse_tethe.Checksum.Words.{words, read_words, read_words-eq-ok, words-same}
use harmony_os_reverse_tethe.Ipv6Header.{Ipv6HeaderData}
use harmony_os_reverse_tethe.TransportHeader.{TransportHeaderData}
use harmony_os_reverse_tethe.TransportHeader.Edit.{bind, set_payload_length}
use harmony_os_reverse_tethe.Packetizer.Transport.{IsTransport, protocol_of}
use harmony_os_reverse_tethe.Packetizer.Layout.{raw_of-bind, data_clone-bind}
use harmony_os_reverse_tethe.Ipv6Packetizer.{
  Ipv6Packetizer, upper_layer, update_checksum, set_lengths, sent_checksum, checksum_offset,
}
use harmony_os_reverse_tethe.Ipv6Packetizer.Parts.{
  IsHeader, counted, counted-IsHeader, field, offset-field, length-transport,
}

abbrev pub laid_out :
    List ℕ → List ℕ → List ℕ → Ipv6HeaderData → TransportHeaderData → Ipv6Packetizer
laid_out header transport rest ip d = record {
  buffer = header ++ (transport ++ rest);
  payload_index = 40 + length transport;
  ipv6_header_data = ip;
  transport_header_data = d;
  protocol = protocol_of d;
}

-- The addresses' words lie in the header.
pub words-header :
    (header rest : List ℕ) → length header ≡ 40 → words (header ++ rest) 4 16 ≡ words header 4 16
words-header header rest sized =
    words-same (header ++ rest) header 4 16 (λ k a b. byte-append header rest k (omega arith))

-- The transport header with the checksum reset, and with a checksum.
abbrev pub reset_of : TransportHeaderData → List ℕ → List ℕ
reset_of d transport = copy_at (2 * field d) (0 ∷ 0 ∷ []) transport

abbrev pub summed_of : TransportHeaderData → List ℕ → ℕ → List ℕ
summed_of d transport c = copy_at (2 * field d) (c / 2 ^ 8 ∷ c % 2 ^ 8 ∷ []) (reset_of d transport)

-- What the code adds up: addresses, length and next header, and the words behind the header with the field reset.
abbrev pub code_sum : List ℕ → List ℕ → List ℕ → Ipv6HeaderData → TransportHeaderData → ℕ
code_sum header transport payload ip d =
    words header 4 16
    + upper_layer (length transport + length payload) ip.next_header
    + word_sum (reset_of d transport ++ payload)

module _ {E : Type 0} ⦃order : ByteOrder⦄ (header transport : List ℕ) (ip : Ipv6HeaderData)
    (d : TransportHeaderData) (v : IsHeader header ip) (w : IsTransport transport d) where
  pub set_lengths-laid_out :
      (rest after : List ℕ) (n payload_length : ℕ) (small : n < 2 ^ 16)
      → set_payload_length {E = E} (bind d transport) payload_length ≡ ok (bind d after)
      → length after ≡ length transport
      → set_lengths {E = E} (laid_out header transport rest ip d) n payload_length
        ≡ ok (laid_out (counted header ip n v small) after rest ip d)
  unfolding set_lengths
  set_lengths-laid_out rest after n payload_length small set same =
      let word = n / 2 ^ 8 ∷ n % 2 ^ 8 ∷ [] in
      rw
        (
          set_lengths,
          order.write_u16_lem n small,
          write_at-inside {E = E} 0 4 4 word [] header (transport ++ rest) refl refl
              (omega (arith, v.sized)),
          subslice-middle {E = E} 40 (40 + length transport) (counted header ip n v small) transport
              rest (counted-IsHeader header ip n v small).sized refl,
          set,
          raw_of-bind d after,
          data_clone-bind d after,
          write_at-middle {E = E} 40 (counted header ip n v small) transport after rest
              (counted-IsHeader header ip n v small).sized same,
        )
        (ap
          (λ m. ok (record {
            buffer = counted header ip n v small ++ (after ++ rest);
            payload_index = 40 + m;
            ipv6_header_data = ip;
            transport_header_data = d;
            protocol = protocol_of d;
          }))
          (sym same))

  pub update_checksum-laid_out :
      (payload more : List ℕ) (c total : ℕ)
      → c
        ≡ sent_checksum
            (protocol_of d)
            (complement (fold 2 (code_sum header transport payload ip d)))
      → c < 2 ^ 16
      → total ≡ 40 + (length transport + length payload)
      → update_checksum {E = E} (laid_out header transport (payload ++ more) ip d) total
        ≡ ok (record (laid_out header transport (payload ++ more) ip d) {
          buffer = header ++ (summed_of d transport c ++ (payload ++ more));
        })
  unfolding update_checksum
  update_checksum-laid_out payload more c total is_sum small is_total =
      let f = field d in
      let fits : 2 * f + 2 ≤ length transport = omega (arith, length-transport d transport w) in
      let cleared = reset_of d transport in
      let same : length cleared ≡ length transport =
        length-copy_at (2 * f) (0 ∷ 0 ∷ []) transport fits in
      let is_index : 40 + checksum_offset (protocol_of d) ≡ 40 + 2 * f =
        ap (λ n. 40 + n) (offset-field d) in
      let cleared_in : write_at {E = E} (header ++ (transport ++ (payload ++ more)))
            (40 + checksum_offset (protocol_of d)) (0 ∷ 0 ∷ [])
          ≡ ok (header ++ (cleared ++ (payload ++ more))) =
        write_at-inside {E = E} 40 (2 * f) (40 + checksum_offset (protocol_of d)) (0 ∷ 0 ∷ [])
          header transport (payload ++ more) v.sized is_index fits in
      let addresses : read_words {E = E} (header ++ (cleared ++ (payload ++ more))) 4 16
          ≡ ok (words header 4 16) =
        read_words-eq-ok {E = E} (header ++ (cleared ++ (payload ++ more))) 4 16
          (omega (arith, length-append header (cleared ++ (payload ++ more)), v.sized))
        ∙ ap ok (words-header header (cleared ++ (payload ++ more)) v.sized) in
      let segment : subslice {E = E} (header ++ (cleared ++ (payload ++ more))) 40 total
          ≡ ok (cleared ++ payload) =
        ap (λ l. subslice {E = E} (header ++ l) 40 total) (sym (append_assoc cleared payload more))
        ∙ subslice-middle {E = E} 40 total header (cleared ++ payload) more v.sized
            (omega (arith, length-append cleared payload, same)) in
      let transport_length : total - 40 ≡ length transport + length payload = omega arith in
      let written_in : write_at {E = E} (header ++ (cleared ++ (payload ++ more)))
            (40 + checksum_offset (protocol_of d)) (c / 2 ^ 8 ∷ c % 2 ^ 8 ∷ [])
          ≡ ok (header ++ (summed_of d transport c ++ (payload ++ more))) =
        write_at-inside {E = E} 40 (2 * f) (40 + checksum_offset (protocol_of d))
          (c / 2 ^ 8 ∷ c % 2 ^ 8 ∷ []) header cleared (payload ++ more) v.sized is_index
          (omega (arith, same, fits)) in
      rw
        (
          update_checksum,
          order.write_u16_lem 0 (omega arith),
          cleared_in,
          addresses,
          segment,
          transport_length,
          sym is_sum,
          order.write_u16_lem c small,
          written_in,
        )
        refl
