-- ===== src/Packetizer/Layout.antt =====
-- The parts of a packetizer's buffer: the headers and what stands behind them.
use mathlib.Core.List.{append_assoc}
use harmony_os_reverse_tethe.Prelude.{
  ℕ, ◌+◌, ◌≡◌, refl, sym, ap, ◌∙◌, List, ◌++◌, length, arith, Outcome, ok, subslice, write_at,
  length-append,
}
use harmony_os_reverse_tethe.Prelude.Layout.{
  subslice-start, subslice-middle, subslice-end, write_at-start, write_at-middle,
}
use harmony_os_reverse_tethe.ByteOrder.{ByteOrder}
use harmony_os_reverse_tethe.Ipv4Header.{Ipv4HeaderData}
use harmony_os_reverse_tethe.Ipv4Header.Edit.{Ipv4HeaderMut}
use harmony_os_reverse_tethe.Ipv4Header.Checksum as Ipv4Checksum
use harmony_os_reverse_tethe.TransportHeader
use harmony_os_reverse_tethe.TransportHeader.{TransportHeaderData}
use harmony_os_reverse_tethe.TransportHeader.Edit as TransportEdit
use harmony_os_reverse_tethe.TransportHeader.Edit.{TransportHeaderMut, bind, raw_of, data_clone}
use harmony_os_reverse_tethe.Ipv4Packet.Parts
use harmony_os_reverse_tethe.Packetizer.{
  Packetizer, with_ipv4_header, with_transport_header, inflate,
}

pub raw_of-bind : (d : TransportHeaderData) (raw : List ℕ) → raw_of (bind d raw) ≡ raw
unfolding raw_of bind
raw_of-bind (TransportHeaderData.tcp h) raw = refl
raw_of-bind (TransportHeaderData.udp h) raw = refl

pub data_clone-bind : (d : TransportHeaderData) (raw : List ℕ) → data_clone (bind d raw) ≡ d
unfolding data_clone bind
data_clone-bind (TransportHeaderData.tcp h) raw = refl
data_clone-bind (TransportHeaderData.udp h) raw = refl

-- The packetizer whose buffer holds these parts.
abbrev pub laid_out : List ℕ → List ℕ → List ℕ → Ipv4HeaderData → TransportHeaderData → Packetizer
laid_out header transport rest ip d = record {
  buffer = header ++ (transport ++ rest);
  transport_index = length header;
  payload_index = length header + length transport;
  ipv4_header_data = ip;
  transport_header_data = d;
}

module _ {E : Type 0} (header transport rest : List ℕ) (ip : Ipv4HeaderData)
    (d : TransportHeaderData) where
  pub with_ipv4_header-laid_out :
      (change : Ipv4HeaderMut → Outcome E Ipv4HeaderMut) (after : List ℕ) (e : Ipv4HeaderData)
      → change (record { raw = header; header_data = ip })
        ≡ ok (record { raw = after; header_data = e })
      → length after ≡ length header
      → with_ipv4_header change (laid_out header transport rest ip d)
        ≡ ok (laid_out after transport rest e d)
  unfolding with_ipv4_header
  with_ipv4_header-laid_out change after e done same =
      rw
        (
          with_ipv4_header,
          subslice-start {E = E} (length header) header (transport ++ rest) refl,
          done,
          write_at-start {E = E} header after (transport ++ rest) same,
        )
        (ap
          (λ n. ok (record {
            buffer = after ++ (transport ++ rest);
            transport_index = n;
            payload_index = n + length transport;
            ipv4_header_data = e;
            transport_header_data = d;
          }))
          (sym same))

  pub with_transport_header-laid_out :
      (change : TransportHeaderMut → Outcome E TransportHeaderMut) (after : List ℕ)
      (e : TransportHeaderData)
      → change (bind d transport) ≡ ok (bind e after)
      → length after ≡ length transport
      → with_transport_header change (laid_out header transport rest ip d)
        ≡ ok (laid_out header after rest ip e)
  unfolding with_transport_header
  with_transport_header-laid_out change after e done same =
      rw
        (
          with_transport_header,
          subslice-middle {E = E} (length header) (length header + length transport) header
              transport rest refl refl,
          done,
          raw_of-bind e after,
          data_clone-bind e after,
          write_at-middle {E = E} (length header) header transport after rest refl same,
        )
        (ap
          (λ n. ok (record {
            buffer = header ++ (after ++ rest);
            transport_index = length header;
            payload_index = length header + n;
            ipv4_header_data = ip;
            transport_header_data = e;
          }))
          (sym same))

pub regrouped :
    (header transport payload more : List ℕ)
    → header ++ (transport ++ (payload ++ more)) ≡ (header ++ (transport ++ payload)) ++ more
regrouped header transport payload more =
    ap (λ l. header ++ l) (sym (append_assoc transport payload more))
    ∙ sym (append_assoc header (transport ++ payload) more)

module _ {E : Type 0} (header transport payload more : List ℕ) (ip : Ipv4HeaderData)
    (d : TransportHeaderData) where
  pub inflate-laid_out :
      (n : ℕ)
      → n ≡ length header + length transport + length payload
      → inflate {E = E} (laid_out header transport (payload ++ more) ip d) n
        ≡ ok (Parts.new (header ++ (transport ++ payload)) ip d)
  unfolding inflate
  inflate-laid_out n counted =
      rw
        (
          inflate,
          ap (λ l. subslice {E = E} l 0 n) (regrouped header transport payload more)
              ∙ subslice-start {E = E} n (header ++ (transport ++ payload)) more (
                  omega (
                    arith,
                    length-append header (transport ++ payload),
                    length-append transport payload,
                  )),
        )
        refl

-- The packet is written back over the front of the buffer.
pub write_packet :
    {E : Type 0} (header transport payload more before behind : List ℕ)
    → length before ≡ length header
    → length behind ≡ length transport
    → write_at {E = E}
        (header ++ (transport ++ (payload ++ more)))
        0
        (before ++ (behind ++ payload))
      ≡ ok (before ++ (behind ++ (payload ++ more)))
write_packet {E} header transport payload more before behind h k =
    ap (λ l. write_at {E = E} l 0 (before ++ (behind ++ payload)))
      (regrouped header transport payload more)
    ∙ write_at-start {E = E} (header ++ (transport ++ payload)) (before ++ (behind ++ payload)) more
        (omega (
          arith,
          length-append header (transport ++ payload),
          length-append transport payload,
          length-append before (behind ++ payload),
          length-append behind payload,
        ))
    ∙ ap ok (sym (regrouped before behind payload more))

module _ {E : Type 0} ⦃order : ByteOrder⦄ (header transport payload : List ℕ) (ip : Ipv4HeaderData)
    (d : TransportHeaderData) where
  -- The checksums are written into the two headers.
  pub compute_checksums-laid :
      (before behind : List ℕ)
      → length header ≡ ip.header_length
      → length transport ≡ TransportHeader.header_length d
      → Ipv4Checksum.update_checksum {E = E} (record { raw = header; header_data = ip })
        ≡ ok (record { raw = before; header_data = ip })
      → length before ≡ length header
      → TransportEdit.update_checksum {E = E} (bind d transport) ip payload ≡ ok (bind d behind)
      → length behind ≡ length transport
      → Parts.compute_checksums {E = E} (Parts.new (header ++ (transport ++ payload)) ip d)
        ≡ ok (Parts.new (before ++ (behind ++ payload)) ip d)
  unfolding Parts.compute_checksums Parts.new
  compute_checksums-laid before behind hs ts h same k same' =
      rw
        (
          Parts.compute_checksums,
          Parts.new,
          subslice-start {E = E} ip.header_length header (transport ++ payload) hs,
          subslice-end {E = E} ip.header_length header (transport ++ payload) hs,
          subslice-start {E = E} (TransportHeader.header_length d) transport payload ts,
          subslice-end {E = E} (TransportHeader.header_length d) transport payload ts,
          h,
          write_at-start {E = E} header before (transport ++ payload) same,
          k,
          raw_of-bind d behind,
          write_at-middle {E = E} ip.header_length before transport behind payload (same ∙ hs)
              same',
        )
        refl
