-- ===== src/Ipv6Packetizer/Build.antt =====
-- `build` of relay/src/relay/ipv6_packetizer.rs: the packet is accepted, so that its `expect` does not panic.
use harmony_os_reverse_tethe.Prelude.{
  ℕ, ◌+◌, ◌*◌, ◌-◌, ◌^◌, ◌≤◌, ◌<◌, ◌≡◌, ap, ◌∙◌, List, ◌++◌, length, All, arith, length-append,
}
use harmony_os_reverse_tethe.Prelude.Layout.{drop-append, All-append}
use harmony_os_reverse_tethe.IpPacket.Framing.{IsByte, byte-lt}
use harmony_os_reverse_tethe.Checksum.{fold, complement, word_sum}
use harmony_os_reverse_tethe.Checksum.Words.{words-le, word_sum-le, summed-IsByte}
use harmony_os_reverse_tethe.Ipv6Header.{Ipv6HeaderData}
use harmony_os_reverse_tethe.TransportHeader.{TransportHeaderData}
use harmony_os_reverse_tethe.Packetizer.Transport.{IsTransport, protocol_of, Counts}
use harmony_os_reverse_tethe.Ipv6Packetizer.{upper_layer, sent_checksum}
use harmony_os_reverse_tethe.Ipv6Packetizer.Checksum.{
  fold-sent_checksum, sent_checksum-lt, length-reset, length-written, word_sum-written,
  written_elsewhere, written-IsByte,
}
use harmony_os_reverse_tethe.Ipv6Packetizer.Parts.{
  IsHeader, field, behind, length-transport, IsTransport-apart, Counts-apart,
}
use harmony_os_reverse_tethe.Ipv6Packetizer.Layout.{words-header, reset_of, summed_of, code_sum}
use harmony_os_reverse_tethe.Ipv6Packetizer.Packet.{receiver_sum}

pub eight-le : (d : TransportHeaderData) (raw : List ℕ) → IsTransport raw d → 8 ≤ length raw
eight-le (TransportHeaderData.tcp h) raw v = omega (arith, v.long)
eight-le (TransportHeaderData.udp h) raw v = omega (arith, v.long)

module _ (header transport payload : List ℕ) (ip : Ipv6HeaderData) (d : TransportHeaderData)
    (v : IsHeader header ip) (w : IsTransport transport d) (bytes : All IsByte payload)
    (fits : length transport + length payload < 2 ^ 16) where
  -- The checksum that the code sends.
  abbrev pub checksum : ℕ
  checksum =
      sent_checksum (protocol_of d) (complement (fold 2 (code_sum header transport payload ip d)))

  pub checksum_small : checksum < 2 ^ 16
  checksum_small = sent_checksum-lt (protocol_of d) _ (omega arith)

  long : 2 * field d + 2 + 2 * behind d transport ≤ length transport
  long = omega (arith, length-transport d transport w)

  zero_small : 0 < 2 ^ 16
  zero_small = omega arith

  abbrev pub after : List ℕ
  after = summed_of d transport checksum

  pub length-after : length after ≡ length transport
  length-after =
      length-written transport payload (field d) checksum (behind d transport) long zero_small
        checksum_small (length-transport d transport w)

  pub after-IsTransport : IsTransport after d
  after-IsTransport =
      IsTransport-apart transport after length-after
        (written-IsByte transport payload (field d) checksum (behind d transport) long zero_small
          checksum_small (length-transport d transport w) w.bytes)
        d w
        (written_elsewhere transport payload (field d) checksum (behind d transport) long zero_small
          checksum_small (length-transport d transport w))

  pub after-Counts : (n : ℕ) → Counts d transport n → Counts d after n
  after-Counts n c = Counts-apart transport after d n c (
      written_elsewhere transport payload (field d) checksum (behind d transport) long zero_small
        checksum_small (length-transport d transport w))

  code_sum-lt : code_sum header transport payload ip d < 2 ^ 32 - 2 ^ 16
  code_sum-lt = omega (
    arith,
    words-le header 4 16 v.bytes,
    v.next,
    byte-lt header 6 v.bytes,
    word_sum-le (reset_of d transport ++ payload) (
        All-append IsByte (reset_of d transport) payload
          (summed-IsByte transport (field d) 0 (behind d transport) long zero_small w.bytes) bytes),
    length-append (reset_of d transport) payload,
    length-reset transport payload (field d) checksum (behind d transport) long zero_small
        checksum_small (length-transport d transport w),
  )

  -- The receiver adds what the code added, and the checksum.
  pub receiver_sum-after :
      receiver_sum (header ++ (after ++ payload)) ip.next_header
      ≡ code_sum header transport payload ip d + checksum
  receiver_sum-after = omega (
    arith,
    words-header header (after ++ payload) v.sized,
    ap word_sum (drop-append 40 header (after ++ payload) v.sized),
    ap (λ n. upper_layer n ip.next_header) {x = length (header ++ (after ++ payload)) - 40}
        {y = length transport + length payload}
        (omega (
          arith,
          length-append header (after ++ payload),
          length-append after payload,
          length-after,
          v.sized,
        )),
    word_sum-written transport payload (field d) checksum (behind d transport) long zero_small
        checksum_small (length-transport d transport w),
  )

  pub receiver-folds :
      fold 2 (receiver_sum (header ++ (after ++ payload)) ip.next_header) ≡ 2 ^ 16 - 1
  receiver-folds =
      ap (fold 2) receiver_sum-after
      ∙ fold-sent_checksum (protocol_of d) (code_sum header transport payload ip d) code_sum-lt
