-- ===== src/Net/Ipv4/Header.antt =====
-- kernel/ipv4.c: the header that `ipv4_send` writes.
use Prim.Native.Nat.{bit_and}
use risc_v_os.Base.{
  ℕ, ◌+◌, ◌-◌, ◌*◌, ◌%◌, ◌^◌, ◌≤◌, ◌<◌, ◌≡◌, refl, ap, ◌∙◌, List, ◌++◌, arith, length, true, take,
  take-append, drop-append, append_assoc,
}
use risc_v_os.Base.Word.{u8}
use risc_v_os.Base.Bits.{bit_and-mask}
use risc_v_os.Net.Wire.{
  Bytes, byte, write_be16, write_ipv4, read_be16, read_be16-write_be16, read_ipv4-write_ipv4,
}
use risc_v_os.Net.Arp.{ethernet_header_size}
use risc_v_os.Net.Ipv4.{
  Ipv4, ipv4_receive, ipv4_header, ipv4_packet, ipv4_checksum, total_length, dst_ip_of,
  receive_packet, rx_accept, ipv4_is_for_us, header_len, flags_fragment, protocol_of,
}
use risc_v_os.Net.Ipv4.Checksum.{word_total, ipv4_checksum_completes, ipv4_checksum_verifies}

module _ (len ident proto dst : ℕ) where
  abbrev pub header : ℕ → List ℕ
  header c = ipv4_header len ident proto dst c

  header-Bytes : (c : ℕ) → Bytes (header c)
  unfolding ipv4_header write_be16 write_ipv4
  header-Bytes c =
      omega (arith, bit_and-mask 8 len, bit_and-mask 8 ident, bit_and-mask 8 0, bit_and-mask 8 c)

  length-header : (c : ℕ) → length (header c) ≡ 20
  unfolding ipv4_header write_be16 write_ipv4
  length-header c = refl

  word_total-header : (c : ℕ) → c < 2 ^ 16 → word_total (header c) ≡ word_total (header 0) + c
  unfolding ipv4_header write_be16 write_ipv4
  word_total-header c h = omega (arith, bit_and-mask 8 c)

  header_positive : (c : ℕ) → 0 < word_total (header c)
  unfolding ipv4_header
  header_positive c = omega arith

  -- The header of a packet that is sent passes the check that a receiver makes.
  pub ipv4_checksum-header : ipv4_checksum (header (ipv4_checksum (header 0))) ≡ 0
  ipv4_checksum-header =
      (ipv4_checksum_verifies (header c) (header-Bytes c) (omega (arith, length-header c))).1
        (omega (arith, sums, word_total-header c sums.0), header_positive c)
    where
      c : ℕ
      c = ipv4_checksum (header 0)

      sums : (c < 2 ^ 16) × ((word_total (header 0) + c) % 65535 ≡ 0)
      sums = ipv4_checksum_completes (header 0) (header-Bytes 0) (omega (arith, length-header 0))

-- What stands behind the header's fields, read where `ipv4_receive` reads.
module _ (len ident proto dst : ℕ) (rest : List ℕ) (len_u16 : len < 2 ^ 16)
    (dst_u32 : dst < 2 ^ 32) where
  abbrev at_wire : List ℕ
  at_wire = header len ident proto dst (ipv4_checksum (header len ident proto dst 0)) ++ rest

  wire-total_length : total_length at_wire ≡ len
  unfolding ipv4_header write_be16
  wire-total_length = read_be16-write_be16 len _ len_u16

  wire-dst_ip : dst_ip_of at_wire ≡ dst
  unfolding ipv4_header write_be16 write_ipv4
  wire-dst_ip = read_ipv4-write_ipv4 dst rest dst_u32

  wire-header :
      take 20 at_wire ≡ header len ident proto dst (ipv4_checksum (header len ident proto dst 0))
  wire-header = take-append 20 _ rest (length-header len ident proto dst _)

  wire-start : byte at_wire 0 ≡ 69
  unfolding ipv4_header
  wire-start = refl

  wire-flags : flags_fragment at_wire ≡ 0
  unfolding ipv4_header write_be16 read_be16
  wire-flags = refl

  wire-protocol : protocol_of at_wire ≡ u8 proto
  unfolding ipv4_header write_be16
  wire-protocol = refl

  wire-checksum : ipv4_checksum (take (header_len at_wire) at_wire) ≡ 0
  wire-checksum =
      ap (λ b. ipv4_checksum (take (bit_and b 0x0f * 4) at_wire)) wire-start
      ∙ ap ipv4_checksum wire-header
      ∙ ipv4_checksum-header len ident proto dst

  -- `receive_packet` accepts it, where the destination is the local or the broadcast address.
  pub receive_packet-sent :
      (packet_capacity : ℕ) (s : Ipv4)
      → 20 ≤ len
      → len ≤ packet_capacity
      → ipv4_is_for_us dst ≡ true
      → receive_packet at_wire packet_capacity s ≡ rx_accept (u8 proto) s
  unfolding receive_packet
  receive_packet-sent packet_capacity s long fits ours =
      rw
        (
          wire-start,
          wire-total_length,
          wire-flags,
          wire-dst_ip,
          wire-protocol,
          ap ipv4_checksum wire-header ∙ ipv4_checksum-header len ident proto dst,
        )
        (ground arith)

-- What `ipv4_send` builds, `ipv4_receive` accepts and counts under its protocol, whatever the Ethernet
-- header in front and the padding behind, where the destination is the local or the broadcast address.
pub ipv4_receive-ipv4_packet :
    (ident proto dst frame_len : ℕ) (eth payload padding : List ℕ) (s : Ipv4)
    → length eth ≡ ethernet_header_size
    → 20 + length payload < 2 ^ 16
    → ethernet_header_size + 20 + length payload ≤ frame_len
    → dst < 2 ^ 32
    → ipv4_is_for_us dst ≡ true
    → ipv4_receive
        (eth ++ (ipv4_packet (20 + length payload) ident proto dst payload ++ padding))
        frame_len
        s
      ≡ rx_accept (u8 proto) s
unfolding ipv4_receive ipv4_packet
ipv4_receive-ipv4_packet ident proto dst frame_len eth payload padding s len small fits dst_u32
      ours =
    rw
      (
        drop-append ethernet_header_size eth _ len,
        append_assoc (header (20 + length payload) ident proto dst _) payload padding,
      )
      (ground (
        arith,
        receive_packet-sent (20 + length payload) ident proto dst (payload ++ padding) small dst_u32
            (frame_len - ethernet_header_size) s,
      ))
