-- ===== src/Net/Ipv4.antt =====
-- kernel/ipv4.c: the checksum, the header, and what a received packet does.
pub mod Checksum
pub mod Receive
pub mod Header
mod Tests
use Prim.Native.Nat.{bit_and, bit_or}
use risc_v_os.Base.{
  ℕ, suc, zero, ◌+◌, ◌-◌, ◌*◌, ◌/◌, ◌^◌, Bool, true, false, not, ◌&&◌, ◌||◌, List, [], ◌∷◌, ◌++◌,
  ltb, ◌==◌, if◌then◌else◌, take, drop,
}
use risc_v_os.Base.Word.{u8, u16, add32}
use risc_v_os.Net.Wire.{byte, read_be16, write_be16, read_ipv4, write_ipv4}
use risc_v_os.Net.Arp.{ethernet_header_size, ipv4_local_address}

abbrev pub ipv4_ethertype : ℕ
ipv4_ethertype = 0x0800

abbrev pub ipv4_header_min_size : ℕ
ipv4_header_min_size = 20

abbrev pub ipv4_max_packet_size : ℕ
ipv4_max_packet_size = 1500

abbrev pub ipv4_broadcast_address : ℕ
ipv4_broadcast_address = 0xffff_ffff

pub record Stats : Type 0 where
  pub rx_packets : ℕ
  pub rx_dropped : ℕ
  pub rx_icmp : ℕ
  pub rx_udp : ℕ
  pub rx_tcp : ℕ
  pub rx_other : ℕ
  pub tx_packets : ℕ
  pub tx_dropped : ℕ

pub record Ipv4 : Type 0 where
  pub stats : Stats
  pub next_identification : ℕ

-- The state that `ipv4_init` sets up, before it prints the address.
unfoldable pub ipv4_init : Ipv4
ipv4_init = record {
  stats = record {
    rx_packets = 0;
    rx_dropped = 0;
    rx_icmp = 0;
    rx_udp = 0;
    rx_tcp = 0;
    rx_other = 0;
    tx_packets = 0;
    tx_dropped = 0;
  };
  next_identification = 1;
}

-- The first loop of `ipv4_checksum`, and the odd byte behind it.
unfoldable pub word_sum : ℕ → List ℕ → ℕ
word_sum sum [] = sum
word_sum sum (a ∷ []) = add32 sum (u16 a * 2 ^ 8)
word_sum sum (a ∷ b ∷ bytes) = word_sum (add32 sum (bit_or (u16 a * 2 ^ 8) b)) bytes

-- `while (sum >> 16)`; a 32-bit sum takes two rounds at most.
unfoldable pub fold_carries : ℕ → ℕ → ℕ
fold_carries zero sum = sum
fold_carries (suc fuel) sum =
    let next = fold_carries fuel (add32 (bit_and sum 0xffff) (sum / 2 ^ 16)) in
    if sum / 2 ^ 16 == 0 then sum else next

-- `return ~sum;` as a `uint16_t`.
unfoldable pub ipv4_checksum : List ℕ → ℕ
ipv4_checksum bytes = u16 (2 ^ 32 - 1 - fold_carries 2 (word_sum 0 bytes))

unfoldable pub ipv4_is_for_us : ℕ → Bool
ipv4_is_for_us dst_ip = dst_ip == ipv4_local_address || dst_ip == ipv4_broadcast_address

-- `stats.rx_dropped++; return;`
abbrev pub rx_drop : Ipv4 → Ipv4
rx_drop s = record s { stats = record s.stats { rx_dropped = add32 s.stats.rx_dropped 1 } }

-- The counters of an accepted packet.
unfoldable pub count_protocol : ℕ → Stats → Stats
count_protocol protocol t =
    if protocol == 1
    then record t { rx_icmp = add32 t.rx_icmp 1 }
    else if protocol == 17
    then record t { rx_udp = add32 t.rx_udp 1 }
    else if protocol == 6
    then record t { rx_tcp = add32 t.rx_tcp 1 }
    else record t { rx_other = add32 t.rx_other 1 }

abbrev pub rx_accept : ℕ → Ipv4 → Ipv4
rx_accept protocol s = record s {
  stats = count_protocol protocol (record s.stats { rx_packets = add32 s.stats.rx_packets 1 });
}

abbrev pub version : List ℕ → ℕ
version p = byte p 0 / 2 ^ 4

abbrev pub header_len : List ℕ → ℕ
header_len p = bit_and (byte p 0) 0x0f * 4

abbrev pub total_length : List ℕ → ℕ
total_length p = read_be16 (drop 2 p)

abbrev pub flags_fragment : List ℕ → ℕ
flags_fragment p = read_be16 (drop 6 p)

abbrev pub protocol_of : List ℕ → ℕ
protocol_of p = byte p 9

abbrev pub dst_ip_of : List ℕ → ℕ
dst_ip_of p = read_ipv4 (drop 16 p)

-- The checks of `ipv4_receive` from the header on, for a packet with room for a header.
unfoldable pub receive_packet : List ℕ → ℕ → Ipv4 → Ipv4
receive_packet p packet_capacity s =
    if not (version p == 4)
      || (ltb (bit_and (byte p 0) 0x0f) 5 || ltb packet_capacity (header_len p))
    then rx_drop s
    else if ltb (total_length p) (header_len p) || ltb packet_capacity (total_length p)
    then rx_drop s
    else if not (ipv4_checksum (take (header_len p) p) == 0)
    then rx_drop s
    else if not (bit_and (flags_fragment p) 0x2000 == 0)
        || not (bit_and (flags_fragment p) 0x1fff == 0)
    then rx_drop s
    else if not (ipv4_is_for_us (dst_ip_of p))
    then rx_drop s
    else rx_accept (protocol_of p) s

unfoldable pub ipv4_receive : List ℕ → ℕ → Ipv4 → Ipv4
ipv4_receive frame frame_len s =
    if ltb frame_len (ethernet_header_size + ipv4_header_min_size)
    then rx_drop s
    else receive_packet (drop ethernet_header_size frame) (frame_len - ethernet_header_size) s

-- The header that `ipv4_send` writes, with a checksum field.
unfoldable pub ipv4_header : ℕ → ℕ → ℕ → ℕ → ℕ → List ℕ
ipv4_header length identification protocol dst_ip checksum =
    bit_or (4 * 2 ^ 4) 5
    ∷ 0
    ∷ (write_be16 length
        ++ (write_be16 identification
            ++ (write_be16 0
                ++ (64
                    ∷ u8 protocol
                    ∷ (write_be16 checksum
                        ++ (write_ipv4 ipv4_local_address ++ write_ipv4 dst_ip))))))

-- The checksum goes over the header whose checksum field is still zero.
unfoldable pub ipv4_packet : ℕ → ℕ → ℕ → ℕ → List ℕ → List ℕ
ipv4_packet length identification protocol dst_ip payload =
    ipv4_header length identification protocol dst_ip
      (ipv4_checksum (ipv4_header length identification protocol dst_ip 0))
    ++ payload
