-- ===== src/Net/Ipv4/Receive.antt =====
-- kernel/ipv4.c: which frames `ipv4_receive` accepts, and how it counts.
use Prim.Native.Nat.{bit_and}
use risc_v_os.Base.{
  ℕ, suc, zero, ◌+◌, ◌-◌, ◌*◌, ◌/◌, ◌%◌, ◌^◌, ◌≤◌, ◌<◌, ◌≡◌, refl, ap, ◌↔◌, ◌⊎◌, inl, inr, Bool,
  true, not, ◌&&◌, ◌||◌, List, [], ◌∷◌, arith, ◌==◌, if◌then◌else◌, ltb, take, drop, length-take,
  Bool-cases,
}
use risc_v_os.Base.Word.{u32, add32}
use risc_v_os.Base.Bits.{bit_and-mask, bit_and-bit}
use risc_v_os.Net.Wire.{Bytes, byte}
use risc_v_os.Net.Arp.{ethernet_header_size, ipv4_local_address}
use risc_v_os.Net.Ipv4.{
  Ipv4, Stats, ipv4_receive, receive_packet, rx_drop, rx_accept, count_protocol, ipv4_checksum,
  ipv4_is_for_us, ipv4_broadcast_address, version, header_len, total_length, flags_fragment,
  dst_ip_of, protocol_of,
}
use risc_v_os.Net.Ipv4.Checksum.{word_total, ipv4_checksum_verifies}

-- A whole, unfragmented IPv4 packet for this station with a valid header, in `capacity` bytes.
pub record IsAcceptable (p : List ℕ) (capacity : ℕ) : Type 0 where
  pub version_four : byte p 0 / 16 ≡ 4
  pub header_long : 5 ≤ byte p 0 % 16
  pub header_fits : byte p 0 % 16 * 4 ≤ capacity
  pub total_long : byte p 0 % 16 * 4 ≤ total_length p
  pub total_fits : total_length p ≤ capacity
  pub sum : word_total (take (byte p 0 % 16 * 4) p) % 65535 ≡ 0
  pub sum_pos : 0 < word_total (take (byte p 0 % 16 * 4) p)
  pub whole : flags_fragment p % 2 ^ 14 ≡ 0
  pub for_us : (dst_ip_of p ≡ ipv4_local_address) ⊎ (dst_ip_of p ≡ ipv4_broadcast_address)

-- The checks in the order of the code, as one test.
abbrev pub acceptable : List ℕ → ℕ → Bool
acceptable p c =
    not (not (version p == 4) || (ltb (bit_and (byte p 0) 0x0f) 5 || ltb c (header_len p)))
    && (not (ltb (total_length p) (header_len p) || ltb c (total_length p))
        && ((ipv4_checksum (take (header_len p) p) == 0)
            && (not (
                  not (bit_and (flags_fragment p) 0x2000 == 0)
                  || not (bit_and (flags_fragment p) 0x1fff == 0))
                && ipv4_is_for_us (dst_ip_of p))))

receive_packet-eq :
    (p : List ℕ) (c : ℕ) (s : Ipv4)
    → receive_packet p c s ≡ (if acceptable p c then rx_accept (protocol_of p) s else rx_drop s)
unfolding receive_packet
receive_packet-eq p c s = ground arith

Bytes-take : (n : ℕ) (bs : List ℕ) → Bytes bs → Bytes (take n bs)
Bytes-take zero bs h = tt
Bytes-take (suc n) [] h = tt
Bytes-take (suc n) (b ∷ bs) h = (h.0, Bytes-take n bs h.1)

Bytes-drop : (n : ℕ) (bs : List ℕ) → Bytes bs → Bytes (drop n bs)
Bytes-drop zero bs h = h
Bytes-drop (suc n) [] h = tt
Bytes-drop (suc n) (b ∷ bs) h = Bytes-drop n bs h.1

module _ (p : List ℕ) (c : ℕ) (b : Bytes p) where
  nibble : bit_and (byte p 0) 0x0f ≡ byte p 0 % 16
  nibble = bit_and-mask 4 (byte p 0)

  verified : (ipv4_checksum (take (header_len p) p) ≡ 0) ↔ (
      (word_total (take (header_len p) p) % 65535 ≡ 0) × (0 < word_total (take (header_len p) p)))
  verified =
      ipv4_checksum_verifies (take (header_len p) p) (Bytes-take (header_len p) p b)
        (omega (arith, length-take (header_len p) p, nibble))

  acceptable→IsAcceptable : acceptable p c ≡ true → IsAcceptable p c
  unfolding ipv4_is_for_us
  acceptable→IsAcceptable h = ground (
    arith,
    nibble,
    verified,
    ap (λ n. word_total (take (n * 4) p)) nibble,
    bit_and-bit 13 (flags_fragment p),
    bit_and-mask 13 (flags_fragment p),
  )

  IsAcceptable→acceptable : IsAcceptable p c → acceptable p c ≡ true
  unfolding ipv4_is_for_us
  IsAcceptable→acceptable h = ground (
    arith,
    nibble,
    verified,
    ap (λ n. word_total (take (n * 4) p)) nibble,
    bit_and-bit 13 (flags_fragment p),
    bit_and-mask 13 (flags_fragment p),
  )

-- A frame with room for the headers that holds an acceptable packet.
abbrev pub Acceptable : List ℕ → ℕ → Type 0
Acceptable frame frame_len =
    (ethernet_header_size + 20 ≤ frame_len)
    × IsAcceptable (drop ethernet_header_size frame) (frame_len - ethernet_header_size)

-- One packet more, and one more under its protocol: 1 is ICMP, 17 UDP, 6 TCP. Nothing else changes.
pub record Accepted (protocol : ℕ) (s s' : Ipv4) : Type 0 where
  pub packets : s'.stats.rx_packets ≡ add32 s.stats.rx_packets 1
  pub icmp : s'.stats.rx_icmp ≡ (if protocol == 1 then add32 s.stats.rx_icmp 1 else s.stats.rx_icmp)
  pub udp : s'.stats.rx_udp ≡ (if protocol == 17 then add32 s.stats.rx_udp 1 else s.stats.rx_udp)
  pub tcp : s'.stats.rx_tcp ≡ (if protocol == 6 then add32 s.stats.rx_tcp 1 else s.stats.rx_tcp)
  pub other : s'.stats.rx_other ≡ (
      if protocol == 1 || (protocol == 17 || protocol == 6)
      then s.stats.rx_other
      else add32 s.stats.rx_other 1)
  pub dropped : s'.stats.rx_dropped ≡ s.stats.rx_dropped
  pub sent : (s'.stats.tx_packets ≡ s.stats.tx_packets) × (s'.stats.tx_dropped ≡ s.stats.tx_dropped)
  pub identification : s'.next_identification ≡ s.next_identification

-- One frame more dropped, and nothing else.
abbrev pub dropped_one : Ipv4 → Ipv4
dropped_one s = record {
  stats = record {
    rx_packets = s.stats.rx_packets;
    rx_dropped = add32 s.stats.rx_dropped 1;
    rx_icmp = s.stats.rx_icmp;
    rx_udp = s.stats.rx_udp;
    rx_tcp = s.stats.rx_tcp;
    rx_other = s.stats.rx_other;
    tx_packets = s.stats.tx_packets;
    tx_dropped = s.stats.tx_dropped;
  };
  next_identification = s.next_identification;
}

pub rx_accept-Accepted : (protocol : ℕ) (s : Ipv4) → Accepted protocol s (rx_accept protocol s)
unfolding count_protocol
rx_accept-Accepted protocol s = record {
  packets = ground arith;
  icmp = ground arith;
  udp = ground arith;
  tcp = ground arith;
  other = ground arith;
  dropped = ground arith;
  sent = ground arith;
  identification = refl;
}

-- `ipv4_receive` accepts a frame exactly if it holds a whole, unfragmented IPv4 packet for this
-- station with a valid header, in the sense of the protocol. An accepted packet is counted once and
-- once as ICMP, UDP, TCP or other, by the protocol of its header; any other frame is counted once as
-- dropped; nothing else changes.
pub ipv4_receive_lem :
    (frame : List ℕ) (frame_len : ℕ) (s : Ipv4)
    → Bytes frame
    → (Acceptable frame frame_len
        × Accepted (byte (drop 14 frame) 9) s (ipv4_receive frame frame_len s))
      ⊎ ((¬ Acceptable frame frame_len) × (ipv4_receive frame frame_len s ≡ dropped_one s))
unfolding ipv4_receive
ipv4_receive_lem frame frame_len s b = elim (Bool-cases (ltb frame_len 34)) [
  | inl short ↦ inr (λ a. ground (arith, a.0), rw short)
  | inr long ↦
      rw (long, receive_packet-eq p c s)
        (elim (Bool-cases (acceptable p c)) [
          | inl good ↦ inl (
            (ground arith, acceptable→IsAcceptable p c bp good),
            rw good (rx_accept-Accepted (protocol_of p) s),
          )
          | inr bad ↦ inr (λ a. ground (arith, IsAcceptable→acceptable p c bp a.1), rw bad)
        ])
]
  where
    p : List ℕ
    p = drop ethernet_header_size frame

    c : ℕ
    c = frame_len - ethernet_header_size

    bp : Bytes p
    bp = Bytes-drop ethernet_header_size frame b

-- The packets counted are those counted under some protocol, as 32-bit counters.
abbrev pub IsBalanced : Stats → Type 0
IsBalanced t = u32 (t.rx_icmp + t.rx_udp + t.rx_tcp + t.rx_other) ≡ t.rx_packets

count_protocol-IsBalanced :
    (protocol : ℕ) (t : Stats)
    → IsBalanced t
    → let t' = count_protocol protocol (record t { rx_packets = add32 t.rx_packets 1 }) in
      IsBalanced t' × (t'.tx_packets ≡ t.tx_packets) × (t'.tx_dropped ≡ t.tx_dropped)
unfolding count_protocol
count_protocol-IsBalanced protocol t h = ground arith

-- Every frame keeps the packet counter equal to the sum of the protocol counters, and leaves the
-- counters of sent packets and the next identification alone.
pub ipv4_receive-IsBalanced :
    (frame : List ℕ) (frame_len : ℕ) (s : Ipv4)
    → IsBalanced s.stats
    → IsBalanced (ipv4_receive frame frame_len s).stats
      × ((ipv4_receive frame frame_len s).stats.tx_packets ≡ s.stats.tx_packets)
      × ((ipv4_receive frame frame_len s).stats.tx_dropped ≡ s.stats.tx_dropped)
      × ((ipv4_receive frame frame_len s).next_identification ≡ s.next_identification)
unfolding ipv4_receive
ipv4_receive-IsBalanced frame frame_len s h = elim (Bool-cases (ltb frame_len 34)) [
  | inl short ↦ rw short (h, refl, refl, refl)
  | inr long ↦
      rw (long, receive_packet-eq p c s)
        (elim (Bool-cases (acceptable p c)) [
          | inl good ↦
              let b = count_protocol-IsBalanced (protocol_of p) s.stats h in
              rw good (b.0, b.1, b.2, refl)
          | inr bad ↦ rw bad (h, refl, refl, refl)
        ])
]
  where
    p : List ℕ
    p = drop ethernet_header_size frame

    c : ℕ
    c = frame_len - ethernet_header_size
