-- ===== src/Net/Arp/Packet.antt =====
-- kernel/arp.c: the packet that is sent, and what a received packet does, against the layout of an
-- Ethernet/IPv4 ARP packet (RFC 826).
use risc_v_os.Base.{
  ℕ, ◌^◌, ◌≤◌, ◌<◌, ◌≡◌, refl, ap, ◌∙◌, true, false, ◌&&◌, List, ◌∷◌, ◌++◌, arith, ◌==◌,
  if◌then◌else◌, length, take-all, ltb-ge, drop-append, drop-append_more, take-append, ◌⊎◌,
  append_assoc, Bool-cases, inl, inr,
}
use risc_v_os.Net.Wire.{
  read_be16, write_be16, read_ipv4, write_ipv4, read_be16-write_be16, read_ipv4-write_ipv4,
}
use risc_v_os.Net.Arp.{
  Arp, arp_receive, arp_build_packet, arp_cache_update, is_ethernet_ipv4, packet, operation,
  sender_mac, sender_ip, target_ip, net_mac, ipv4_local_address, arp_operation_request,
  ethernet_header_size,
}

-- The fields of a packet.
pub record Fields : Type 0 where
  pub oper : ℕ
  pub sha : List ℕ
  pub spa : ℕ
  pub tha : List ℕ
  pub tpa : ℕ

pub record IsWire (f : Fields) : Type 0 where
  pub oper_u16 : f.oper < 2 ^ 16
  pub sha_six : length f.sha ≡ 6
  pub spa_u32 : f.spa < 2 ^ 32
  pub tha_six : length f.tha ≡ 6
  pub tpa_u32 : f.tpa < 2 ^ 32

-- The packet on the wire, and what stands behind it in the buffer.
abbrev pub layout : Fields → List ℕ → List ℕ
layout f rest =
    0
    ∷ 1
    ∷ 8
    ∷ 0
    ∷ 6
    ∷ 4
    ∷ (write_be16 f.oper ++ (f.sha ++ (write_ipv4 f.spa ++ (f.tha ++ (write_ipv4 f.tpa ++ rest)))))

module _ (f : Fields) (rest : List ℕ) (w : IsWire f) where
  layout-is_ethernet_ipv4 : is_ethernet_ipv4 (layout f rest) ≡ true
  unfolding is_ethernet_ipv4 read_be16
  layout-is_ethernet_ipv4 = refl

  layout-operation : operation (layout f rest) ≡ f.oper
  layout-operation = read_be16-write_be16 f.oper _ w.oper_u16

  layout-sender_mac : sender_mac (layout f rest) ≡ f.sha
  unfolding write_be16
  layout-sender_mac = take-append 6 f.sha _ w.sha_six

  layout-sender_ip : sender_ip (layout f rest) ≡ f.spa
  unfolding write_be16
  layout-sender_ip =
      ap read_ipv4 (drop-append 6 f.sha _ w.sha_six) ∙ read_ipv4-write_ipv4 f.spa _ w.spa_u32

  layout-target_ip : target_ip (layout f rest) ≡ f.tpa
  unfolding write_be16 write_ipv4
  layout-target_ip =
      ap read_ipv4 (
        drop-append_more 16 10 f.sha _ (omega (arith, w.sha_six)) ∙ drop-append 6 f.tha _ w.tha_six)
      ∙ read_ipv4-write_ipv4 f.tpa rest w.tpa_u32

-- What a received packet does: the sender is learned, and a request for the local address leaves a
-- reply to the sender pending.
abbrev pub receive_fields : Fields → Arp → Arp
receive_fields f a = record {
  arp_cache = arp_cache_update f.spa f.sha a.arp_cache;
  pending_reply =
      if f.oper == arp_operation_request && f.tpa == ipv4_local_address
      then record { pending = true; target_mac = f.sha; target_ip = f.spa }
      else a.pending_reply;
}

-- arp_receive reads a well-formed packet at the layout of the protocol, whatever the Ethernet
-- header in front and the padding behind hold: it notes the sender in the cache, and where the
-- packet asks for the local address it marks a reply to the sender as pending.
pub arp_receive_lem :
    (f : Fields) (header rest : List ℕ) (frame_len : ℕ) (a : Arp)
    → IsWire f
    → length header ≡ ethernet_header_size
    → 42 ≤ frame_len
    → arp_receive (header ++ layout f rest) frame_len a ≡ receive_fields f a
unfolding arp_receive
arp_receive_lem f header rest frame_len a w len enough =
    rw (drop-append ethernet_header_size header (layout f rest) len, ltb-ge frame_len 42 enough)
      (rw
        (
          layout-is_ethernet_ipv4 f rest w,
          layout-operation f rest w,
          layout-sender_mac f rest w,
          layout-sender_ip f rest w,
          layout-target_ip f rest w,
        )
        (elim (Bool-cases (f.oper == arp_operation_request && f.tpa == ipv4_local_address)) [
          | inl asked ↦ rw asked
          | inr other ↦ rw other
        ]))

-- A frame that is too short or for another hardware or protocol changes nothing.
pub arp_receive_ignores :
    (frame : List ℕ) (frame_len : ℕ) (a : Arp)
    → (frame_len < 42) ⊎ (is_ethernet_ipv4 (packet frame) ≡ false)
    → arp_receive frame frame_len a ≡ a
unfolding arp_receive
arp_receive_ignores frame frame_len a h = ground arith

-- arp_build_packet writes, at the layout of the protocol, the packet whose sender is this station
-- and whose target is the hardware address, of six bytes, and the address given.
pub arp_build_packet_lem :
    (op : ℕ) (mac : List ℕ) (ip : ℕ) (rest : List ℕ)
    → length mac ≡ 6
    → arp_build_packet op mac ip ++ rest
      ≡ layout
          (record { oper = op; sha = net_mac; spa = ipv4_local_address; tha = mac; tpa = ip })
          rest
unfolding arp_build_packet write_be16 write_ipv4
arp_build_packet_lem op mac ip rest len =
    rw (take-all 6 mac len, append_assoc mac (write_ipv4 ip) rest)
