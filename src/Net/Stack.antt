-- ===== src/Net/Stack.antt =====
-- kernel/arp.c and kernel/ipv4.c: the operations that send, over the driver.
pub mod Deliver
mod Tests
use risc_v_os.Base.{
  ℕ, suc, zero, ◌+◌, ◌-◌, ◌/◌, ◌%◌, ◌^◌, Bool, true, false, not, ◌&&◌, Option, none, some, List, [],
  ◌∷◌, ◌++◌, ltb, leb, ◌==◌, if◌then◌else◌, take, replicate,
}
use Prim.Native.Nat.{bit_and}
use risc_v_os.Base.Word.{u16, add32}
use risc_v_os.Console.{printf, Arg}
use risc_v_os.Net.Arp.{
  Arp, arp_lookup, arp_build_packet, arp_ethertype, arp_operation_request, arp_operation_reply,
}
use risc_v_os.Net.Ipv4.{
  Ipv4, ipv4_packet, ipv4_ethertype, ipv4_broadcast_address, ipv4_max_packet_size,
  ipv4_header_min_size,
}
use risc_v_os.Net.Driver.{Net}
use risc_v_os.Net.Driver.Send.{
  Round, virtio_net_send_ethernet, broadcast_mac, is_negative, minus_one,
}

-- Every directive of a format below has its argument, so that `printf` has a text.
abbrev pub text_of : Option (List ℕ) → List ℕ
text_of none = []
text_of (some text) = text

-- `printf("%d.%d.%d.%d", ...)`.
unfoldable pub print_ipv4 : ℕ → List ℕ
print_ipv4 ip = text_of (
    printf (b'%' ∷ b'd' ∷ b'.' ∷ b'%' ∷ b'd' ∷ b'.' ∷ b'%' ∷ b'd' ∷ b'.' ∷ b'%' ∷ b'd' ∷ []) (
      Arg.word (bit_and (ip / 2 ^ 24) 0xff)
      ∷ Arg.word (bit_and (ip / 2 ^ 16) 0xff)
      ∷ Arg.word (bit_and (ip / 2 ^ 8) 0xff)
      ∷ Arg.word (bit_and ip 0xff)
      ∷ []))

-- "arp: replied to ".
abbrev pub replied_to : List ℕ
replied_to =
    b'a' ∷ b'r' ∷ b'p' ∷ b':' ∷ b' ' ∷ b'r' ∷ b'e' ∷ b'p' ∷ b'l' ∷ b'i' ∷ b'e' ∷ b'd' ∷ b' ' ∷ b't'
    ∷ b'o' ∷ b' ' ∷ []

abbrev pub arp_packet_size : ℕ
arp_packet_size = 28

-- What `arp_poll` does with the result of sending.
unfoldable pub report_reply : ℕ → Option (ℕ × (List Round × Net)) → Option (List Round × Net)
report_reply ip none = none
report_reply ip (some (sent, (rs, n))) =
    if is_negative sent
    then some (rs, n)
    else some (rs, record n { console = n.console ++ (replied_to ++ (print_ipv4 ip ++ (10 ∷ []))) })

abbrev pub reply_taken : Net → Net
reply_taken n = record n {
  arp = record n.arp { pending_reply = record n.arp.pending_reply { pending = false } };
}

unfoldable pub arp_poll : List Round → Net → Option (List Round × Net)
arp_poll rs n =
    let target_mac = n.arp.pending_reply.target_mac in
    let target_ip = n.arp.pending_reply.target_ip in
    if not n.arp.pending_reply.pending
    then some (rs, n)
    else report_reply target_ip (
        virtio_net_send_ethernet (some target_mac) arp_ethertype
          (some (arp_build_packet arp_operation_reply target_mac target_ip)) arp_packet_size rs
          (reply_taken n))

unfoldable pub arp_request : ℕ → List Round → Net → Option (ℕ × (List Round × Net))
arp_request target_ip rs n =
    virtio_net_send_ethernet (some broadcast_mac) arp_ethertype
      (some (arp_build_packet arp_operation_request (replicate 6 0) target_ip)) arp_packet_size rs n

-- `stats.tx_dropped++` and `stats.tx_packets++`.
abbrev pub tx_drop : Net → Net
tx_drop n = record n {
  ipv4 = record n.ipv4 {
    stats = record n.ipv4.stats { tx_dropped = add32 n.ipv4.stats.tx_dropped 1 };
  };
}

abbrev pub tx_count : Net → Net
tx_count n = record n {
  ipv4 = record n.ipv4 {
    stats = record n.ipv4.stats { tx_packets = add32 n.ipv4.stats.tx_packets 1 };
  };
}

abbrev pub identified : Net → Net
identified n = record n {
  ipv4 = record n.ipv4 { next_identification = u16 (n.ipv4.next_identification + 1) };
}

-- What `ipv4_send` returns and counts once the driver has answered.
unfoldable pub account : ℕ → Option (ℕ × (List Round × Net)) → Option (ℕ × (List Round × Net))
account payload_len none = none
account payload_len (some (sent, (rs, n))) =
    if is_negative sent then some (sent, (rs, tx_drop n)) else some (payload_len, (rs, tx_count n))

-- -2, whatever became of the request.
abbrev pub minus_two : ℕ
minus_two = 2 ^ 32 - 2

unfoldable pub unresolved : Option (ℕ × (List Round × Net)) → Option (ℕ × (List Round × Net))
unresolved none = none
unresolved (some (_, (rs, n))) = some (minus_two, (rs, tx_drop n))

abbrev pub payload_bytes : Option (List ℕ) → List ℕ
payload_bytes none = []
payload_bytes (some payload) = payload

abbrev pub is_null : Option (List ℕ) → Bool
is_null none = true
is_null (some payload) = false

-- `ipv4_send` from the packet on.
unfoldable pub send_packet :
    List ℕ → ℕ → ℕ → List ℕ → ℕ → List Round → Net → Option (ℕ × (List Round × Net))
send_packet dst_mac dst_ip protocol payload payload_len rs n =
    let total_length = u16 (ipv4_header_min_size + payload_len) in
    account payload_len (
      virtio_net_send_ethernet (some dst_mac) ipv4_ethertype
        (some (
          ipv4_packet total_length n.ipv4.next_identification protocol dst_ip
            (take payload_len payload)))
        total_length rs (identified n))

-- The next hop, and what follows where there is none.
unfoldable pub send_resolved :
    Option (List ℕ) → ℕ → ℕ → List ℕ → ℕ → List Round → Net → Option (ℕ × (List Round × Net))
send_resolved none dst_ip protocol payload payload_len rs n = unresolved (arp_request dst_ip rs n)
send_resolved (some dst_mac) dst_ip protocol payload payload_len rs n =
    send_packet dst_mac dst_ip protocol payload payload_len rs n

unfoldable pub ipv4_send :
    ℕ → ℕ → Option (List ℕ) → ℕ → List Round → Net → Option (ℕ × (List Round × Net))
ipv4_send dst_ip protocol payload payload_len rs n =
    if is_null payload && ltb 0 payload_len
    then some (minus_one, (rs, tx_drop n))
    else if ltb (ipv4_max_packet_size - ipv4_header_min_size) payload_len
    then some (minus_one, (rs, tx_drop n))
    else send_resolved
        (if dst_ip == ipv4_broadcast_address
          then some (replicate 6 0xff)
          else arp_lookup dst_ip n.arp.arp_cache)
        dst_ip protocol (payload_bytes payload) payload_len rs n
