-- ===== src/Net/Stack/Deliver.antt =====
-- kernel/ipv4.c: what `ipv4_send` returns and counts.
use risc_v_os.Base.{
  ℕ, ◌+◌, ◌≤◌, ◌≡◌, refl, ap, ◌∙◌, true, false, Option, none, some, List, [], ◌∷◌, arith,
  if◌then◌else◌, ltb, ◌==◌, take, take-all, length, ◌++◌, replicate, not,
}
use risc_v_os.Base.Word.{u16, add32}
use risc_v_os.Net.Arp.{
  arp_lookup, arp_build_packet, arp_ethertype, arp_operation_request, arp_operation_reply,
}
use risc_v_os.Net.Ipv4.{ipv4_broadcast_address, ipv4_packet, ipv4_ethertype}
use risc_v_os.Net.Driver.{Net}
use risc_v_os.Net.Driver.Send.{
  Round, is_negative, minus_one, virtio_net_send_ethernet, broadcast_mac,
}
use risc_v_os.Net.Driver.Wait.{Completes, Waits, sends_frame, virtio_net_send_ethernet_returns}
use risc_v_os.Net.Stack.{
  ipv4_send, send_resolved, send_packet, account, unresolved, arp_request, arp_poll, report_reply,
  reply_taken, tx_count, tx_drop, minus_two, identified, arp_packet_size, print_ipv4, replied_to,
}

abbrev pub next_hop : ℕ → Net → Option (List ℕ)
next_hop dst_ip n =
    if dst_ip == ipv4_broadcast_address
    then some (replicate 6 0xff)
    else arp_lookup dst_ip n.arp.arp_cache

-- The driver with the packet of `ipv4_send` handed to the device.
abbrev pub packet_sent : List ℕ → ℕ → ℕ → List ℕ → Net → Net
packet_sent mac dst_ip protocol payload n =
    sends_frame mac ipv4_ethertype
      (ipv4_packet (20 + length payload) n.ipv4.next_identification protocol dst_ip payload)
      (20 + length payload)
      (record n {
        ipv4 = record n.ipv4 { next_identification = u16 (n.ipv4.next_identification + 1) };
      })

-- The driver with the broadcast request for an address handed to the device: 28 bytes of ARP.
abbrev pub request_sent : ℕ → Net → Net
request_sent ip n =
    sends_frame (replicate 6 0xff) 0x0806 (arp_build_packet 1 (replicate 6 0) ip) 28 n

-- The driver with the pending reply handed to the device, and no longer pending.
abbrev pub reply_sent : Net → Net
reply_sent n =
    let p = n.arp.pending_reply in
    sends_frame p.target_mac 0x0806 (arp_build_packet 2 p.target_mac p.target_ip) 28
      (record n { arp = record n.arp { pending_reply = record p { pending = false } } })

-- One packet more sent, or dropped, in the counters of IPv4, and nothing else.
abbrev pub counted_sent : Net → Net
counted_sent n = record n {
  ipv4 = record n.ipv4 {
    stats = record n.ipv4.stats { tx_packets = add32 n.ipv4.stats.tx_packets 1 };
  };
}

abbrev pub counted_dropped : Net → Net
counted_dropped n = record n {
  ipv4 = record n.ipv4 {
    stats = record n.ipv4.stats { tx_dropped = add32 n.ipv4.stats.tx_dropped 1 };
  };
}

account_sent :
    (payload_len sent : ℕ) (rs : List Round) (m : Net)
    → is_negative sent ≡ false
    → account payload_len (some (sent, (rs, m))) ≡ some (payload_len, (rs, tx_count m))
unfolding account
account_sent payload_len sent rs m e =
    ap (λ b. if b then some (sent, (rs, tx_drop m)) else some (payload_len, (rs, tx_count m))) e

send_packet_returns :
    (mac payload : List ℕ) (dst_ip protocol : ℕ) (rs : List Round) (n : Net)
    → length payload ≤ 1480
    → n.nic.ready ≡ true
    → Completes rs (packet_sent mac dst_ip protocol payload n)
    → (left : List Round) × (m : Net) × (send_packet mac dst_ip protocol payload
          (length payload)
          rs
          n
        ≡ some (length payload, (left, counted_sent m)))
      × Waits rs (packet_sent mac dst_ip protocol payload n) left m
      × (m.nic.tx_done ≡ true)
unfolding send_packet
send_packet_returns mac payload dst_ip protocol rs n fits up c =
    let (left, m, ran, waits, done) =
      virtio_net_send_ethernet_returns mac ipv4_ethertype packet len rs (identified n) up
        (omega arith) c in
    let sent_ok : is_negative len ≡ false = ground arith in
    (
      left,
      m,
      ap (λ t. account k (send_one t (take k payload))) (omega arith)
          ∙ ap (λ p. account k (send_one len p)) (take-all k payload refl)
          ∙ ap (account k) ran
          ∙ account_sent k len left m sent_ok,
      waits,
      done,
    )
  where
    k : ℕ
    k = length payload

    send_one : ℕ → List ℕ → Option (ℕ × (List Round × Net))
    send_one t p =
        virtio_net_send_ethernet (some mac) ipv4_ethertype
          (some (ipv4_packet t n.ipv4.next_identification protocol dst_ip p)) t rs (identified n)

    len : ℕ
    len = 20 + length payload

    packet : List ℕ
    packet = ipv4_packet len n.ipv4.next_identification protocol dst_ip payload

-- Where the payload has at most 1480 bytes, the next hop is known, the driver is up and the device
-- completes the frame, `ipv4_send` hands the frame with the packet to the device, under the next
-- identification, takes interrupts until the device reports it sent, counts one packet sent and
-- changes nothing else, and returns the length of the payload.
pub ipv4_send_returns :
    (mac payload : List ℕ) (dst_ip protocol : ℕ) (rs : List Round) (n : Net)
    → length payload ≤ 1480
    → next_hop dst_ip n ≡ some mac
    → n.nic.ready ≡ true
    → Completes rs (packet_sent mac dst_ip protocol payload n)
    → (left : List Round) × (m : Net) × (ipv4_send dst_ip protocol
          (some payload)
          (length payload)
          rs
          n
        ≡ some (length payload, (left, counted_sent m)))
      × Waits rs (packet_sent mac dst_ip protocol payload n) left m
      × (m.nic.tx_done ≡ true)
unfolding ipv4_send send_resolved
ipv4_send_returns mac payload dst_ip protocol rs n fits hop up c =
    let (left, m, ran, waits, done) =
      send_packet_returns mac payload dst_ip protocol rs n fits up c in
    let small : ltb 1480 (length payload) ≡ false = ground arith in
    (
      left,
      m,
      ap (λ b. if b then some (minus_one, (rs, tx_drop n)) else onward (next_hop dst_ip n)) small
          ∙ ap onward hop
          ∙ ran,
      waits,
      done,
    )
  where
    onward : Option (List ℕ) → Option (ℕ × (List Round × Net))
    onward h = send_resolved h dst_ip protocol payload (length payload) rs n

-- Where the payload has at most 1480 bytes, no address is known for the destination, the driver is up
-- and the device completes the frame that broadcasts the request for it, `ipv4_send` hands that frame
-- to the device, takes interrupts until the device reports it sent, counts one packet dropped and
-- changes nothing else, and answers -2.
pub ipv4_send_unresolved :
    (payload : List ℕ) (dst_ip protocol : ℕ) (rs : List Round) (n : Net)
    → length payload ≤ 1480
    → next_hop dst_ip n ≡ none
    → n.nic.ready ≡ true
    → Completes rs (request_sent dst_ip n)
    → (left : List Round) × (m : Net) × (ipv4_send dst_ip protocol
          (some payload)
          (length payload)
          rs
          n
        ≡ some (minus_two, (left, counted_dropped m)))
      × Waits rs (request_sent dst_ip n) left m
      × (m.nic.tx_done ≡ true)
unfolding ipv4_send send_resolved arp_request unresolved
ipv4_send_unresolved payload dst_ip protocol rs n fits hop up c =
    let (left, m, ran, waits, done) =
      virtio_net_send_ethernet_returns broadcast_mac arp_ethertype
        (arp_build_packet arp_operation_request (replicate 6 0) dst_ip) arp_packet_size rs n up
        (omega arith) c in
    let small : ltb 1480 (length payload) ≡ false = ground arith in
    (
      left,
      m,
      ap (λ b. if b then some (minus_one, (rs, tx_drop n)) else onward (next_hop dst_ip n)) small
          ∙ ap onward hop
          ∙ ap unresolved ran,
      waits,
      done,
    )
  where
    onward : Option (List ℕ) → Option (ℕ × (List Round × Net))
    onward h = send_resolved h dst_ip protocol payload (length payload) rs n

-- Where a reply is pending, the driver is up and the device completes the frame with the reply to
-- the requester, `arp_poll` hands that frame to the device, with the reply no longer pending, takes
-- interrupts until the device reports it sent, adds the report to the console once, and changes
-- nothing else.
pub arp_poll_lem :
    (rs : List Round) (n : Net)
    → n.nic.ready ≡ true
    → n.arp.pending_reply.pending ≡ true
    → let p = n.arp.pending_reply in
      Completes rs (reply_sent n)
      → (left : List Round) × (m : Net) × (arp_poll rs n
          ≡ some (
            left,
            record m {
              console = m.console ++ (replied_to ++ (print_ipv4 p.target_ip ++ (10 ∷ [])));
            },
          ))
        × Waits rs (reply_sent n) left m
        × (m.nic.tx_done ≡ true)
unfolding arp_poll report_reply
arp_poll_lem rs n up owed c =
    let (left, m, ran, waits, done) =
      virtio_net_send_ethernet_returns mac arp_ethertype
        (arp_build_packet arp_operation_reply mac ip) arp_packet_size rs (reply_taken n) up
        (omega arith) c in
    (
      left,
      m,
      ap (λ b. if not b then some (rs, n) else report_reply ip reply) owed
          ∙ ap (report_reply ip) ran,
      waits,
      done,
    )
  where
    mac : List ℕ
    mac = n.arp.pending_reply.target_mac

    ip : ℕ
    ip = n.arp.pending_reply.target_ip

    reply : Option (ℕ × (List Round × Net))
    reply =
        virtio_net_send_ethernet (some mac) arp_ethertype
          (some (arp_build_packet arp_operation_reply mac ip)) arp_packet_size rs (reply_taken n)
