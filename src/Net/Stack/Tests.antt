-- ===== src/Net/Stack/Tests.antt =====
-- kernel/arp.c and kernel/ipv4.c: instances on a node that owes one reply and knows one neighbour.
use risc_v_os.Base.{
  ℕ, ◌≡◌, refl, true, false, some, none, List, [], ◌∷◌, ◌++◌, arith, replicate, find_index,
}
use risc_v_os.Virtio.{Virtq, no_elem}
use risc_v_os.Net.Arp.{Arp, no_entry, arp_lookup}
use risc_v_os.Net.Ipv4.{ipv4_init}
use risc_v_os.Net.Driver.{Net, Nic}
use risc_v_os.Net.Driver.Send.{Round}
use risc_v_os.Net.Driver.Wait.{now, Waits}
use risc_v_os.Net.Stack.{ipv4_send, arp_poll, minus_two, replied_to, print_ipv4}
use risc_v_os.Net.Stack.Deliver.{
  next_hop, packet_sent, request_sent, reply_sent, counted_sent, counted_dropped, ipv4_send_returns,
  ipv4_send_unresolved, arp_poll_lem,
}

abbrev queue : ℕ → Virtq
queue index = record {
  descs = [];
  avail_index = 0;
  avail_ring = replicate 16 0;
  used_index = 0;
  used_ring = replicate 16 no_elem;
  queue_index = index;
  submitted_index = 0;
  consumed_used_index = 0;
}

abbrev nic : Nic
nic = record {
  ready = true;
  rx_vq = queue 0;
  tx_vq = queue 1;
  rx_paddr = 0x8030_0000;
  tx_paddr = 0x8040_0000;
  rx_frames = [];
  tx_frame = [];
  rx_packets = 0;
  rx_test_packets = 0;
  last_rx_len = 0;
  last_rx_ethertype = 0;
  last_test_frame = [];
  last_test_frame_len = 0;
  rx_captures = [];
  capture_write = 0;
  capture_read = 0;
  capture_drops = 0;
  tx_packets = 0;
  last_tx_len = 0;
  pending_tx_len = 0;
  tx_done = false;
  reg_writes = [];
}

abbrev neighbour : Arp
neighbour = record {
  arp_cache = record { valid = true; ip = 0x0a00_0202; mac = replicate 6 2 } ∷ replicate 7 no_entry;
  pending_reply = record { pending = true; target_mac = replicate 6 2; target_ip = 0x0a00_0202 };
}

abbrev node : Net
node = record { nic = nic; arp = neighbour; ipv4 = ipv4_init; console = [] }

abbrev reports : Round
reports = record {
  status = 1;
  rx_frames = [];
  rx_ring = replicate 16 no_elem;
  rx_index = 0;
  tx_ring = replicate 16 no_elem;
  tx_index = 1;
}

knows : next_hop 0x0a00_0202 node ≡ some (replicate 6 2)
unfolding arp_lookup find_index
knows = refl

knows_not : next_hop 0x0a00_0203 node ≡ none
unfolding arp_lookup find_index
knows_not = refl

ipv4_send_returns_example :
    (left : List Round) × (m : Net) × (ipv4_send 0x0a00_0202 17
        (some (1 ∷ 2 ∷ []))
        2
        (reports ∷ [])
        node
      ≡ some (2, (left, counted_sent m)))
    × Waits (reports ∷ []) (packet_sent (replicate 6 2) 0x0a00_0202 17 (1 ∷ 2 ∷ []) node) left m
    × (m.nic.tx_done ≡ true)
ipv4_send_returns_example =
    ipv4_send_returns (replicate 6 2) (1 ∷ 2 ∷ []) 0x0a00_0202 17 (reports ∷ []) node (omega arith)
      knows refl (now (omega arith) (omega arith) (omega arith) (omega arith) (omega arith))

ipv4_send_unresolved_example :
    (left : List Round) × (m : Net) × (ipv4_send 0x0a00_0203 17
        (some (1 ∷ 2 ∷ []))
        2
        (reports ∷ [])
        node
      ≡ some (minus_two, (left, counted_dropped m)))
    × Waits (reports ∷ []) (request_sent 0x0a00_0203 node) left m
    × (m.nic.tx_done ≡ true)
ipv4_send_unresolved_example =
    ipv4_send_unresolved (1 ∷ 2 ∷ []) 0x0a00_0203 17 (reports ∷ []) node (omega arith) knows_not
      refl (now (omega arith) (omega arith) (omega arith) (omega arith) (omega arith))

arp_poll_lem_example :
    (left : List Round) × (m : Net) × (arp_poll (reports ∷ []) node
      ≡ some (
        left,
        record m { console = m.console ++ (replied_to ++ (print_ipv4 0x0a00_0202 ++ (10 ∷ []))) },
      ))
    × Waits (reports ∷ []) (reply_sent node) left m
    × (m.nic.tx_done ≡ true)
arp_poll_lem_example =
    arp_poll_lem (reports ∷ []) node refl refl
      (now (omega arith) (omega arith) (omega arith) (omega arith) (omega arith))
