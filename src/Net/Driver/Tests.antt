-- ===== src/Net/Driver/Tests.antt =====
-- kernel/virtio_net.c: instances on a driver with one completion in each queue.
use risc_v_os.Base.{
  ℕ, ◌-◌, ◌^◌, ◌≡◌, refl, true, false, some, List, [], ◌∷◌, ◌++◌, arith, replicate,
}
use risc_v_os.Virtio.{Virtq, no_elem}
use risc_v_os.Virtio.Used.{completions, uncons}
use risc_v_os.Net.Arp.{arp_init}
use risc_v_os.Net.Ipv4.{ipv4_init, ipv4_receive, ipv4_packet, ipv4_is_for_us}
use risc_v_os.Net.Ipv4.Receive.{Accepted}
use risc_v_os.Net.Driver.{Nic, Net, capture_rx, pop_rx_frame, drain_rx, virtio_net_irq}
use risc_v_os.Net.Driver.Captures.{
  IsRing, captured, new_capture, popped, cut_first, capture_rx_lem, pop_rx_frame_lem,
}
use risc_v_os.Net.Driver.Drain.{handle_all, notified, drain_rx_lem}
use risc_v_os.Net.Driver.Sent.{sent}
use risc_v_os.Net.Driver.Irq.{acked, virtio_net_irq_lem}
use risc_v_os.Net.Driver.Send.{Round, virtio_net_send_ethernet, ethernet_frame, padded}
use risc_v_os.Net.Driver.Wait.{now, Waits, sends_frame, virtio_net_send_ethernet_returns}
use risc_v_os.Net.Driver.Frame.{ipv4_receive-ethernet_frame}

abbrev queue : ℕ → Virtq
queue index = record {
  descs = [];
  avail_index = 0;
  avail_ring = replicate 16 0;
  used_index = 1;
  used_ring = record { id = 0; len = 70 } ∷ replicate 15 no_elem;
  queue_index = index;
  submitted_index = 1;
  consumed_used_index = 0;
}

-- Fifteen captures wait, and the write counter is about to wrap.
abbrev nic : Nic
nic = record {
  ready = true;
  rx_vq = queue 0;
  tx_vq = queue 1;
  rx_paddr = 0x8030_0000;
  tx_paddr = 0x8040_0000;
  rx_frames = replicate 16 (replicate 60 7);
  tx_frame = [];
  rx_packets = 0;
  rx_test_packets = 0;
  last_rx_len = 0;
  last_rx_ethertype = 0;
  last_test_frame = [];
  last_test_frame_len = 0;
  rx_captures = replicate 16 (record { len = 2; ethertype = 5; frame = 1 ∷ 2 ∷ 3 ∷ [] });
  capture_write = 2 ^ 16 - 1;
  capture_read = 2 ^ 16 - 16;
  capture_drops = 0;
  tx_packets = 2 ^ 32 - 1;
  last_tx_len = 0;
  pending_tx_len = 60;
  tx_done = false;
  reg_writes = [];
}

abbrev pub node : Net
node = record { nic = nic; arp = arp_init; ipv4 = ipv4_init; console = [] }

nic-IsRing : IsRing nic
nic-IsRing = record {
  sixteen = refl;
  write_u16 = omega arith;
  read_u16 = omega arith;
  bounded = omega arith;
}

capture_rx_lem_example :
    IsRing (capture_rx (9 ∷ 8 ∷ []) 2 6 nic)
    × (captured (capture_rx (9 ∷ 8 ∷ []) 2 6 nic)
        ≡ captured nic ++ (new_capture (9 ∷ 8 ∷ []) 2 6 ∷ []))
    × ((capture_rx (9 ∷ 8 ∷ []) 2 6 nic).capture_drops ≡ 0)
capture_rx_lem_example = capture_rx_lem (9 ∷ 8 ∷ []) 2 6 nic nic-IsRing (omega arith)

pop_rx_frame_lem_example : popped (pop_rx_frame 1 nic) ≡ cut_first 1 (uncons (captured nic))
pop_rx_frame_lem_example = pop_rx_frame_lem 1 nic nic-IsRing

drain_rx_lem_example :
    (drain_rx node ≡ notified true (handle_all (record { id = 0; len = 70 } ∷ []) node))
    × (completions (drain_rx node).nic.rx_vq ≡ [])
drain_rx_lem_example = drain_rx_lem node (omega arith)

virtio_net_irq_lem_example :
    (virtio_net_irq 1 node
      ≡ sent 1 (notified true (handle_all (record { id = 0; len = 70 } ∷ []) (acked 1 node))))
    × ((completions (virtio_net_irq 1 node).nic.rx_vq ≡ [])
        × (completions (virtio_net_irq 1 node).nic.tx_vq ≡ []))
virtio_net_irq_lem_example =
    virtio_net_irq_lem 1 node (omega arith) (omega arith) (omega arith) (omega arith)

-- The device reports one more transmission than the driver has seen.
abbrev pub reports : Round
reports = record {
  status = 1;
  rx_frames = [];
  rx_ring = replicate 16 no_elem;
  rx_index = 0;
  tx_ring = replicate 16 no_elem;
  tx_index = 1;
}

virtio_net_send_ethernet_returns_example :
    (left : List Round) × (m : Net) × (virtio_net_send_ethernet
        (some (replicate 6 1))
        0x88b5
        (some (1 ∷ 2 ∷ 3 ∷ []))
        2
        (reports ∷ [])
        node
      ≡ some (2, (left, m)))
    × Waits (reports ∷ []) (sends_frame (replicate 6 1) 0x88b5 (1 ∷ 2 ∷ 3 ∷ []) 2 node) left m
    × (m.nic.tx_done ≡ true)
virtio_net_send_ethernet_returns_example =
    virtio_net_send_ethernet_returns (replicate 6 1) 0x88b5 (1 ∷ 2 ∷ 3 ∷ []) 2 (reports ∷ []) node
      refl (omega arith) (now (omega arith) (omega arith) (omega arith) (omega arith) (omega arith))

ipv4_receive-ethernet_frame_example : Accepted 17 ipv4_init (
    ipv4_receive
      (ethernet_frame (replicate 6 1) 0x0800 (ipv4_packet 23 5 17 0x0a00_020f (1 ∷ 2 ∷ 3 ∷ [])) 23)
      (padded 37)
      ipv4_init)
unfolding ipv4_is_for_us
ipv4_receive-ethernet_frame_example =
    ipv4_receive-ethernet_frame (replicate 6 1) (1 ∷ 2 ∷ 3 ∷ []) 0x0800 5 17 0x0a00_020f ipv4_init
      refl (omega arith) (omega arith) refl
