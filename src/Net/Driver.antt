-- ===== src/Net/Driver.antt =====
-- kernel/virtio_net.c: the state of the driver, its receive path and its interrupt handler.
pub mod Captures
pub mod Drain
pub mod Sent
pub mod Irq
pub mod Send
pub mod Wait
pub mod Frame
mod Tests
use Prim.Native.Nat.{bit_and, bit_or}
use risc_v_os.Base.{
  ℕ, suc, zero, ◌+◌, ◌-◌, ◌*◌, ◌/◌, ◌%◌, ◌^◌, Bool, true, false, not, ◌&&◌, ◌||◌, Option, none,
  some, List, [], ◌∷◌, ◌++◌, ltb, leb, ◌==◌, if◌then◌else◌, take, drop, set, get_or, replicate,
  count_up,
}
use risc_v_os.Base.Word.{u16, u32, add32, sub16}
use risc_v_os.Virtio.{
  Virtq, VirtqUsedElem, RegWrites, virtq_push, virtq_pop_used, virtq_notify, fresh_virtq,
  virtq_entry_num,
}
use risc_v_os.Virtio.Used.{backlog}
use risc_v_os.Net.Wire.{byte}
use risc_v_os.Net.Arp.{Arp, arp_receive, arp_ethertype}
use risc_v_os.Net.Ipv4.{Ipv4, ipv4_receive, ipv4_ethertype}

abbrev pub eth_max_frame_size : ℕ
eth_max_frame_size = 1514

abbrev pub test_ethertype : ℕ
test_ethertype = 0x88b5

-- `sizeof(struct virtio_net_hdr)` and `sizeof(struct virtio_net_buf)`.
abbrev pub net_hdr_size : ℕ
net_hdr_size = 10

abbrev pub net_buf_size : ℕ
net_buf_size = 1524

abbrev pub net_rx_capture_num : ℕ
net_rx_capture_num = 16

pub record Capture : Type 0 where
  pub len : ℕ
  pub ethertype : ℕ
  pub frame : List ℕ

abbrev pub no_capture : Capture
no_capture = record { len = 0; ethertype = 0; frame = replicate eth_max_frame_size 0 }

-- The static variables of the driver. `ready` says that the queues are set up, `rx_frames` and
-- `tx_frame` are the frames in the DMA buffers, and `reg_writes` is what the device is told.
pub record Nic : Type 0 where
  pub ready : Bool
  pub rx_vq : Virtq
  pub tx_vq : Virtq
  pub rx_paddr : ℕ
  pub tx_paddr : ℕ
  pub rx_frames : List (List ℕ)
  pub tx_frame : List ℕ
  pub rx_packets : ℕ
  pub rx_test_packets : ℕ
  pub last_rx_len : ℕ
  pub last_rx_ethertype : ℕ
  pub last_test_frame : List ℕ
  pub last_test_frame_len : ℕ
  pub rx_captures : List Capture
  pub capture_write : ℕ
  pub capture_read : ℕ
  pub capture_drops : ℕ
  pub tx_packets : ℕ
  pub last_tx_len : ℕ
  pub pending_tx_len : ℕ
  pub tx_done : Bool
  pub reg_writes : RegWrites

-- The driver with the two protocols that it hands frames to, and the console.
pub record Net : Type 0 where
  pub nic : Nic
  pub arp : Arp
  pub ipv4 : Ipv4
  pub console : List ℕ

-- `memcpy(dst, src, n)` on buffers.
abbrev pub overwrite : List ℕ → List ℕ → ℕ → List ℕ
overwrite dst src n = take n src ++ drop n dst

unfoldable pub enqueue_rx : ℕ → Nic → Nic
enqueue_rx index c = record c {
  rx_vq = virtq_push index (record c.rx_vq {
    descs = set c.rx_vq.descs index (record {
      addr = c.rx_paddr + index * net_buf_size;
      len = net_buf_size;
      flags = 2;
      next = 0;
    });
  });
}

-- The part of `virtio_net_init` behind the probe, the queues and the allocations: counters, and a receive
-- buffer offered for each entry of the queue.
unfoldable pub net_init : ℕ → ℕ → List (List ℕ) → List Capture → List ℕ → List ℕ → Nic
net_init rx_paddr tx_paddr rx_frames rx_captures tx_frame last_test_frame =
    let offered = count_up enqueue_rx 0 virtq_entry_num (record {
      ready = true;
      rx_vq = fresh_virtq 0;
      tx_vq = fresh_virtq 1;
      rx_paddr = rx_paddr;
      tx_paddr = tx_paddr;
      rx_frames = rx_frames;
      tx_frame = tx_frame;
      rx_packets = 0;
      rx_test_packets = 0;
      last_rx_len = 0;
      last_rx_ethertype = 0;
      last_test_frame = last_test_frame;
      last_test_frame_len = 0;
      rx_captures = rx_captures;
      capture_write = 0;
      capture_read = 0;
      capture_drops = 0;
      tx_packets = 0;
      last_tx_len = 0;
      pending_tx_len = 0;
      tx_done = false;
      reg_writes = [];
    }) in
    record offered { reg_writes = virtq_notify offered.rx_vq ((0x70, 4) ∷ offered.reg_writes) }

unfoldable pub capture_rx : List ℕ → ℕ → ℕ → Nic → Nic
capture_rx frame frame_len ethertype c =
    if leb net_rx_capture_num (sub16 c.capture_write c.capture_read)
    then record c { capture_drops = add32 c.capture_drops 1 }
    else record c {
      rx_captures = set c.rx_captures (c.capture_write % net_rx_capture_num) (record {
        len = frame_len;
        ethertype = ethertype;
        frame =
            overwrite (get_or c.rx_captures (c.capture_write % net_rx_capture_num) no_capture).frame
              frame frame_len;
      });
      capture_write = u16 (c.capture_write + 1);
    }

abbrev pub clamp_len : ℕ → ℕ
clamp_len frame_len = if ltb eth_max_frame_size frame_len then eth_max_frame_size else frame_len

abbrev pub ethertype_of : List ℕ → ℕ
ethertype_of frame = u16 (bit_or (u16 (byte frame 12) * 2 ^ 8) (byte frame 13))

-- What follows the capture of a frame: the protocol that it is for, or the driver's own test.
unfoldable pub dispatch : List ℕ → ℕ → ℕ → Net → Net
dispatch frame frame_len eth_type n =
    let n1 =
      if eth_type == arp_ethertype
      then record n { arp = arp_receive frame frame_len n.arp }
      else n in
    let n2 =
      if eth_type == ipv4_ethertype
      then record n1 { ipv4 = ipv4_receive frame frame_len n1.ipv4 }
      else n1 in
    if eth_type == test_ethertype
    then record n2 {
      nic = record n2.nic {
        last_test_frame = overwrite n2.nic.last_test_frame frame frame_len;
        last_test_frame_len = frame_len;
        rx_test_packets = add32 n2.nic.rx_test_packets 1;
      };
    }
    else n2

-- The frame of a completion that is long enough to hold an Ethernet header.
unfoldable pub receive_frame : List ℕ → ℕ → Net → Net
receive_frame frame frame_len n =
    let eth_type = ethertype_of frame in
    let noted = record n.nic {
      rx_packets = add32 n.nic.rx_packets 1;
      last_rx_len = frame_len;
      last_rx_ethertype = eth_type;
    } in
    dispatch frame frame_len eth_type (record n { nic = capture_rx frame frame_len eth_type noted })

unfoldable pub receive_short : ℕ → Net → Net
receive_short packet_len n = record n {
  nic = record n.nic {
    rx_packets = add32 n.nic.rx_packets 1;
    last_rx_len = packet_len;
    last_rx_ethertype = 0;
  };
}

-- The body of the loop of `virtio_net_drain_rx`, for the completion that was popped.
unfoldable pub rx_one : VirtqUsedElem → Net → Net
rx_one used n =
    let seen =
      if leb (net_hdr_size + 14) used.len
      then receive_frame (get_or n.nic.rx_frames used.id []) (clamp_len (used.len - net_hdr_size)) n
      else receive_short used.len n in
    record seen { nic = enqueue_rx used.id seen.nic }

abbrev pub with_rx : Net → Virtq → Net
with_rx n vq = record n { nic = record n.nic { rx_vq = vq } }

abbrev pub with_tx : Net → Virtq → Net
with_tx n vq = record n { nic = record n.nic { tx_vq = vq } }

-- The loop with rounds for every completion that the queue can hold, and whether it took any.
unfoldable pub drain_rx_loop : ℕ → Bool → Net → Bool × Net
drain_rx_loop zero recycled n = (recycled, n)
drain_rx_loop (suc fuel) recycled n = elim (virtq_pop_used n.nic.rx_vq) [
  | none ↦ (recycled, n)
  | some (used, vq) ↦ drain_rx_loop fuel true (rx_one used (with_rx n vq))
]

unfoldable pub drain_rx : Net → Net
drain_rx n =
    let (recycled, m) = drain_rx_loop (suc (backlog n.nic.rx_vq)) false n in
    if recycled
    then record m { nic = record m.nic { reg_writes = virtq_notify m.nic.rx_vq m.nic.reg_writes } }
    else m

unfoldable pub tx_one : VirtqUsedElem → Net → Net
tx_one used n = record n {
  nic = record n.nic {
    tx_packets = add32 n.nic.tx_packets 1;
    last_tx_len = n.nic.pending_tx_len;
    tx_done = true;
  };
}

unfoldable pub drain_tx_loop : ℕ → Net → Net
drain_tx_loop zero n = n
drain_tx_loop (suc fuel) n = elim (virtq_pop_used n.nic.tx_vq) [
  | none ↦ n
  | some (used, vq) ↦ drain_tx_loop fuel (tx_one used (with_tx n vq))
]

unfoldable pub drain_tx : Net → Net
drain_tx n = drain_tx_loop (suc (backlog n.nic.tx_vq)) n

-- The handler, with the interrupt status that it reads from the device.
unfoldable pub virtio_net_irq : ℕ → Net → Net
virtio_net_irq status n =
    let acked =
      if status == 0
      then n
      else record n { nic = record n.nic { reg_writes = (0x64, status) ∷ n.nic.reg_writes } } in
    if bit_and status 1 == 0 then acked else drain_tx (drain_rx acked)

-- `none` where no capture waits. The result holds the copied bytes, their number and the ethertype.
unfoldable pub pop_rx_frame : ℕ → Nic → Option (Capture × Nic)
pop_rx_frame capacity c =
    if c.capture_read == c.capture_write
    then none
    else let capture = get_or c.rx_captures (c.capture_read % net_rx_capture_num) no_capture in
      let copy_len = if ltb capacity capture.len then capacity else capture.len in
      some (
        record {
          len = copy_len;
          ethertype = capture.ethertype;
          frame = take copy_len capture.frame;
        },
        record c { capture_read = u16 (c.capture_read + 1) },
      )

unfoldable pub virtio_net_poll : Net → Net
virtio_net_poll n = if not n.nic.ready then n else drain_tx (drain_rx n)

-- The copied bytes; their number is what the function returns.
unfoldable pub copy_last_test_frame : ℕ → Nic → List ℕ
copy_last_test_frame capacity c =
    take (if ltb capacity c.last_test_frame_len then capacity else c.last_test_frame_len)
      c.last_test_frame
