-- ===== src/Net/Driver/Send.antt =====
-- kernel/virtio_net.c and kernel/interrupt.c: sending a frame, and the wait for the interrupt that
-- reports it sent. What the device does while the driver waits is a list of rounds.
use Prim.Native.Nat.{bit_and}
use risc_v_os.Base.{
  ℕ, ◌+◌, ◌-◌, ◌/◌, ◌^◌, Bool, false, not, ◌||◌, Option, none, some, List, [], ◌∷◌, ◌++◌, ltb, leb,
  if◌then◌else◌, take, set, replicate,
}
use risc_v_os.Base.Word.{u8, u16}
use risc_v_os.Virtio.{VirtqUsedElem, virtq_kick}
use risc_v_os.Net.Arp.{net_mac, ethernet_header_size}
use risc_v_os.Net.Driver.{Net, virtio_net_irq, net_hdr_size, test_ethertype}

-- What the device has written by the time of an interrupt: the interrupt status, the receive
-- buffers, and the two used rings with their counters.
pub record Round : Type 0 where
  pub status : ℕ
  pub rx_frames : List (List ℕ)
  pub rx_ring : List VirtqUsedElem
  pub rx_index : ℕ
  pub tx_ring : List VirtqUsedElem
  pub tx_index : ℕ

abbrev pub device_writes : Round → Net → Net
device_writes r n = record n {
  nic = record n.nic {
    rx_frames = r.rx_frames;
    rx_vq = record n.nic.rx_vq { used_ring = r.rx_ring; used_index = u16 r.rx_index };
    tx_vq = record n.nic.tx_vq { used_ring = r.tx_ring; used_index = u16 r.tx_index };
  };
}

abbrev pub interrupt : Round → Net → Net
interrupt r n = virtio_net_irq r.status (device_writes r n)

-- The loop of `wait_for_interrupt(&net_tx_done)`, with the rounds that are left; `none` where the
-- last round is over and the loop still waits.
unfoldable pub wait_for_interrupt : List Round → Net → Option (List Round × Net)
wait_for_interrupt [] n = if n.nic.tx_done then some ([], n) else none
wait_for_interrupt (r ∷ rs) n =
    let rest = wait_for_interrupt rs (interrupt r n) in
    if n.nic.tx_done then some (r ∷ rs, n) else rest

-- -1 as the `int` that a caller sees.
abbrev pub minus_one : ℕ
minus_one = 2 ^ 32 - 1

abbrev pub is_negative : ℕ → Bool
is_negative len = leb (2 ^ 31) len

abbrev pub max_payload_len : ℕ
max_payload_len = 1500

-- The bytes of the transmit buffer: zeros, the header, the payload.
abbrev pub ethernet_frame : List ℕ → ℕ → List ℕ → ℕ → List ℕ
ethernet_frame dst_mac ethertype payload len =
    take 6 dst_mac
    ++ (take 6 net_mac
        ++ (u8 (ethertype / 2 ^ 8)
            ∷ bit_and ethertype 0xff
            ∷ (take len payload ++ replicate (max_payload_len - len) 0)))

abbrev pub padded : ℕ → ℕ
padded frame_len = if ltb frame_len 60 then 60 else frame_len

-- The driver from the descriptor on to the kick: `frame` is in the buffer.
unfoldable pub transmit : List ℕ → ℕ → Net → Net
transmit frame frame_len n =
    let described = record n.nic.tx_vq {
      descs =
          set n.nic.tx_vq.descs 0
            (record { addr = n.nic.tx_paddr; len = net_hdr_size + frame_len; flags = 0; next = 0 });
    } in
    let (vq, w) = virtq_kick 0 described n.nic.reg_writes in
    record n {
      nic = record n.nic {
        tx_frame = frame;
        tx_vq = vq;
        pending_tx_len = frame_len;
        tx_done = false;
        reg_writes = w;
      };
    }

abbrev pub returning : ℕ → Option (List Round × Net) → Option (ℕ × (List Round × Net))
returning value none = none
returning value (some p) = some (value, p)

-- A null pointer is `none`; `none` as the result is a wait without end.
unfoldable pub virtio_net_send_ethernet :
    Option (List ℕ) → ℕ → Option (List ℕ) → ℕ → List Round → Net → Option (ℕ × (List Round × Net))
virtio_net_send_ethernet none ethertype payload len rs n = some (minus_one, (rs, n))
virtio_net_send_ethernet (some dst) ethertype none len rs n = some (minus_one, (rs, n))
virtio_net_send_ethernet (some dst) ethertype (some payload) len rs n =
    if not n.nic.ready || (is_negative len || ltb max_payload_len len)
    then some (minus_one, (rs, n))
    else returning len (
        wait_for_interrupt rs (
          transmit (ethernet_frame dst ethertype payload len) (padded (ethernet_header_size + len))
            n))

abbrev pub broadcast_mac : List ℕ
broadcast_mac = replicate 6 0xff

unfoldable pub virtio_net_send_packet :
    Option (List ℕ) → ℕ → List Round → Net → Option (ℕ × (List Round × Net))
virtio_net_send_packet payload len rs n =
    virtio_net_send_ethernet (some broadcast_mac) test_ethertype payload len rs n

-- "virtio-net: tx test frame len=60\n", printed by `virtio_net_send_test_packet`.
abbrev pub test_report : List ℕ
test_report =
    b'v' ∷ b'i' ∷ b'r' ∷ b't' ∷ b'i' ∷ b'o' ∷ b'-' ∷ b'n' ∷ b'e' ∷ b't' ∷ b':' ∷ b' ' ∷ b't' ∷ b'x'
    ∷ b' ' ∷ b't' ∷ b'e' ∷ b's' ∷ b't' ∷ b' ' ∷ b'f' ∷ b'r' ∷ b'a' ∷ b'm' ∷ b'e' ∷ b' ' ∷ b'l'
    ∷ b'e' ∷ b'n' ∷ b'=' ∷ b'6' ∷ b'0' ∷ 10 ∷ []

abbrev pub reported : Option (List Round × Net) → Option (List Round × Net)
reported none = none
reported (some (rs, n)) = some (rs, record n { console = n.console ++ test_report })

unfoldable pub virtio_net_send_test_packet : List Round → Net → Option (List Round × Net)
virtio_net_send_test_packet rs n =
    if not n.nic.ready
    then some (rs, n)
    else reported
        (wait_for_interrupt rs (transmit (ethernet_frame broadcast_mac test_ethertype [] 0) 60 n))
