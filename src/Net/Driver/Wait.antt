-- ===== src/Net/Driver/Wait.antt =====
-- kernel/interrupt.c: when the wait of a sender ends.
use Prim.Native.Nat.{bit_and}
use risc_v_os.Base.{
  ℕ, suc, zero, ◌+◌, ◌^◌, ◌<◌, ◌≤◌, ◌≡◌, ◌≢◌, refl, sym, ap, ◌∙◌, true, false, Option, none, some,
  List, [], ◌∷◌, arith, if◌then◌else◌, Bool-cases, inl, inr, ltb, not, ◌||◌, set, ◌%◌, false,
}
use risc_v_os.Base.Word.{u16}
use risc_v_os.Virtio.{virtq_kick, virtq_push, virtq_notify}
use risc_v_os.Virtio.Used.{IsCounted, backlog}
use risc_v_os.Net.Driver.{Net, test_ethertype}
use risc_v_os.Net.Driver.Sent.{sent}
use risc_v_os.Net.Driver.Irq.{virtio_net_irq_lem}
use risc_v_os.Net.Arp.{ethernet_header_size}
use risc_v_os.Net.Driver.Send.{
  Round, device_writes, interrupt, wait_for_interrupt, virtio_net_send_ethernet, transmit,
  ethernet_frame, padded, returning, is_negative, max_payload_len, minus_one,
  virtio_net_send_packet, virtio_net_send_test_packet, reported, broadcast_mac,
}

-- Some round of the script reports a transmission: its status names the queues, and its used ring
-- is ahead of the driver.
pub data Completes : List Round → Net → Type 0 where
  now :
      {r : Round} {rs : List Round} {n : Net}
      → bit_and r.status 1 ≡ 1
      → backlog (device_writes r n).nic.tx_vq ≢ 0
      → n.nic.tx_packets < 2 ^ 32
      → IsCounted (device_writes r n).nic.rx_vq
      → IsCounted (device_writes r n).nic.tx_vq
      → Completes (r ∷ rs) n
  later :
      {r : Round} {rs : List Round} {n : Net} → Completes rs (interrupt r n) → Completes (r ∷ rs) n

-- The interrupts of a wait, from one state of the driver to another: as long as nothing is reported
-- sent, and no longer.
pub data Waits : List Round → Net → List Round → Net → Type 0 where
  over : {rs : List Round} {n : Net} → n.nic.tx_done ≡ true → Waits rs n rs n
  round :
      {r : Round} {rs left : List Round} {n m : Net}
      → n.nic.tx_done ≡ false
      → Waits rs (interrupt r n) left m
      → Waits (r ∷ rs) n left m

-- A wait that ended, and ended with the frame sent.
pub record Returns (rs : List Round) (n : Net) : Type 0 where
  pub left : List Round
  pub net : Net
  pub returned : wait_for_interrupt rs n ≡ some (left, net)
  pub waits : Waits rs n left net
  pub frame_sent : net.nic.tx_done ≡ true

sent-tx_done : (k : ℕ) (n : Net) → k ≢ 0 → (sent k n).nic.tx_done ≡ true
sent-tx_done zero n h = absurd (h refl)
sent-tx_done (suc k) n h = refl

done-Returns : (rs : List Round) (n : Net) → n.nic.tx_done ≡ true → Returns rs n
unfolding wait_for_interrupt
done-Returns [] n d = record {
  left = [];
  net = n;
  returned = ap (λ b. if b then some ([], n) else none) d;
  waits = over d;
  frame_sent = d;
}
done-Returns (r ∷ rs) n d = record {
  left = r ∷ rs;
  net = n;
  returned = ap (λ b. if b then some (r ∷ rs, n) else wait_for_interrupt rs (interrupt r n)) d;
  waits = over d;
  frame_sent = d;
}

later-Returns :
    (r : Round) (rs : List Round) (n : Net) → Returns rs (interrupt r n) → Returns (r ∷ rs) n
unfolding wait_for_interrupt
later-Returns r rs n t = elim (Bool-cases n.nic.tx_done) [
  | inl d ↦ done-Returns (r ∷ rs) n d
  | inr d ↦ record {
    left = t.left;
    net = t.net;
    returned =
        ap (λ b. if b then some (r ∷ rs, n) else wait_for_interrupt rs (interrupt r n)) d
        ∙ t.returned;
    waits = round d t.waits;
    frame_sent = t.frame_sent;
  }
]

-- The wait of a sender ends, with the frame reported sent, where some round of the device reports
-- a transmission.
pub wait_for_interrupt-Returns : (rs : List Round) (n : Net) → Completes rs n → Returns rs n
wait_for_interrupt-Returns [] n c = elim c [ ]
wait_for_interrupt-Returns (r ∷ rs) n (now bit ahead lt cr ct) =
    later-Returns r rs n (done-Returns rs (interrupt r n) done)
  where
    done : (interrupt r n).nic.tx_done ≡ true
    done =
        ap (λ m. m.nic.tx_done) (virtio_net_irq_lem r.status (device_writes r n) bit cr ct lt).0
        ∙ sent-tx_done _ _ ahead
wait_for_interrupt-Returns (r ∷ rs) n (later c) =
    later-Returns r rs n (wait_for_interrupt-Returns rs (interrupt r n) c)

-- The driver with `frame` handed to the device: the frame in the buffer, one descriptor for it behind
-- the ten bytes of the header of virtio, its head offered, the device told, and nothing reported sent.
abbrev handed : List ℕ → ℕ → Net → Net
handed frame frame_len n = record n {
  nic = record n.nic {
    tx_frame = frame;
    tx_vq = record n.nic.tx_vq {
      descs =
          set n.nic.tx_vq.descs 0
            (record { addr = n.nic.tx_paddr; len = 10 + frame_len; flags = 0; next = 0 });
      avail_ring = set n.nic.tx_vq.avail_ring (n.nic.tx_vq.avail_index % 16) 0;
      avail_index = u16 (n.nic.tx_vq.avail_index + 1);
      submitted_index = u16 (n.nic.tx_vq.submitted_index + 1);
    };
    pending_tx_len = frame_len;
    tx_done = false;
    reg_writes = (0x50, n.nic.tx_vq.queue_index) ∷ n.nic.reg_writes;
  };
}

transmit-handed : (frame : List ℕ) (len : ℕ) (n : Net) → transmit frame len n ≡ handed frame len n
unfolding transmit virtq_kick virtq_push virtq_notify
transmit-handed frame len n = refl

-- The frame with a payload of `len` bytes, of 60 bytes at least.
abbrev pub sends_frame : List ℕ → ℕ → List ℕ → ℕ → Net → Net
sends_frame dst ethertype payload len n =
    handed (ethernet_frame dst ethertype payload len) (if ltb (14 + len) 60 then 60 else 14 + len) n

-- Whenever the driver is up, the length is at most 1500 and the device completes the frame,
-- virtio_net_send_ethernet hands the frame to the device, with the report of an earlier frame taken
-- back, takes interrupts as long as the device reports no frame sent and no longer, and returns the
-- length of the payload.
pub virtio_net_send_ethernet_returns :
    (dst : List ℕ) (ethertype : ℕ) (payload : List ℕ) (len : ℕ) (rs : List Round) (n : Net)
    → n.nic.ready ≡ true
    → len ≤ max_payload_len
    → Completes rs (sends_frame dst ethertype payload len n)
    → (left : List Round) × (m : Net) × (virtio_net_send_ethernet
          (some dst)
          ethertype
          (some payload)
          len
          rs
          n
        ≡ some (len, (left, m)))
      × Waits rs (sends_frame dst ethertype payload len n) left m
      × (m.nic.tx_done ≡ true)
unfolding virtio_net_send_ethernet
virtio_net_send_ethernet_returns dst ethertype payload len rs n up fits c =
    let t = wait_for_interrupt-Returns rs (sends_frame dst ethertype payload len n) c in
    let small : (is_negative len || ltb max_payload_len len) ≡ false = ground arith in
    (
      t.left,
      t.net,
      ap
            (λ b.
              if not b || (is_negative len || ltb max_payload_len len)
              then some (minus_one, (rs, n))
              else waited)
            up
          ∙ ap (λ b. if b then some (minus_one, (rs, n)) else waited) small
          ∙ ap (λ s. returning len (wait_for_interrupt rs s)) (transmit-handed _ _ n)
          ∙ ap (returning len) t.returned,
      t.waits,
      t.frame_sent,
    )
  where
    waited : Option (ℕ × (List Round × Net))
    waited = returning len (
        wait_for_interrupt rs (
          transmit (ethernet_frame dst ethertype payload len) (padded (ethernet_header_size + len))
            n))

abbrev pub outcome : Option (ℕ × (List Round × Net)) → Option (List Round × Net)
outcome none = none
outcome (some (value, p)) = some p

outcome-returning : (value : ℕ) (r : Option (List Round × Net)) → r ≡ outcome (returning value r)
outcome-returning value none = refl
outcome-returning value (some p) = refl

-- The test packet is the empty packet: the frame handed to the device is the one that
-- `virtio_net_send_packet` sends for a payload of no bytes, and what differs is the report on the console.
pub virtio_net_send_test_packet_lem :
    (rs : List Round) (n : Net)
    → n.nic.ready ≡ true
    → virtio_net_send_test_packet rs n
      ≡ reported (outcome (virtio_net_send_packet (some []) 0 rs n))
unfolding virtio_net_send_test_packet virtio_net_send_packet virtio_net_send_ethernet
virtio_net_send_test_packet_lem rs n up =
    ap (λ b. if not b then some (rs, n) else reported waited) up
    ∙ ap reported (outcome-returning 0 waited)
    ∙ sym (
        ap
          (λ b. reported (
            outcome (
              if not b || (is_negative 0 || ltb max_payload_len 0)
              then some (minus_one, (rs, n))
              else returning 0 waited)))
          up)
  where
    waited : Option (List Round × Net)
    waited =
        wait_for_interrupt rs (transmit (ethernet_frame broadcast_mac test_ethertype [] 0) 60 n)
