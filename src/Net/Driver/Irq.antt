-- ===== src/Net/Driver/Irq.antt =====
-- kernel/virtio_net.c: the interrupt handler as a whole.
use risc_v_os.Base.{
  ℕ, suc, zero, ◌^◌, ◌<◌, ◌-◌, ◌≡◌, refl, ap, ◌∙◌, Bool, true, false, List, [], ◌∷◌, arith, leb,
  ◌==◌, Bool-cases, inl, inr, get_or,
}
use Prim.Native.Nat.{bit_and}
use risc_v_os.Base.Word.{sub16}
use risc_v_os.Virtio.{VirtqUsedElem}
use risc_v_os.Virtio.Used.{IsCounted, backlog, completions}
use risc_v_os.Net.Driver.{
  Nic, Net, rx_one, with_rx, drain_rx, drain_tx, receive_frame, receive_short, dispatch, capture_rx,
  enqueue_rx, clamp_len, net_hdr_size, virtio_net_irq,
}
use risc_v_os.Virtio.Pop.{taken}
use risc_v_os.Net.Driver.Drain.{handle_all, any_of, notified, drain_rx_lem}
use risc_v_os.Net.Driver.Sent.{sent, drain_tx_lem}

-- What the receive path leaves alone: the transmit queue and its counters.
pub record SameTx (c d : Nic) : Type 0 where
  pub vq : d.tx_vq ≡ c.tx_vq
  pub packets : d.tx_packets ≡ c.tx_packets
  pub pending : d.pending_tx_len ≡ c.pending_tx_len

SameTx-trans : (c d e : Nic) → SameTx c d → SameTx d e → SameTx c e
SameTx-trans c d e s t = record {
  vq = t.vq ∙ s.vq;
  packets = t.packets ∙ s.packets;
  pending = t.pending ∙ s.pending;
}

capture_rx-SameTx : (f : List ℕ) (l e : ℕ) (c : Nic) → SameTx c (capture_rx f l e c)
unfolding capture_rx
capture_rx-SameTx f l e c = record {
  vq = ground arith;
  packets = ground arith;
  pending = ground arith;
}

dispatch-SameTx : (f : List ℕ) (l e : ℕ) (n : Net) → SameTx n.nic (dispatch f l e n).nic
unfolding dispatch
dispatch-SameTx f l e n = record {
  vq = ground arith;
  packets = ground arith;
  pending = ground arith;
}

receive_frame-SameTx : (f : List ℕ) (l : ℕ) (n : Net) → SameTx n.nic (receive_frame f l n).nic
unfolding receive_frame
receive_frame-SameTx f l n =
    let s = capture_rx-SameTx f l _ _ in
    let t = dispatch-SameTx f l _ _ in
    record { vq = t.vq ∙ s.vq; packets = t.packets ∙ s.packets; pending = t.pending ∙ s.pending }

rx_one-SameTx : (e : VirtqUsedElem) (n : Net) → SameTx n.nic (rx_one e n).nic
unfolding rx_one receive_short enqueue_rx
rx_one-SameTx e n = elim (Bool-cases (leb 24 e.len)) [
  | inl long ↦
      let s =
        receive_frame-SameTx (get_or n.nic.rx_frames e.id []) (clamp_len (e.len - net_hdr_size))
          n in
      rw long (record { vq = s.vq; packets = s.packets; pending = s.pending })
  | inr short ↦ rw short (record { vq = refl; packets = refl; pending = refl })
]

handle_all-SameTx : (es : List VirtqUsedElem) (n : Net) → SameTx n.nic (handle_all es n).nic
handle_all-SameTx [] n = record { vq = refl; packets = refl; pending = refl }
handle_all-SameTx (e ∷ es) n =
    let s = rx_one-SameTx e (with_rx n (taken n.nic.rx_vq)) in
    let t = handle_all-SameTx es (rx_one e (with_rx n (taken n.nic.rx_vq))) in
    record { vq = t.vq ∙ s.vq; packets = t.packets ∙ s.packets; pending = t.pending ∙ s.pending }

notified-SameTx : (r : Bool) (m : Net) → SameTx m.nic (notified r m).nic
notified-SameTx true m = record { vq = refl; packets = refl; pending = refl }
notified-SameTx false m = record { vq = refl; packets = refl; pending = refl }

pub drain_rx-SameTx : (n : Net) → IsCounted n.nic.rx_vq → SameTx n.nic (drain_rx n).nic
drain_rx-SameTx n c =
    let (ran, _) = drain_rx_lem n c in
    let es = completions n.nic.rx_vq in
    rw ran
      (SameTx-trans _ _ _ (handle_all-SameTx es n) (notified-SameTx (any_of es) (handle_all es n)))

-- The status that was read is written back.
abbrev pub acked : ℕ → Net → Net
acked status n = record n { nic = record n.nic { reg_writes = (0x64, status) ∷ n.nic.reg_writes } }

sent-SameRx : (k : ℕ) (n : Net) → (sent k n).nic.rx_vq ≡ n.nic.rx_vq
sent-SameRx zero n = refl
sent-SameRx (suc k) n = refl

sent_idle :
    (k : ℕ) (n : Net)
    → IsCounted n.nic.tx_vq
    → backlog n.nic.tx_vq ≡ k
    → completions (sent k n).nic.tx_vq ≡ []
sent_idle zero n c e = rw e refl
sent_idle (suc k) n c e =
    let idle : sub16 n.nic.tx_vq.used_index n.nic.tx_vq.used_index ≡ 0 = omega (arith, c) in
    rw idle refl

pub drain_both :
    (n : Net)
    → IsCounted n.nic.rx_vq
    → IsCounted n.nic.tx_vq
    → n.nic.tx_packets < 2 ^ 32
    → let es = completions n.nic.rx_vq in
      let m = drain_tx (drain_rx n) in
      (m ≡ sent (backlog n.nic.tx_vq) (notified (any_of es) (handle_all es n)))
      × ((completions m.nic.rx_vq ≡ []) × (completions m.nic.tx_vq ≡ []))
drain_both n cr ct lt =
    let (ran, idle_rx) = drain_rx_lem n cr in
    let same = drain_rx-SameTx n cr in
    let ct' : IsCounted (drain_rx n).nic.tx_vq = rw same.vq ct in
    let sends = drain_tx_lem (drain_rx n) ct' (rw same.packets lt) in
    let k = backlog (drain_rx n).nic.tx_vq in
    (
      sends
          ∙ ap (λ i. sent i (drain_rx n)) (ap backlog same.vq)
          ∙ ap (sent (backlog n.nic.tx_vq)) ran,
      (
        ap (λ m. completions m.nic.rx_vq) sends
            ∙ ap completions (sent-SameRx k (drain_rx n))
            ∙ idle_rx,
        ap (λ m. completions m.nic.tx_vq) sends ∙ sent_idle k (drain_rx n) ct' refl,
      ),
    )

-- Where the interrupt status names the queues, the handler acknowledges it, handles every received
-- frame in order, counts every completed transmission, and leaves nothing waiting in either queue.
pub virtio_net_irq_lem :
    (status : ℕ) (n : Net)
    → bit_and status 1 ≡ 1
    → IsCounted n.nic.rx_vq
    → IsCounted n.nic.tx_vq
    → n.nic.tx_packets < 2 ^ 32
    → let es = completions n.nic.rx_vq in
      let m = virtio_net_irq status n in
      (m ≡ sent (backlog n.nic.tx_vq) (notified (any_of es) (handle_all es (acked status n))))
      × ((completions m.nic.rx_vq ≡ []) × (completions m.nic.tx_vq ≡ []))
unfolding virtio_net_irq
virtio_net_irq_lem zero n bit cr ct lt = absurd (omega (arith, bit))
virtio_net_irq_lem (suc s) n bit cr ct lt =
    let some_bit : (suc s == 0) ≡ false = ground arith in
    rw (bit, some_bit) (drain_both (acked (suc s) n) cr ct lt)
