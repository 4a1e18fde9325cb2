-- ===== src/Net/Driver/Sent.antt =====
-- kernel/virtio_net.c: the completions of the transmit queue.
use risc_v_os.Base.{ℕ, suc, zero, ◌+◌, ◌%◌, ◌^◌, ◌<◌, ◌≡◌, refl, ap, ◌∙◌, true, arith, get_or}
use risc_v_os.Base.Word.{u32, add32}
use risc_v_os.Virtio.{VirtqUsedElem, no_elem, virtq_entry_num}
use risc_v_os.Virtio.Used.{IsCounted, backlog}
use risc_v_os.Net.Driver.{Net, tx_one, with_tx, drain_tx_loop, drain_tx}
use risc_v_os.Virtio.Pop.{taken, taken-IsCounted, pop_next}
use risc_v_os.Net.Driver.Drain.{pop_nothing}

-- The driver once it has seen `k` transmissions complete.
abbrev pub sent : ℕ → Net → Net
sent zero n = n
sent (suc k) n = record n {
  nic = record n.nic {
    tx_vq = record n.nic.tx_vq { consumed_used_index = n.nic.tx_vq.used_index };
    tx_packets = u32 (n.nic.tx_packets + suc k);
    last_tx_len = n.nic.pending_tx_len;
    tx_done = true;
  };
}

sent_more : ℕ → ℕ → Net → Net
sent_more consumed packets n = record n {
  nic = record n.nic {
    tx_vq = record n.nic.tx_vq { consumed_used_index = consumed };
    tx_packets = packets;
    last_tx_len = n.nic.pending_tx_len;
    tx_done = true;
  };
}

sent-tx_one :
    (k : ℕ) (e : VirtqUsedElem) (n : Net)
    → IsCounted n.nic.tx_vq
    → backlog n.nic.tx_vq ≡ suc k
    → n.nic.tx_packets < 2 ^ 32
    → sent k (tx_one e (with_tx n (taken n.nic.tx_vq))) ≡ sent (suc k) n
unfolding tx_one sent_more
sent-tx_one zero e n c b lt = ap (λ i. sent_more i (add32 n.nic.tx_packets 1) n) (omega (arith, c))
sent-tx_one (suc k) e n c b lt = ap (λ p. sent_more n.nic.tx_vq.used_index p n) (omega arith)

drain_tx_loop_lem :
    (k : ℕ) (n : Net)
    → IsCounted n.nic.tx_vq
    → backlog n.nic.tx_vq ≡ k
    → n.nic.tx_packets < 2 ^ 32
    → drain_tx_loop (suc k) n ≡ sent k n
unfolding drain_tx_loop tx_one
drain_tx_loop_lem zero n c b lt = rw (pop_nothing n.nic.tx_vq c (rw b refl), drain_tx_loop) refl
drain_tx_loop_lem (suc k) n c b lt =
    let (popped, b') = pop_next n.nic.tx_vq k c b in
    rw (popped, drain_tx_loop)
      (drain_tx_loop_lem k (tx_one e (with_tx n (taken n.nic.tx_vq)))
          (taken-IsCounted n.nic.tx_vq c) b' (omega arith)
        ∙ sent-tx_one k e n c b lt)
  where
    e : VirtqUsedElem
    e = get_or n.nic.tx_vq.used_ring (n.nic.tx_vq.consumed_used_index % virtq_entry_num) no_elem

-- `virtio_net_drain_tx` takes every completion off the transmit queue: it counts each, and where
-- there was one it records the length of the frame sent and tells the waiting sender.
pub drain_tx_lem :
    (n : Net)
    → IsCounted n.nic.tx_vq
    → n.nic.tx_packets < 2 ^ 32
    → drain_tx n ≡ sent (backlog n.nic.tx_vq) n
unfolding drain_tx
drain_tx_lem n c lt = drain_tx_loop_lem (backlog n.nic.tx_vq) n c refl lt
