-- ===== src/Virtio/Pop.antt =====
-- kernel/virtio.c: one step of taking completions off a queue.
use risc_v_os.Base.{ℕ, suc, ◌+◌, ◌%◌, ◌≡◌, refl, true, false, none, some, ◌==◌, arith, get_or}
use risc_v_os.Base.Word.{u16}
use risc_v_os.Virtio.{Virtq, no_elem, virtq_entry_num, virtq_pop_used}
use risc_v_os.Virtio.Used.{IsCounted, backlog}

-- The queue once its oldest completion is taken.
abbrev pub taken : Virtq → Virtq
taken vq = record vq { consumed_used_index = u16 (vq.consumed_used_index + 1) }

pub taken-IsCounted : (vq : Virtq) → IsCounted vq → IsCounted (taken vq)
taken-IsCounted vq c = record { used_u16 = c.used_u16; consumed_u16 = omega arith }

pub pop_next :
    (vq : Virtq) (k : ℕ)
    → IsCounted vq
    → backlog vq ≡ suc k
    → (virtq_pop_used vq
        ≡ some (get_or vq.used_ring (vq.consumed_used_index % virtq_entry_num) no_elem, taken vq))
      × (backlog (taken vq) ≡ k)
unfolding virtq_pop_used
pop_next vq k c e =
    let more : (vq.consumed_used_index == vq.used_index) ≡ false = ground (arith, c) in
    (rw more refl, omega (arith, c))

pub pop_none : (vq : Virtq) → IsCounted vq → backlog vq ≡ 0 → virtq_pop_used vq ≡ none
unfolding virtq_pop_used
pop_none vq c e =
    let idle : (vq.consumed_used_index == vq.used_index) ≡ true = ground (arith, c) in rw idle refl
