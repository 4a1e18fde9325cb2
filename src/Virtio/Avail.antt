-- ===== src/Virtio/Avail.antt =====
-- kernel/virtio.c: the available ring as the queue of what the driver has offered to the device.
use risc_v_os.Base.{
  ℕ, suc, zero, ◌+◌, ◌%◌, ◌^◌, ◌<◌, ◌≡◌, refl, ap, ◌∙◌, List, [], ◌∷◌, ◌++◌, arith, get_or, set,
  length, length-set, get_or-set_self, get_or-set_ne,
}
use risc_v_os.Base.Word.{u16, sub16}
use risc_v_os.Virtio.{Virtq, virtq_entry_num, virtq_push}

-- The `n` descriptor heads in the ring from counter value `k` on.
abbrev pub heads : List ℕ → ℕ → ℕ → List ℕ
heads ring k zero = []
heads ring k (suc n) = get_or ring (k % virtq_entry_num) 0 ∷ heads ring (u16 (k + 1)) n

-- What the device has still to take, where it has taken all before counter value `k`.
abbrev pub outstanding : Virtq → ℕ → ℕ
outstanding vq k = sub16 vq.avail_index k

abbrev pub offered : Virtq → ℕ → List ℕ
offered vq k = heads vq.avail_ring k (outstanding vq k)

heads-set_past :
    (ring : List ℕ) (i v k n : ℕ)
    → length ring ≡ virtq_entry_num
    → n < virtq_entry_num
    → i ≡ (k + n) % virtq_entry_num
    → k < 2 ^ 16
    → heads (set ring i v) k (suc n) ≡ heads ring k n ++ (v ∷ [])
heads-set_past ring i v k zero len lt e h =
    ap (λ x. x ∷ [])
      (let at : i ≡ k % virtq_entry_num = omega arith in
        rw at (get_or-set_self ring (k % virtq_entry_num) v 0 (omega arith)))
heads-set_past ring i v k (suc n) len lt e h =
    ap (λ x. x ∷ heads (set ring i v) (u16 (k + 1)) (suc n))
      (get_or-set_ne ring i (k % virtq_entry_num) v 0 (omega arith))
    ∙ ap (λ xs. get_or ring (k % virtq_entry_num) 0 ∷ xs)
        (heads-set_past ring i v (u16 (k + 1)) n len (omega arith) (omega arith) (omega arith))

-- `virtq_push` adds the head at the end of what is offered and leaves the descriptors, the used ring
-- and the other counters of the queue alone, as long as fewer than 16 are outstanding, also where the
-- 16-bit counter wraps.
pub offered-virtq_push :
    (vq : Virtq) (k desc_index : ℕ)
    → length vq.avail_ring ≡ virtq_entry_num
    → vq.avail_index < 2 ^ 16
    → k < 2 ^ 16
    → outstanding vq k < virtq_entry_num
    → desc_index < 2 ^ 16
    → (offered (virtq_push desc_index vq) k ≡ offered vq k ++ (desc_index ∷ []))
      × (outstanding (virtq_push desc_index vq) k ≡ outstanding vq k + 1)
      × ((virtq_push desc_index vq).used_ring ≡ vq.used_ring)
      × ((virtq_push desc_index vq).used_index ≡ vq.used_index)
      × ((virtq_push desc_index vq).consumed_used_index ≡ vq.consumed_used_index)
      × ((virtq_push desc_index vq).descs ≡ vq.descs)
      × ((virtq_push desc_index vq).queue_index ≡ vq.queue_index)
      × ((virtq_push desc_index vq).submitted_index ≡ vq.submitted_index)
      × (length (virtq_push desc_index vq).avail_ring ≡ virtq_entry_num)
unfolding virtq_push
offered-virtq_push vq k desc_index len hv hk room hd = (
  ap (λ n. heads ring' k n) one_more
      ∙ heads-set_past vq.avail_ring (vq.avail_index % virtq_entry_num) (u16 desc_index) k
          (outstanding vq k) len room (omega arith) hk
      ∙ ap (λ d. heads vq.avail_ring k (outstanding vq k) ++ (d ∷ [])) whole,
  omega arith,
  refl,
  refl,
  refl,
  refl,
  refl,
  refl,
  length-set vq.avail_ring (vq.avail_index % virtq_entry_num) (u16 desc_index) ∙ len,
)
  where
    ring' : List ℕ
    ring' = set vq.avail_ring (vq.avail_index % virtq_entry_num) (u16 desc_index)

    one_more : outstanding (virtq_push desc_index vq) k ≡ suc (outstanding vq k)
    one_more = omega arith

    whole : u16 desc_index ≡ desc_index
    whole = omega arith
