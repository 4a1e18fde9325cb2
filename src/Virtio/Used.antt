-- ===== src/Virtio/Used.antt =====
-- kernel/virtio.c: the used ring as the queue of what the device has completed.
use risc_v_os.Base.{
  ℕ, suc, zero, ◌+◌, ◌%◌, ◌^◌, ◌<◌, ◌≡◌, refl, Option, none, some, List, [], ◌∷◌, ◌==◌, arith,
  get_or, Bool-cases, ==→eq, sym, inl, inr,
}
use risc_v_os.Base.Word.{u16, sub16}
use risc_v_os.Virtio.{Virtq, VirtqUsedElem, no_elem, virtq_entry_num, virtq_pop_used}

-- The `n` entries of the used ring from counter value `k` on.
abbrev pub entries : List VirtqUsedElem → ℕ → ℕ → List VirtqUsedElem
entries ring k zero = []
entries ring k (suc n) = get_or ring (k % virtq_entry_num) no_elem ∷ entries ring (u16 (k + 1)) n

-- How many completions the driver has not taken yet, and which.
abbrev pub backlog : Virtq → ℕ
backlog vq = sub16 vq.used_index vq.consumed_used_index

abbrev pub completions : Virtq → List VirtqUsedElem
completions vq = entries vq.used_ring vq.consumed_used_index (backlog vq)

-- Both counters are 16-bit words.
pub record IsCounted (vq : Virtq) : Type 0 where
  pub used_u16 : vq.used_index < 2 ^ 16
  pub consumed_u16 : vq.consumed_used_index < 2 ^ 16

-- The first of a queue, and the rest.
abbrev pub uncons {ℓ} : {A : Type ℓ} → List A → Option (A × List A)
uncons [] = none
uncons (x ∷ xs) = some (x, xs)

abbrev pub seen : Option (VirtqUsedElem × Virtq) → Option (VirtqUsedElem × List VirtqUsedElem)
seen none = none
seen (some (e, vq)) = some (e, completions vq)

entries-step :
    (ring : List VirtqUsedElem) (k n m : ℕ)
    → n ≡ suc m
    → uncons (entries ring k n)
      ≡ some (get_or ring (k % virtq_entry_num) no_elem, entries ring (u16 (k + 1)) m)
entries-step ring k n m e = rw e refl

-- `virtq_pop_used` takes the oldest completion off the queue, and answers no exactly when there is
-- none, also where the 16-bit counters have wrapped.
pub virtq_pop_used_lem :
    (vq : Virtq) → IsCounted vq → seen (virtq_pop_used vq) ≡ uncons (completions vq)
unfolding virtq_pop_used
virtq_pop_used_lem vq c = elim (Bool-cases (vq.consumed_used_index == vq.used_index)) [
  | inl same ↦ let idle : backlog vq ≡ 0 = omega (arith, c, ==→eq _ _ same) in rw (same, idle) refl
  | inr more ↦
      rw more
        (sym (entries-step vq.used_ring vq.consumed_used_index (backlog vq) _ (ground (arith, c))))
]
