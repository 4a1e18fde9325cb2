-- ===== src/Allocator/Alloc.antt =====
-- kernel/allocator.c: `alloc_pages`, on success and on failure.
use risc_v_os.Base.{
  ℕ, ◌≤◌, ◌<◌, ◌≡◌, sym, ◌∙◌, length, panic-injective, true, false, ◌&&◌, none, arith, leb, inl,
  inr, ◌⊎◌, ok, panic, Panic, out_of_memory, subst, ok-injective, find_index-none,
}
use risc_v_os.Allocator.{
  Heap, region, blank, is_free, is_unused, max_regions, find_unused_region_slot,
  find_suitable_free_region, alloc_pages,
}
use risc_v_os.Allocator.Ownership.{IsValid, free-lt-length}
use risc_v_os.Allocator.Calls.{bytes, Allocated, alloc_pages-outcome}

-- A successful `alloc_pages` hands out a page-aligned block of the size asked for, under an index
-- that held nothing: each byte of the block was free and is now held, no other byte changes hands,
-- no other index is touched, the block is zero and the rest of memory is as it was.
pub alloc_pages-Allocated :
    (limit n p idx : ℕ) (h h' : Heap)
    → IsValid limit h.regions
    → alloc_pages n h ≡ ok (p, idx, h')
    → Allocated limit n h p idx h'
alloc_pages-Allocated limit n p idx h h' v e = elim (alloc_pages-outcome limit n h v) [
  | inl (_, failed) ↦ cc
  | inr (p', idx', h'', e', a) ↦
      subst (λ (t : ℕ × ℕ × Heap). Allocated limit n h t.0 t.1 t.2) (ok-injective (sym e' ∙ e)) a
]

no_fit :
    (n : ℕ) (h : Heap)
    → find_suitable_free_region (bytes n) h.regions ≡ none
    → (j : ℕ) → is_free (region h.regions j) ≡ true
    → (region h.regions j).size < bytes n
unfolding find_suitable_free_region
no_fit n h e j f = ground (
  arith,
  find_index-none (λ r. is_free r && leb (bytes n) r.size) h.regions blank e j
      (free-lt-length h.regions j f),
)

no_slot :
    (h : Heap)
    → find_unused_region_slot h.regions ≡ none
    → (j : ℕ) → j < length h.regions
    → is_unused (region h.regions j) ≡ false
unfolding find_unused_region_slot
no_slot h e = find_index-none is_unused h.regions blank e

-- The only panic of `alloc_pages` is out of memory, and it comes only where every free region is
-- too small or no slot of the table is unused.
pub alloc_pages_panics :
    (limit n : ℕ) (h : Heap) (e : Panic)
    → IsValid limit h.regions
    → alloc_pages n h ≡ panic e
    → (e ≡ out_of_memory)
      × (((j : ℕ) → is_free (region h.regions j) ≡ true → (region h.regions j).size < bytes n)
          ⊎ ((j : ℕ) → j < max_regions → is_unused (region h.regions j) ≡ false))
alloc_pages_panics limit n h e v failed = elim (alloc_pages-outcome limit n h v) [
  | inr (p, idx, h', e', _) ↦ cc
  | inl (why, e') ↦ (
    panic-injective (sym failed ∙ e'),
    elim why [
      | inl ef ↦ inl (no_fit n h ef)
      | inr eu ↦ inr (λ j lt. no_slot h eu j (omega (arith, v.slots)))
    ],
  )
]

-- With a free region that is large enough and an unused slot, `alloc_pages` succeeds.
pub alloc_pages_succeeds :
    (limit n i j : ℕ) (h : Heap)
    → IsValid limit h.regions
    → is_free (region h.regions i) ≡ true
    → bytes n ≤ (region h.regions i).size
    → j < max_regions
    → is_unused (region h.regions j) ≡ true
    → (p idx : ℕ) × (h' : Heap) × (alloc_pages n h ≡ ok (p, idx, h'))
alloc_pages_succeeds limit n i j h v fi enough lt uj = elim (alloc_pages-outcome limit n h v) [
  | inr (p, idx, h', e', _) ↦ (p, idx, h', e')
  | inl (inl ef, _) ↦ absurd (omega (arith, no_fit n h ef i fi))
  | inl (inr eu, _) ↦ absurd (ground (arith, no_slot h eu j (omega (arith, v.slots))))
]
