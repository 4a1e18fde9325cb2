-- ===== src/Allocator/Calls.antt =====
-- kernel/allocator.c: what `alloc_pages` and `release_pages` promise to the rest of the kernel.
use risc_v_os.Base.{
  ℕ, ◌+◌, ◌%◌, ◌^◌, ◌<◌, ◌≡◌, ap, true, some, none, arith, if◌then◌else◌, All-get_or, Option-cases,
  inl, inr, ◌≢◌, ◌⊎◌, ok, panic, out_of_memory,
}
use risc_v_os.Base.Word.{mul32}
use risc_v_os.Memory.{in_block, memset, memset_lem}
use risc_v_os.Allocator.{
  Heap, Region, region, blank, is_unused, page_size, max_regions, carve, find_unused_region_slot,
  find_suitable_free_region, alloc_region, alloc_pages, region_to_addr,
}
use risc_v_os.Allocator.Ownership.{vacancies, holders, holding, Fits, IsValid, blank-Fits}
use risc_v_os.Allocator.Carve.{
  taken, found_u, carve-IsValid, vacancies-carve, holders-carve, region-carve_slot,
  holding-carve_other,
}

-- `num_pages * PAGE_SIZE` in 32 bits.
abbrev pub bytes : ℕ → ℕ
bytes num_pages = mul32 num_pages page_size

-- The heap after a successful call that found regions `f` and `u`.
abbrev pub after : ℕ → Heap → ℕ → ℕ → Heap
after n h f u = record {
  regions = carve f u (bytes n) h.regions;
  memory = memset h.memory (region h.regions f).start 0 (bytes n);
}

module _ (limit n : ℕ) (h : Heap) (v : IsValid limit h.regions) (f u : ℕ)
    (ef : find_suitable_free_region (bytes n) h.regions ≡ some f)
    (eu : find_unused_region_slot h.regions ≡ some u) where
  slot_lt : u < max_regions
  slot_lt =
      omega
        (arith, v.slots, found_u limit (bytes n) f u h.regions v (omega arith) (omega arith) ef eu)

  slot : region (after n h f u).regions u ≡ taken (region h.regions f) (bytes n)
  slot = region-carve_slot limit (bytes n) f u h.regions v (omega arith) (omega arith) ef eu

  alloc_region-found : alloc_region n h ≡ ok (u, after n h f u)
  unfolding alloc_region
  alloc_region-found = rw (ef, alloc_region) (rw (eu, alloc_region))

  region_to_addr-found : region_to_addr u (after n h f u) ≡ ok (region h.regions f).start
  unfolding region_to_addr
  region_to_addr-found = rw slot (ground (arith, slot_lt))

  pub alloc_pages-found : alloc_pages n h ≡ ok ((region h.regions f).start, u, after n h f u)
  unfolding alloc_pages
  alloc_pages-found = rw alloc_region-found (rw region_to_addr-found)

alloc_pages-no_fit :
    (n : ℕ) (h : Heap)
    → find_suitable_free_region (bytes n) h.regions ≡ none
    → alloc_pages n h ≡ panic out_of_memory
unfolding alloc_pages alloc_region
alloc_pages-no_fit n h e = rw (e, alloc_pages, alloc_region)

alloc_pages-no_slot :
    (n : ℕ) (h : Heap)
    → find_unused_region_slot h.regions ≡ none
    → alloc_pages n h ≡ panic out_of_memory
unfolding alloc_pages alloc_region
alloc_pages-no_slot n h e = elim (Option-cases (find_suitable_free_region (bytes n) h.regions)) [
  | inl ef ↦ alloc_pages-no_fit n h ef
  | inr (f, ef) ↦ ground arith
]

-- What a successful `alloc_pages` leaves: address `p`, index `idx` and heap `h'`.
pub record Allocated (limit n : ℕ) (h : Heap) (p idx : ℕ) (h' : Heap) : Type 0 where
  pub valid : IsValid limit h'.regions
  pub aligned : p % page_size ≡ 0
  pub in_table : idx < max_regions
  pub from_vacant :
      (a : ℕ)
      → vacancies a h'.regions + (if in_block p (bytes n) a then 1 else 0) ≡ vacancies a h.regions
  pub to_holder :
      (a : ℕ)
      → holders a h'.regions ≡ holders a h.regions + (if in_block p (bytes n) a then 1 else 0)
  pub index : holding (region h'.regions idx) ≡ some (p, bytes n)
  pub was_idle : holding (region h.regions idx) ≡ none
  pub others : (k : ℕ) → k ≢ idx → holding (region h'.regions k) ≡ holding (region h.regions k)
  pub zeroed : (a : ℕ) → h'.memory a ≡ (if in_block p (bytes n) a then 0 else h.memory a)

unused-holding : (r : Region) → is_unused r ≡ true → holding r ≡ none
unused-holding r e = ground arith

module _ (limit n : ℕ) (h : Heap) (v : IsValid limit h.regions) (f u : ℕ)
    (ef : find_suitable_free_region (bytes n) h.regions ≡ some f)
    (eu : find_unused_region_slot h.regions ≡ some u) where
  found-Allocated : Allocated limit n h (region h.regions f).start u (after n h f u)
  found-Allocated = record {
    valid = carve-IsValid limit (bytes n) f u h.regions v q_lt q_al ef eu;
    aligned = (All-get_or (Fits limit) h.regions f blank v.fits (blank-Fits limit)).start_aligned;
    in_table = slot_lt limit n h v f u ef eu;
    from_vacant = vacancies-carve limit (bytes n) f u h.regions v q_lt q_al ef eu;
    to_holder = holders-carve limit (bytes n) f u h.regions v q_lt q_al ef eu;
    index = ap holding (slot limit n h v f u ef eu);
    was_idle = unused-holding _ (found_u limit (bytes n) f u h.regions v q_lt q_al ef eu).1;
    others = holding-carve_other limit (bytes n) f u h.regions v q_lt q_al ef eu;
    zeroed = memset_lem h.memory (region h.regions f).start 0 (bytes n);
  }
    where
      q_lt : bytes n < 2 ^ 32
      q_lt = omega arith

      q_al : bytes n % page_size ≡ 0
      q_al = omega arith

-- The two outcomes of a call on a well-formed heap.
pub alloc_pages-outcome :
    (limit n : ℕ) (h : Heap)
    → IsValid limit h.regions
    → (((find_suitable_free_region (bytes n) h.regions ≡ none)
          ⊎ (find_unused_region_slot h.regions ≡ none))
        × (alloc_pages n h ≡ panic out_of_memory))
      ⊎ ((p idx : ℕ) × (h' : Heap) × (alloc_pages n h ≡ ok (p, idx, h'))
          × Allocated limit n h p idx h')
alloc_pages-outcome limit n h v =
    elim (Option-cases (find_suitable_free_region (bytes n) h.regions)) [
      | inl ef ↦ inl (inl ef, alloc_pages-no_fit n h ef)
      | inr (f, ef) ↦ elim (Option-cases (find_unused_region_slot h.regions)) [
        | inl eu ↦ inl (inr eu, alloc_pages-no_slot n h eu)
        | inr (u, eu) ↦ inr (
          (region h.regions f).start,
          u,
          after n h f u,
          alloc_pages-found limit n h v f u ef eu,
          found-Allocated limit n h v f u ef eu,
        )
      ]
    ]
