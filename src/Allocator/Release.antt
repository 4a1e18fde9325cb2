-- ===== src/Allocator/Release.antt =====
-- kernel/allocator.c: `release_pages`, and what it undoes.
use risc_v_os.Base.{
  ℕ, ◌+◌, ◌<◌, ◌≡◌, refl, sym, ap, ◌∙◌, true, false, some, none, List, arith, leb, if◌then◌else◌,
  length, length-set, All-set, All-get_or, sum-set, set, get_or-set_ne, get_or-set_self, Bool-cases,
  ◌==◌, ==→eq, inl, inr, ◌≢◌, ok, panic, region_not_allocated, invalid_region_index, subst,
  ok-injective,
}
use risc_v_os.Memory.{in_block}
use risc_v_os.Allocator.{
  Heap, Region, region, blank, free, is_allocated, max_regions, release_pages, merge_free_regions,
  alloc_pages,
}
use risc_v_os.Allocator.Ownership.{
  vacant, held, vacancies, holders, holding, Fits, IsValid, blank-Fits, allocated-lt-length,
}
use risc_v_os.Allocator.Merge.{
  merge_free_regions-IsValid, merge_free_regions-SameOwners, SameOwners,
}
use risc_v_os.Allocator.Calls.{bytes, Allocated}
use risc_v_os.Allocator.Alloc.{alloc_pages-Allocated}

-- What releasing the block of `size` bytes at `p`, held under `idx`, leaves.
pub record Released (limit p size idx : ℕ) (h h' : Heap) : Type 0 where
  pub valid : IsValid limit h'.regions
  pub to_vacant :
      (a : ℕ)
      → vacancies a h'.regions ≡ vacancies a h.regions + (if in_block p size a then 1 else 0)
  pub from_holder :
      (a : ℕ) → holders a h'.regions + (if in_block p size a then 1 else 0) ≡ holders a h.regions
  pub index : holding (region h'.regions idx) ≡ none
  pub others : (k : ℕ) → k ≢ idx → holding (region h'.regions k) ≡ holding (region h.regions k)
  pub memory : h'.memory ≡ h.memory

-- The table with region `idx` marked free, before merging.
abbrev freed : ℕ → List Region → List Region
freed idx rs = set rs idx (record (region rs idx) { state = free })

abbrev pub released : ℕ → Heap → Heap
released idx h = record h { regions = merge_free_regions (freed idx h.regions) }

pub holding-allocated :
    (r : Region) (p size : ℕ)
    → holding r ≡ some (p, size)
    → (is_allocated r ≡ true) × (r.start ≡ p) × (r.size ≡ size)
holding-allocated r p size e = ground arith

-- Freeing a region turns its bytes from held to vacant.
freed-owners :
    (a : ℕ) (r : Region) (p size : ℕ)
    → is_allocated r ≡ true
    → r.start ≡ p
    → r.size ≡ size
    → (vacant a r ≡ 0)
      × (held a r ≡ (if in_block p size a then 1 else 0))
      × (vacant a (record r { state = free }) ≡ (if in_block p size a then 1 else 0))
      × (held a (record r { state = free }) ≡ 0)
freed-owners a r p size h e k = ground arith

module _ (limit p size idx : ℕ) (h : Heap) (v : IsValid limit h.regions)
    (owns : holding (region h.regions idx) ≡ some (p, size)) where
  open h use {regions}

  own :
      (is_allocated (region regions idx) ≡ true)
      × ((region regions idx).start ≡ p)
      × ((region regions idx).size ≡ size)
  own = holding-allocated (region regions idx) p size owns

  in_table : idx < length regions
  in_table = allocated-lt-length regions idx own.0

  freed-IsValid : IsValid limit (freed idx regions)
  freed-IsValid = record {
    slots = omega (arith, v.slots, length-set regions idx);
    room = v.room;
    fits = All-set (Fits limit) regions idx _ v.fits (
        let f : Fits limit (region regions idx) =
          All-get_or (Fits limit) regions idx blank v.fits (blank-Fits limit) in
        omega (arith, f));
  }

  merged : SameOwners (freed idx regions) (merge_free_regions (freed idx regions))
  merged = merge_free_regions-SameOwners limit (freed idx regions) freed-IsValid

  release_pages-ok : release_pages idx h ≡ ok (released idx h)
  unfolding release_pages
  release_pages-ok = ground (arith, own, in_table, v.slots)

  pub released-Released : Released limit p size idx h (released idx h)
  released-Released = record {
    valid = merge_free_regions-IsValid limit (freed idx regions) freed-IsValid;
    to_vacant = λ a. omega (
      arith,
      merged.vacancy a,
      sum-set (vacant a) regions idx (record (region regions idx) { state = free }) blank in_table,
      freed-owners a (region regions idx) p size own.0 own.1 own.2,
    );
    from_holder = λ a. omega (
      arith,
      merged.holder a,
      sum-set (held a) regions idx (record (region regions idx) { state = free }) blank in_table,
      freed-owners a (region regions idx) p size own.0 own.1 own.2,
    );
    index = merged.index idx ∙ ap holding (get_or-set_self regions idx _ blank in_table);
    others =
        λ k ne. merged.index k ∙ ap holding (get_or-set_ne regions idx k _ blank (λ e. ne (sym e)));
    memory = refl;
  }

-- The holder of a block can release it: `release_pages` succeeds, each byte of the block passes from
-- held to free, no other byte changes hands, the index holds nothing any more, no other index is
-- touched, and neither is memory.
pub release_pages-Released :
    (limit p size idx : ℕ) (h : Heap)
    → IsValid limit h.regions
    → holding (region h.regions idx) ≡ some (p, size)
    → (h' : Heap) × (release_pages idx h ≡ ok h') × Released limit p size idx h h'
release_pages-Released limit p size idx h v owns = (
  released idx h,
  release_pages-ok limit p size idx h v owns,
  released-Released limit p size idx h v owns,
)

-- Nothing is released under an index that holds no block: past the table the panic is invalid
-- index, within it the panic is not allocated.
pub release_pages_panics :
    (idx : ℕ) (h : Heap)
    → holding (region h.regions idx) ≡ none
    → release_pages idx h
      ≡ panic (if leb max_regions idx then invalid_region_index else region_not_allocated)
unfolding release_pages
release_pages_panics idx h e = ground arith

pub release_pages-inv :
    (idx : ℕ) (h h' : Heap)
    → release_pages idx h ≡ ok h'
    → (leb max_regions idx ≡ false)
      × (is_allocated (region h.regions idx) ≡ true)
      × (released idx h ≡ h')
unfolding release_pages
release_pages-inv idx h h' e = elim (Bool-cases (leb max_regions idx)) [
  | inl past ↦ ground arith
  | inr inside ↦ elim (Bool-cases (is_allocated (region h.regions idx))) [
    | inr idle ↦ ground arith
    | inl owned ↦ (inside, owned, ok-injective (rw (inside, owned) at e))
  ]
]

-- A block is released once: after a successful `release_pages` the same call panics.
pub release_pages_twice :
    (limit idx : ℕ) (h h' : Heap)
    → IsValid limit h.regions
    → release_pages idx h ≡ ok h'
    → release_pages idx h' ≡ panic region_not_allocated
release_pages_twice limit idx h h' v e = release_pages_panics idx h' idle ∙ rw inv.0
  where
    inv :
        (leb max_regions idx ≡ false)
        × (is_allocated (region h.regions idx) ≡ true)
        × (released idx h ≡ h')
    inv = release_pages-inv idx h h' e

    idle : holding (region h'.regions idx) ≡ none
    idle =
        subst (λ g. holding (region g.regions idx) ≡ none) inv.2
          (released-Released limit (region h.regions idx).start (region h.regions idx).size idx h v
            (ground (arith, inv.1))).index

-- Allocating and releasing again gives every byte back to the owner that it had, and every index
-- the block that it held.
pub release_pages-alloc_pages :
    (limit n p idx : ℕ) (h h' : Heap)
    → IsValid limit h.regions
    → alloc_pages n h ≡ ok (p, idx, h')
    → (h'' : Heap) × (release_pages idx h' ≡ ok h'') × SameOwners h.regions h''.regions
release_pages-alloc_pages limit n p idx h h' v e = (
  released idx h',
  release_pages-ok limit p (bytes n) idx h' a.valid a.index,
  record {
    vacancy = λ x. omega (arith, a.from_vacant x, r.to_vacant x);
    holder = λ x. omega (arith, a.to_holder x, r.from_holder x);
    index = λ k. elim (Bool-cases (k == idx)) [
      | inl same ↦ rw (==→eq k idx same) (r.index ∙ sym a.was_idle)
      | inr other ↦ r.others k (ground arith) ∙ a.others k (ground arith)
    ];
  },
)
  where
    a : Allocated limit n h p idx h'
    a = alloc_pages-Allocated limit n p idx h h' v e

    r : Released limit p (bytes n) idx h' (released idx h')
    r = released-Released limit p (bytes n) idx h' a.valid a.index
