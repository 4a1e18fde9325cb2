-- ===== src/Allocator/Reach.antt =====
-- kernel/allocator.c: every state that the kernel's calls can reach after `init_regions`.
use risc_v_os.Base.{
  ℕ, ◌+◌, ◌-◌, ◌%◌, ◌^◌, ◌≤◌, ◌<◌, ◌≡◌, true, some, List, [], ◌∷◌, arith, if◌then◌else◌, length,
  All-map_const, length-map_const, sum-map_const, add-le-sum, ok, ◌≢◌, subst, Bool-cases, inl, inr,
  leb, false,
}
use risc_v_os.Memory.{Memory, in_block}
use risc_v_os.Allocator.{
  Heap, Region, region, blank, is_allocated, init_regions, alloc_pages, release_pages, max_regions,
  page_size,
}
use risc_v_os.Allocator.Ownership.{
  vacant, held, vacancies, holders, holding, Fits, IsValid, blank-Fits, allocated-lt-length,
}
use risc_v_os.Allocator.Calls.{Allocated}
use risc_v_os.Allocator.Alloc.{alloc_pages-Allocated}
use risc_v_os.Allocator.Release.{
  Released, released, release_pages-inv, released-Released, holding-allocated,
}

-- One call of the allocator, or any write to memory by the code that uses the pages.
pub data Step : Heap → Heap → Type 0 where
  allocate : (n p idx : ℕ) {h h' : Heap} → alloc_pages n h ≡ ok (p, idx, h') → Step h h'
  release : (idx : ℕ) {h h' : Heap} → release_pages idx h ≡ ok h' → Step h h'
  write : (m : Memory) {h : Heap} → Step h (record h { memory = m })

pub data Reach (h : Heap) : Heap → Type 0 where
  start : Reach h h
  next : {g g' : Heap} → Reach h g → Step g g' → Reach h g'

-- The table is well formed, and each byte from `lo` to `hi` has one owner, any other none.
pub record IsOwned (lo hi : ℕ) (h : Heap) : Type 0 where
  pub valid : IsValid hi h.regions
  pub owner :
      (a : ℕ)
      → vacancies a h.regions + holders a h.regions ≡ (if in_block lo (hi - lo) a then 1 else 0)

-- `init_regions` gives every byte of the free memory to the one free region.
pub init_regions-IsOwned :
    (lo hi : ℕ) (rs : List Region) (m : Memory)
    → lo ≤ hi
    → hi < 2 ^ 32
    → lo % page_size ≡ 0
    → hi % page_size ≡ 0
    → length rs ≡ max_regions
    → IsOwned lo hi (record { regions = init_regions lo hi rs; memory = m })
unfolding init_regions
init_regions-IsOwned lo hi [] m le room al ah slots = absurd (omega arith)
init_regions-IsOwned lo hi (r ∷ rs) m le room al ah slots = record {
  valid = record {
    slots = omega (arith, length-map_const rs blank);
    room = room;
    fits = (omega arith, All-map_const (Fits hi) rs blank (blank-Fits hi));
  };
  owner = λ a. ground (
    arith,
    sum-map_const (vacant a) rs blank (ground arith),
    sum-map_const (held a) rs blank (ground arith),
  );
}

pub Step-IsOwned : (lo hi : ℕ) {h h' : Heap} → Step h h' → IsOwned lo hi h → IsOwned lo hi h'
Step-IsOwned lo hi {h} {h'} (allocate n p idx e) v =
    let a : Allocated hi n h p idx h' = alloc_pages-Allocated hi n p idx h h' v.valid e in
    record {
      valid = a.valid;
      owner = λ x. omega (arith, a.from_vacant x, a.to_holder x, v.owner x);
    }
Step-IsOwned lo hi {h} {h'} (release idx e) v = subst (IsOwned lo hi) inv.2 (record {
  valid = r.valid;
  owner = λ x. omega (arith, r.to_vacant x, r.from_holder x, v.owner x);
})
  where
    inv :
        (leb max_regions idx ≡ false)
        × (is_allocated (region h.regions idx) ≡ true)
        × (released idx h ≡ h')
    inv = release_pages-inv idx h h' e

    r : Released hi (region h.regions idx).start (region h.regions idx).size idx h (released idx h)
    r =
        released-Released hi (region h.regions idx).start (region h.regions idx).size idx h v.valid
          (ground (arith, inv.1))
Step-IsOwned lo hi (write m) v = record { valid = v.valid; owner = v.owner }

Reach-IsOwned : (lo hi : ℕ) {h h' : Heap} → IsOwned lo hi h → Reach h h' → IsOwned lo hi h'
Reach-IsOwned lo hi v start = v
Reach-IsOwned lo hi v (next r s) = Step-IsOwned lo hi s (Reach-IsOwned lo hi v r)

-- Whatever calls of `alloc_pages` and `release_pages` succeed after `init_regions`, in any order, and
-- whatever is written to memory: the table stays well formed, every byte of the free memory has
-- exactly one owner, free or allocated, and no byte outside has any.
pub reachable-IsOwned :
    (lo hi : ℕ) (rs : List Region) (m : Memory) (h : Heap)
    → lo ≤ hi
    → hi < 2 ^ 32
    → lo % page_size ≡ 0
    → hi % page_size ≡ 0
    → length rs ≡ max_regions
    → Reach (record { regions = init_regions lo hi rs; memory = m }) h
    → IsOwned lo hi h
reachable-IsOwned lo hi rs m h le room al ah slots r =
    Reach-IsOwned lo hi (init_regions-IsOwned lo hi rs m le room al ah slots) r

held-covers :
    (a : ℕ) (r : Region) (p size : ℕ)
    → holding r ≡ some (p, size)
    → in_block p size a ≡ true
    → held a r ≡ 1
held-covers a r p size e k = ground arith

-- In such a state two blocks held under different indices share no byte.
pub blocks_disjoint :
    (lo hi a i j p q size size' : ℕ) (h : Heap)
    → IsOwned lo hi h
    → i ≢ j
    → holding (region h.regions i) ≡ some (p, size)
    → holding (region h.regions j) ≡ some (q, size')
    → in_block p size a ≡ true
    → in_block q size' a ≡ false
blocks_disjoint lo hi a i j p q size size' h v ne hi_i hi_j mine =
    elim (Bool-cases (in_block q size' a)) [
      | inr apart ↦ apart
      | inl both ↦ absurd (
          ground (
            arith,
            v.owner a,
            held-covers a (region h.regions i) p size hi_i mine,
            held-covers a (region h.regions j) q size' hi_j both,
            add-le-sum (held a) h.regions i j blank ne
                (allocated-lt-length h.regions i (holding-allocated _ p size hi_i).0)
                (allocated-lt-length h.regions j (holding-allocated _ q size' hi_j).0),
          ))
    ]
