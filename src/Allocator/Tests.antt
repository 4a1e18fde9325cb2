-- ===== src/Allocator/Tests.antt =====
-- kernel/allocator.c on the memory that linker/kernel.ld lays out, in small: runs and instances.
use risc_v_os.Base.{
  ℕ, ◌+◌, ◌≡◌, refl, List, arith, ok, panic, replicate, out_of_memory, find_index, count_up,
}
use risc_v_os.Allocator.{
  Heap, Region, region, blank, free, max_regions, init_regions, find_unused_region_slot,
  find_suitable_free_region, carve, alloc_region, alloc_pages, region_to_addr, release_pages,
  merge_free_regions, merge_into, merge_pair,
}
use risc_v_os.Allocator.Ownership.{IsValid}
use risc_v_os.Allocator.Merge.{SameOwners, merge_free_regions-SameOwners}
use risc_v_os.Allocator.Calls.{Allocated, after}
use risc_v_os.Allocator.Alloc.{alloc_pages-Allocated}
use risc_v_os.Allocator.Release.{
  Released, release_pages-Released, release_pages-alloc_pages, released,
}
use risc_v_os.Allocator.Reach.{
  Reach, start, next, allocate, IsOwned, init_regions-IsOwned, reachable-IsOwned,
}

-- Four pages of free memory.
abbrev lo : ℕ
lo = 0x8040_0000

abbrev hi : ℕ
hi = 0x8040_4000

abbrev zeros : List Region
zeros = replicate max_regions blank

abbrev booted : Heap
booted = record { regions = init_regions lo hi zeros; memory = λ a. 7 }

-- After one page, and after a second.
abbrev one : Heap
one = after 1 booted 0 1

abbrev two : Heap
two = after 1 one 0 2

alloc_one : alloc_pages 1 booted ≡ ok (lo, 1, one)
unfolding alloc_pages alloc_region region_to_addr find_suitable_free_region find_unused_region_slot
    find_index init_regions carve
alloc_one = refl

alloc_two : alloc_pages 1 one ≡ ok (lo + 4096, 2, two)
unfolding alloc_pages alloc_region region_to_addr find_suitable_free_region find_unused_region_slot
    find_index init_regions carve
alloc_two = refl

-- Five pages are not there.
alloc_too_many : alloc_pages 5 booted ≡ panic out_of_memory
unfolding alloc_pages alloc_region region_to_addr find_suitable_free_region find_unused_region_slot
    find_index init_regions carve
alloc_too_many = refl

booted-IsOwned : IsOwned lo hi booted
booted-IsOwned =
    init_regions-IsOwned lo hi zeros (λ a. 7) (omega arith) (omega arith) (omega arith)
      (omega arith) refl

alloc_pages-Allocated_example : Allocated hi 1 booted lo 1 one
alloc_pages-Allocated_example =
    alloc_pages-Allocated hi 1 lo 1 booted one booted-IsOwned.valid alloc_one

one-IsValid : IsValid hi one.regions
one-IsValid = alloc_pages-Allocated_example.valid

release_pages-Released_example :
    (h' : Heap) × (release_pages 1 one ≡ ok h') × Released hi lo 4096 1 one h'
release_pages-Released_example =
    release_pages-Released hi lo 4096 1 one one-IsValid alloc_pages-Allocated_example.index

release_one : release_pages 1 one ≡ ok (released 1 one)
unfolding release_pages carve init_regions
release_one = refl

-- The page merges back into the region that it came from only through the loop from index 1: the
-- allocated block lies in front of the rest.
merged_back :
    (region (released 1 one).regions 1 ≡ record { start = lo; size = 0x4000; state = free })
    × (region (released 1 one).regions 0 ≡ blank)
unfolding merge_free_regions merge_into merge_pair count_up carve init_regions
merged_back = (refl, refl)

release_pages-alloc_pages_example :
    (h'' : Heap) × (release_pages 1 one ≡ ok h'') × SameOwners booted.regions h''.regions
release_pages-alloc_pages_example =
    release_pages-alloc_pages hi 1 lo 1 booted one booted-IsOwned.valid alloc_one

merge_free_regions-SameOwners_example : SameOwners one.regions (merge_free_regions one.regions)
merge_free_regions-SameOwners_example = merge_free_regions-SameOwners hi one.regions one-IsValid

two-reached : Reach booted two
two-reached = next (next start (allocate 1 lo 1 alloc_one)) (allocate 1 (lo + 4096) 2 alloc_two)

reachable-IsOwned_example : IsOwned lo hi two
reachable-IsOwned_example =
    reachable-IsOwned lo hi zeros (λ a. 7) two (omega arith) (omega arith) (omega arith)
      (omega arith) refl two-reached
