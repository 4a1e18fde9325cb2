-- ===== src/Paging/Tests.antt =====
-- kernel/process.c: instances on a table in the first of four pages.
use risc_v_os.Base.{
  ℕ, ◌+◌, ◌≡◌, [], ◌⊎◌, refl, arith, ok, panic, Panic, replicate, find_index, Result, true, false,
  sym, ap, ◌∙◌,
}
use risc_v_os.Allocator.{
  Heap, blank, max_regions, init_regions, find_unused_region_slot, find_suitable_free_region, carve,
  alloc_region, alloc_pages, region_to_addr,
}
use risc_v_os.Allocator.Calls.{after}
use risc_v_os.Allocator.Reach.{IsOwned, init_regions-IsOwned}
use risc_v_os.Paging.{Process, is_invalid, map_page, ensure_table, make_table, load32}
use risc_v_os.Memory.{memset}
use risc_v_os.Paging.Root.{IsRooted}
use risc_v_os.Paging.Mapping.{translate, Mapped, map_page_lem}
use risc_v_os.Paging.Fresh.{entry_zero, alloc_pages-IsRooted, alloc_pages-IsTree}
use risc_v_os.Paging.Tree.{IsTree}
use risc_v_os.Paging.Keeps.{Keeps, fresh-Keeps, fresh-IsData}
use risc_v_os.Paging.Extend.{OtherPage, AnyAddress, map_page-Keeps}
use risc_v_os.Paging.Apart.{IsApart, map_page-isolated}

abbrev result_or {ℓ} : {A : Type ℓ} → A → Result A → A
result_or a (ok b) = b
result_or a (panic _) = a

abbrev lo : ℕ
lo = 0x8040_0000

abbrev hi : ℕ
hi = 0x8040_4000

abbrev booted : Heap
booted = record { regions = init_regions lo hi (replicate max_regions blank); memory = λ a. 7 }

abbrev one : Heap
one = after 1 booted 0 1

alloc_root : alloc_pages 1 booted ≡ ok (lo, 1, one)
unfolding alloc_pages alloc_region region_to_addr find_suitable_free_region find_unused_region_slot
    find_index init_regions carve
alloc_root = refl

booted-IsOwned : IsOwned lo hi booted
booted-IsOwned =
    init_regions-IsOwned lo hi (replicate max_regions blank) (λ a. 7) (omega arith) (omega arith)
      (omega arith) (omega arith) refl

one-IsRooted : IsRooted lo hi lo one
one-IsRooted = (alloc_pages-IsRooted lo hi lo 1 booted one booted-IsOwned alloc_root 0).0

abbrev proc : Process
proc = record {
  pid = 1;
  state = 1;
  sp = 0;
  page_table = lo;
  regions = replicate 64 0;
  current_idx = 1;
  shm_mappings = [];
}

map_page_lem_example :
    ((proc' : Process) × (h' : Heap) × (map_page 0x0100_0000 (lo + 0x3000) 0x16 proc one
        ≡ ok (proc', h'))
      × Mapped lo hi 0x0100_0000 (lo + 0x3000) 0x16 proc proc' h')
    ⊎ ((why : Panic) × (map_page 0x0100_0000 (lo + 0x3000) 0x16 proc one ≡ panic why)
        × (alloc_pages 1 one ≡ panic why))
map_page_lem_example =
    map_page_lem lo hi 0x0100_0000 (lo + 0x3000) 0x16 proc one one-IsRooted (omega arith)
      (omega arith) (omega arith) (omega arith) (omega arith)

one-IsTree : IsTree lo hi lo one
one-IsTree = alloc_pages-IsTree lo hi lo 1 booted one booted-IsOwned alloc_root

abbrev mapped_one : Process × Heap
mapped_one = result_or (proc, one) (map_page 0x0100_0000 (lo + 0x3000) 0x16 proc one)

maps : map_page 0x0100_0000 (lo + 0x3000) 0x16 proc one ≡ ok (mapped_one.0, mapped_one.1)
unfolding map_page ensure_table make_table load32 memset alloc_pages alloc_region region_to_addr
    find_suitable_free_region find_unused_region_slot find_index init_regions carve
maps = refl

map_page-Keeps_example : Keeps lo hi lo (OtherPage 0x0100_0000) one mapped_one.1
map_page-Keeps_example =
    map_page-Keeps lo hi 0x0100_0000 (lo + 0x3000) 0x16 proc mapped_one.0 one mapped_one.1
      one-IsTree (omega arith) (omega arith) maps

-- The second page is the table of another process.
abbrev two : Heap
two = after 1 one 0 2

alloc_other : alloc_pages 1 one ≡ ok (lo + 0x1000, 2, two)
unfolding alloc_pages alloc_region region_to_addr find_suitable_free_region find_unused_region_slot
    find_index init_regions carve
alloc_other = refl

two-Keeps : Keeps lo hi lo AnyAddress one two
two-Keeps =
    fresh-Keeps lo hi lo (lo + 0x1000) 2 one two two.memory one-IsTree alloc_other (λ _ _. refl)

two-IsApart : IsApart lo (lo + 0x1000) two
two-IsApart = record {
  first_level =
      fresh-IsData lo hi lo (lo + 0x1000) 2 one two two.memory one-IsTree alloc_other (λ _ _. refl);
  second_level = λ i lt used.
      let bad : true ≡ false =
        sym (
          ap is_invalid
            (entry_zero lo hi (lo + 0x1000) 2 one two one-IsTree.rooted.owned alloc_other i lt))
        ∙ used in
      absurd cc;
}

abbrev mapped_two : Process × Heap
mapped_two = result_or (proc, two) (map_page 0x0100_0000 (lo + 0x3000) 0x16 proc two)

maps_two : map_page 0x0100_0000 (lo + 0x3000) 0x16 proc two ≡ ok (mapped_two.0, mapped_two.1)
unfolding map_page ensure_table make_table load32 memset alloc_pages alloc_region region_to_addr
    find_suitable_free_region find_unused_region_slot find_index init_regions carve
maps_two = refl

map_page-isolated_example :
    ((v : ℕ) → translate (lo + 0x1000) mapped_two.1.memory v ≡ translate (lo + 0x1000) two.memory v)
    × IsTree lo hi (lo + 0x1000) mapped_two.1
    × IsApart lo (lo + 0x1000) mapped_two.1
    × IsApart (lo + 0x1000) lo mapped_two.1
map_page-isolated_example =
    map_page-isolated lo hi 0x0100_0000 (lo + 0x3000) 0x16 (lo + 0x1000) proc mapped_two.0 two
      mapped_two.1 two-Keeps.tree
      (alloc_pages-IsTree lo hi (lo + 0x1000) 2 one two one-IsTree.rooted.owned alloc_other)
      two-IsApart (omega arith) (omega arith) maps_two
