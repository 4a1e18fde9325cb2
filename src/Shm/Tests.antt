-- ===== src/Shm/Tests.antt =====
-- kernel/shm.c: instances on one object, in a process whose table is the first of four pages.
use risc_v_os.Base.{
  ℕ, ◌+◌, ◌≡◌, ◌⊎◌, refl, true, none, ◌∷◌, arith, ok, panic, Panic, replicate, find_index, set,
}
use risc_v_os.Allocator.{
  Heap, blank, max_regions, page_size, init_regions, find_unused_region_slot,
  find_suitable_free_region, carve, alloc_region, alloc_pages, region_to_addr,
}
use risc_v_os.Allocator.Calls.{after}
use risc_v_os.Allocator.Reach.{IsOwned, init_regions-IsOwned}
use risc_v_os.Paging.{Process}
use risc_v_os.Paging.Root.{IsRooted}
use risc_v_os.Paging.Mapping.{translate}
use risc_v_os.Paging.Fresh.{alloc_pages-IsRooted}
use risc_v_os.Shm.{
  Pool, object, no_object, no_mapping, find_by_id, find_by_key, shm_init, shm_get, get_found,
  make_in, make_object, shm_attach, shm_detach,
}
use risc_v_os.Shm.Keys.{shm_get_again}
use risc_v_os.Shm.Attach.{Attached, shm_attach_lem, shm_detach_lem}

abbrev lo : ℕ
lo = 0x8040_0000

abbrev hi : ℕ
hi = 0x8040_4000

abbrev booted : Heap
booted = record { regions = init_regions lo hi (replicate max_regions blank); memory = λ a. 7 }

abbrev one : Heap
one = after 1 booted 0 1

alloc_root : alloc_pages 1 booted ≡ ok (lo, 1, one)
unfolding alloc_pages alloc_region region_to_addr find_suitable_free_region find_unused_region_slot
    find_index init_regions carve
alloc_root = refl

booted-IsOwned : IsOwned lo hi booted
booted-IsOwned =
    init_regions-IsOwned lo hi (replicate max_regions blank) (λ a. 7) (omega arith) (omega arith)
      (omega arith) (omega arith) refl

one-IsRooted : IsRooted lo hi lo one
one-IsRooted = (alloc_pages-IsRooted lo hi lo 1 booted one booted-IsOwned alloc_root 0).0

-- The pool before and after the first object is made.
abbrev empty : Pool
empty = record { shm = shm_init; heap = booted }

abbrev pool : ℕ → Heap → Pool
pool refcount h = record {
  shm = record {
    shm_table =
        record {
          used = true;
          id = 1;
          key = 100;
          pa = lo;
          region_idx = 1;
          size = page_size;
          refcount = refcount;
        }
        ∷ replicate 7 no_object;
    next_shm_id = 2;
  };
  heap = h;
}

made : shm_get 100 empty ≡ ok (1, pool 0 one)
unfolding shm_get get_found make_in make_object find_by_key shm_init alloc_pages alloc_region
    region_to_addr find_suitable_free_region find_unused_region_slot find_index init_regions carve
made = refl

shm_get_again_example : shm_get 100 (pool 0 one) ≡ ok (1, pool 0 one)
shm_get_again_example = shm_get_again 100 1 empty (pool 0 one) made (omega arith)

-- The process that has attached the object in its first slot.
abbrev proc : Process
proc = record {
  pid = 1;
  state = 1;
  sp = 0;
  page_table = lo;
  regions = replicate 64 0;
  current_idx = 1;
  shm_mappings = record { used = true; shm_id = 1; vaddr = 0x0170_0000 } ∷ replicate 3 no_mapping;
}

shm_attach_lem_example :
    ((proc' : Process) × (t : Pool) × (shm_attach 1 proc (pool 1 one) ≡ ok (0x0170_1000, proc', t))
      × Attached lo hi 1 0 1 (pool 1 one) proc proc' t)
    ⊎ ((why : Panic) × (shm_attach 1 proc (pool 1 one) ≡ panic why)
        × (alloc_pages 1 one ≡ panic why))
unfolding find_by_id find_index
shm_attach_lem_example =
    shm_attach_lem lo hi 1 0 1 proc (pool 1 one) one-IsRooted refl refl (omega arith) (omega arith)

shm_detach_lem_example :
    (t : Pool) × (shm_detach 0x0170_0000 proc (pool 2 one)
      ≡ ok (0, record proc { shm_mappings = set proc.shm_mappings 0 no_mapping }, t))
    × IsRooted lo hi lo t.heap
    × (translate lo t.heap.memory 0x0170_0000 ≡ none)
    × ((object t.shm.shm_table 0).refcount + 1 ≡ 2)
    × (t.shm ≡ (pool 1 one).shm)
    × (t.heap.regions ≡ one.regions)
unfolding find_by_id find_index
shm_detach_lem_example =
    shm_detach_lem lo hi 0x0170_0000 0 0 proc (pool 2 one) one-IsRooted refl (omega arith) refl
      (omega arith) (omega arith)
