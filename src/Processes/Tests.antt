-- ===== src/Processes/Tests.antt =====
-- kernel/process.c: instances on a kernel of one page and an image of three bytes, in sixteen pages.
use risc_v_os.Base.{
  ℕ, ◌+◌, ◌≡◌, ◌<◌, ◌≤◌, ◌⊎◌, refl, arith, ok, replicate, ◌∷◌, suc, zero, inl, find_index, ap,
  ok-injective, List, [], set,
}
use risc_v_os.Allocator.{
  Heap, blank, max_regions, init_regions, alloc_pages, alloc_region, region_to_addr,
  find_suitable_free_region, find_unused_region_slot, carve,
}
use risc_v_os.Allocator.Calls.{after}
use risc_v_os.Allocator.Reach.{IsOwned, Step-IsOwned, allocate, init_regions-IsOwned}
use risc_v_os.Paging.{Process}
use risc_v_os.Shm.{shm_init}
use risc_v_os.Processes.{
  Layout, Kernel, no_process, proc_at, create_process, procs_max, yield, release_exited, next_proc,
  next_from,
}
use risc_v_os.Processes.Create.{IsLaid}
use risc_v_os.Processes.Made.{Created}
use risc_v_os.Processes.Outcome.{Refused, create_process_lem, create_process_isolates}
use risc_v_os.Paging.Mapping.{translate}
use risc_v_os.Paging.Tree.{IsTree}
use risc_v_os.Paging.Apart.{IsApart}
use risc_v_os.Paging.Fresh.{alloc_pages-IsTree}
use risc_v_os.Processes.Release.{
  AreHeld, nothing, also, recorded_by, vacated, GivenBack, yield_exited,
}
use risc_v_os.Processes.Schedule.{NextInTurn, yield-NextInTurn, yield_fair, IsRun, IsNumbered}

abbrev lo : ℕ
lo = 0x8040_0000

abbrev hi : ℕ
hi = 0x8041_0000

abbrev layout : Layout
layout = record {
  kernel_base = 0x8020_0000;
  free_ram_end = 0x8020_1000;
  user_entry = 0x8020_0100;
  stack_top = λ i. 0x8030_0000;
}

abbrev image : ℕ
image = 0x8020_0800

layout-IsLaid : IsLaid lo image 3 layout
layout-IsLaid = record {
  whole = (omega arith, omega arith);
  above_devices = omega arith;
  ordered = omega arith;
  ram = omega arith;
  entry_word = omega arith;
  image_small = omega arith;
  image_below = omega arith;
  stacks = λ i. (omega arith, omega arith);
  stacks_apart = λ i. inl (omega arith);
}

abbrev booted : Heap
booted = record { regions = init_regions lo hi (replicate max_regions blank); memory = λ a. 7 }

booted-IsOwned : IsOwned lo hi booted
booted-IsOwned =
    init_regions-IsOwned lo hi (replicate max_regions blank) (λ a. 7) (omega arith) (omega arith)
      (omega arith) (omega arith) refl

abbrev idle : Process
idle = record no_process { state = 1 }

abbrev kernel : Kernel
kernel = record {
  procs = idle ∷ replicate 7 no_process;
  current_proc = 0;
  idle_proc = 0;
  pool = record { shm = shm_init; heap = booted };
}

create_process_lem_example :
    ((i : ℕ) × (k' : Kernel) × (create_process layout image 3 kernel ≡ ok (i, k'))
      × Created lo hi image 3 i layout kernel k'
      × ((proc_at k'.procs i).current_idx ≤ 64))
    ⊎ Refused lo hi image 3 layout kernel layout-IsLaid booted-IsOwned
create_process_lem_example =
    create_process_lem lo hi image 3 layout kernel layout-IsLaid booted-IsOwned (omega arith)

-- Two processes beside the idle one.
abbrev user : ℕ → Process
user i = record no_process { state = 1; pid = i + 1 }

abbrev busy : Kernel
busy = record kernel {
  procs = idle ∷ user 1 ∷ no_process ∷ user 3 ∷ replicate 4 no_process;
  current_proc = 3;
}

yield-NextInTurn_example :
    (r : ℕ) × (yield busy ≡ ok (record busy { current_proc = r })) × NextInTurn 4 busy.procs 0 r
yield-NextInTurn_example = yield-NextInTurn busy (omega arith)

-- The first page is the table of another process.
abbrev one : Heap
one = after 1 booted 0 1

alloc_root : alloc_pages 1 booted ≡ ok (lo, 1, one)
unfolding alloc_pages alloc_region region_to_addr find_suitable_free_region find_unused_region_slot
    find_index init_regions carve
alloc_root = refl

one-IsOwned : IsOwned lo hi one
one-IsOwned = Step-IsOwned lo hi (allocate 1 lo 1 alloc_root) booted-IsOwned

abbrev second_kernel : Kernel
second_kernel = record kernel { pool = record { shm = shm_init; heap = one } }

create_process_isolates_example :
    ((i : ℕ) × (k' : Kernel) × (create_process layout image 3 second_kernel ≡ ok (i, k'))
      × IsTree lo hi lo k'.pool.heap
      × ((v : ℕ) → translate lo k'.pool.heap.memory v ≡ translate lo one.memory v)
      × IsApart (proc_at k'.procs i).page_table lo k'.pool.heap)
    ⊎ Refused lo hi image 3 layout second_kernel layout-IsLaid one-IsOwned
create_process_isolates_example =
    create_process_isolates lo hi image 3 layout second_kernel layout-IsLaid one-IsOwned lo
      (alloc_pages-IsTree lo hi lo 1 booted one booted-IsOwned alloc_root)

-- One process alone, which each `yield` runs again.
abbrev lonely : Kernel
lonely = record kernel { procs = idle ∷ user 1 ∷ replicate 6 no_process; current_proc = 1 }

lonely-IsNumbered : IsNumbered lonely.procs
lonely-IsNumbered zero lt e = absurd cc
lonely-IsNumbered (suc zero) lt e = refl
lonely-IsNumbered (suc (suc zero)) lt e = absurd cc
lonely-IsNumbered (suc (suc (suc zero))) lt e = absurd cc
lonely-IsNumbered (suc (suc (suc (suc zero)))) lt e = absurd cc
lonely-IsNumbered (suc (suc (suc (suc (suc zero))))) lt e = absurd cc
lonely-IsNumbered (suc (suc (suc (suc (suc (suc zero)))))) lt e = absurd cc
lonely-IsNumbered (suc (suc (suc (suc (suc (suc (suc zero))))))) lt e = absurd cc
lonely-IsNumbered (suc (suc (suc (suc (suc (suc (suc (suc j)))))))) lt e = absurd (omega arith)

lonely-IsRun : IsRun (λ _. lonely) 1
unfolding yield release_exited next_proc next_from
lonely-IsRun = record {
  numbered = λ _. lonely-IsNumbered;
  live = λ _. omega arith;
  ready = λ _. refl;
  follows = λ _ g e. ap (λ (k : Kernel). k.current_proc) (ok-injective e);
  same_pid = λ _. refl;
}

yield_fair_example : (m : ℕ) × (m < procs_max) × (lonely.current_proc ≡ 1)
yield_fair_example = yield_fair (λ _. lonely) 1 (omega arith) lonely-IsRun 0

-- A process that has exited, with the one page of `one` among its regions.
abbrev ended : Process
ended = record (user 1) { state = 2; regions = 1 ∷ replicate 63 0; current_idx = 1 }

abbrev ending : Kernel
ending = record second_kernel { procs = idle ∷ ended ∷ replicate 6 no_process; current_proc = 1 }

ended-AreHeld : AreHeld one (recorded_by ended)
unfolding init_regions carve
ended-AreHeld = also refl tt nothing

yield_exited_example :
    (q : List ℕ) × (g : Heap) × (r : ℕ) × (yield ending
      ≡ ok (record ending {
        procs = set ending.procs 1 (vacated q ended);
        current_proc = r;
        pool = record ending.pool { heap = g };
      }))
    × NextInTurn 0 (set ending.procs 1 (vacated q ended)) 0 r
    × GivenBack hi (1 ∷ []) one g
yield_exited_example =
    yield_exited hi ending refl (omega arith) (refl, (refl, (refl, (refl, tt)))) one-IsOwned.valid
      ((λ e. omega arith), tt) ended-AreHeld
