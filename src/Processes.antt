-- ===== src/Processes.antt =====
-- kernel/process.c: the table of processes, their creation, their end, and the scheduler.
pub mod Range
pub mod Image
pub mod Stack
pub mod Create
pub mod Steps
pub mod Made
pub mod Others
pub mod Failure
pub mod Outcome
pub mod Schedule
pub mod Release
pub mod Count
pub mod Fit
mod Tests
use risc_v_os.Base.{
  ℕ, suc, zero, ◌+◌, ◌-◌, ◌/◌, ◌%◌, Bool, ◌&&◌, Option, none, some, List, [], ◌∷◌, ◌++◌, map, ◌==◌,
  ltb, leb, if◌then◌else◌, get_or, set, replicate, find_index, count_up, Result, ok, panic,
  no_free_process_slots, ◌>>=◌,
}
use risc_v_os.Base.Word.{add32, sub32}
use risc_v_os.Memory.{Memory, memset, memcpy}
use risc_v_os.Allocator.{Heap, alloc_pages, release_pages, page_size}
use risc_v_os.Paging.{Process, store32, keep_region, map_page}
use risc_v_os.Shm.{Pool, no_mapping, shm_process_cleanup}

abbrev pub procs_max : ℕ
procs_max = 8

abbrev pub proc_region_max : ℕ
proc_region_max = 64

abbrev pub proc_shm_max : ℕ
proc_shm_max = 4

abbrev pub proc_unused : ℕ
proc_unused = 0

abbrev pub proc_runnable : ℕ
proc_runnable = 1

abbrev pub proc_exited : ℕ
proc_exited = 2

abbrev pub user_base : ℕ
user_base = 0x100_0000

-- `PAGE_R | PAGE_W | PAGE_X`
abbrev pub kernel_flags : ℕ
kernel_flags = 0xe

-- `PAGE_R | PAGE_W`
abbrev pub device_flags : ℕ
device_flags = 0x6

-- `PAGE_U | PAGE_R | PAGE_W | PAGE_X`
abbrev pub user_flags : ℕ
user_flags = 0x1e

abbrev pub virtio_blk_paddr : ℕ
virtio_blk_paddr = 0x1000_1000

abbrev pub virtio_net_paddr : ℕ
virtio_net_paddr = 0x1000_2000

abbrev pub plic_base : ℕ
plic_base = 0x0c00_0000

-- What the linker lays out: the memory that the kernel maps for itself, the entry of user mode, and
-- the end of the kernel stack in each slot of `procs`.
pub record Layout : Type 0 where
  pub kernel_base : ℕ
  pub free_ram_end : ℕ
  pub user_entry : ℕ
  pub stack_top : ℕ → ℕ

-- `procs`, the two pointers into it as indices, and what the processes share.
pub record Kernel : Type 0 where
  pub procs : List Process
  pub current_proc : ℕ
  pub idle_proc : ℕ
  pub pool : Pool

abbrev pub no_process : Process
no_process = record {
  pid = 0;
  state = proc_unused;
  sp = 0;
  page_table = 0;
  regions = replicate proc_region_max 0;
  current_idx = 0;
  shm_mappings = replicate proc_shm_max no_mapping;
}

abbrev pub proc_at : List Process → ℕ → Process
proc_at ps i = get_or ps i no_process

-- The loop over `regions` runs to MAX_REGIONS, 128, past the 64 entries of the array: its zeros
-- fall on `current_idx`, on the twelve words of `shm_mappings` and on the first 51 words of `stack`.
abbrev pub cleared : Process → Process
cleared proc = record proc {
  regions = replicate proc_region_max 0;
  current_idx = 0;
  shm_mappings = replicate proc_shm_max no_mapping;
}

abbrev pub stack_size : ℕ
stack_size = 8192

abbrev pub clear_past_regions : Layout → ℕ → Memory → Memory
clear_past_regions ly i m = memset m (ly.stack_top i - stack_size) 0 204

-- `*--sp = w;` for each word.
unfoldable pub push_words : List ℕ → ℕ → Memory → ℕ × Memory
push_words [] sp m = (sp, m)
push_words (w ∷ ws) sp m = push_words ws (sp - 4) (store32 m (sp - 4) w)

-- s11 to s0, and the return address.
abbrev pub switch_frame : ℕ → List ℕ
switch_frame user_entry = replicate 12 0 ++ (user_entry ∷ [])

unfoldable pub initial_stack : Layout → ℕ → Memory → ℕ × Memory
initial_stack ly i m =
    push_words (switch_frame ly.user_entry) (ly.stack_top i) (clear_past_regions ly i m)

-- The rounds of `for (off = 0; off < size; off += PAGE_SIZE)`.
abbrev pub pages : ℕ → ℕ
pages size = (size + (page_size - 1)) / page_size

-- The kernel's own memory from `paddr` on, at its own addresses.
unfoldable pub map_kernel : ℕ → ℕ → Process → Heap → Result (Process × Heap)
map_kernel zero paddr proc h = ok (proc, h)
map_kernel (suc rounds) paddr proc h = do
  (p, g) ← map_page paddr paddr kernel_flags proc h
  map_kernel rounds (add32 paddr page_size) p g

unfoldable pub map_devices : List ℕ → Process → Heap → Result (Process × Heap)
map_devices [] proc h = ok (proc, h)
map_devices (paddr ∷ rest) proc h = do
  (p, g) ← map_page paddr paddr device_flags proc h
  map_devices rest p g

-- The calls that follow the loop, in their order.
abbrev pub devices : List ℕ
devices =
    virtio_blk_paddr
    ∷ virtio_net_paddr
    ∷ plic_base
    ∷ (plic_base + 0x2000)
    ∷ (plic_base + 0x20_1000)
    ∷ []

abbrev pub copy_size : ℕ → ℕ → ℕ
copy_size image_size off = if leb page_size (image_size - off) then page_size else image_size - off

-- One page of the image, at offset `off`.
unfoldable pub load_page : ℕ → ℕ → ℕ → Process → Heap → Result (Process × Heap)
load_page image image_size off proc h = do
  (page, page_region, g) ← alloc_pages 1 h
  map_page (add32 user_base off) page user_flags (keep_region page_region proc)
      (record g { memory = memcpy g.memory page (image + off) (copy_size image_size off) })

unfoldable pub load_image : ℕ → ℕ → ℕ → ℕ → Process → Heap → Result (Process × Heap)
load_image zero off image image_size proc h = ok (proc, h)
load_image (suc rounds) off image image_size proc h = do
  (p, g) ← load_page image image_size off proc h
  load_image rounds (add32 off page_size) image image_size p g

-- The address space of a process whose table is the empty page at hand.
unfoldable pub build_space : Layout → ℕ → ℕ → Process → Heap → Result (Process × Heap)
build_space ly image image_size proc h = do
  (p1, h1) ← map_kernel (pages (ly.free_ram_end - ly.kernel_base)) ly.kernel_base proc h
  (p2, h2) ← map_devices devices p1 h1
  load_image (pages image_size) 0 image image_size p2 h2

-- `create_process` in slot `i`.
unfoldable pub create_in : Layout → ℕ → ℕ → ℕ → Kernel → Result (ℕ × Kernel)
create_in ly image image_size i k = do
  let stack = initial_stack ly i k.pool.heap.memory
  (page_table, region, h) ← alloc_pages 1 (record k.pool.heap { memory = stack.1 })
  (proc, g) ←
      build_space ly image image_size
        (keep_region region (record (cleared (proc_at k.procs i)) { page_table = page_table })) h
  ok (
    i,
    record k {
      procs = set k.procs i (record proc { pid = i + 1; state = proc_runnable; sp = stack.0 });
      pool = record k.pool { heap = g };
    },
  )

unfoldable pub create_found : Layout → ℕ → ℕ → Option ℕ → Kernel → Result (ℕ × Kernel)
create_found ly image image_size none k = panic no_free_process_slots
create_found ly image image_size (some i) k = create_in ly image image_size i k

abbrev pub is_unused : Process → Bool
is_unused proc = proc.state == proc_unused

-- The new process is given by its index.
unfoldable pub create_process : Layout → ℕ → ℕ → Kernel → Result (ℕ × Kernel)
create_process ly image image_size k =
    create_found ly image image_size (find_index is_unused k.procs) k

unfoldable pub init_processes : Layout → Kernel → Result Kernel
init_processes ly k = do
  let emptied = record k {
    procs =
        map (λ (p : Process). record (cleared p) { pid = 0; state = proc_unused; sp = 0 }) k.procs;
    pool = record k.pool {
      heap = record k.pool.heap {
        memory = count_up (clear_past_regions ly) 0 procs_max k.pool.heap.memory;
      };
    };
  }
  (i, made) ← create_process ly 0 0 emptied
  ok (record made {
    procs = set made.procs i (record (proc_at made.procs i) { pid = 0 });
    current_proc = i;
    idle_proc = i;
  })

-- The loop over the regions of a process, from `i` on.
unfoldable pub release_regions : ℕ → ℕ → Process → Heap → Result (Process × Heap)
release_regions zero i proc h = ok (proc, h)
release_regions (suc rounds) i proc h =
    let skip = release_regions rounds (i + 1) proc h in
    let release = do
      g ← release_pages (get_or proc.regions i 0) h
      release_regions rounds (i + 1) (record proc { regions = set proc.regions i 0 }) g
    in if get_or proc.regions i 0 == 0 then skip else release

unfoldable pub release_process : Process → Pool → Result (Process × Pool)
release_process proc s = do
  (p, t) ← shm_process_cleanup proc s
  (q, h) ← release_regions p.current_idx 0 p t.heap
  ok (
    record q {
      pid = 0;
      state = proc_unused;
      sp = 0;
      page_table = 0;
      current_idx = 0;
      shm_mappings = replicate proc_shm_max no_mapping;
    },
    record t { heap = h },
  )

-- `proc->state == PROC_RUNNABLE && proc->pid > 0`
abbrev pub can_run : Process → Bool
can_run proc = proc.state == proc_runnable && ltb 0 proc.pid

-- The loop of `yield` from round `i` on.
unfoldable pub next_from : ℕ → ℕ → ℕ → List Process → Option ℕ
next_from zero i start ps = none
next_from (suc rounds) i start ps =
    let rest = next_from rounds (i + 1) start ps in
    let at = (start + i) % procs_max in if can_run (proc_at ps at) then some at else rest

abbrev pub or_idle : ℕ → Option ℕ → ℕ
or_idle idle none = idle
or_idle idle (some i) = i

unfoldable pub next_proc : Kernel → ℕ
next_proc k =
    or_idle k.idle_proc (next_from procs_max 0 (proc_at k.procs k.current_proc).pid k.procs)

-- A process that has exited is released on its last call of `yield`.
unfoldable pub release_exited : Kernel → Result Kernel
release_exited k =
    let released = do
      (p, t) ← release_process (proc_at k.procs k.current_proc) k.pool
      ok (record k { procs = set k.procs k.current_proc p; pool = t })
    in if (proc_at k.procs k.current_proc).state == proc_exited then released else ok k

-- `yield` to the switch of stacks: the process that runs next.
unfoldable pub yield : Kernel → Result Kernel
yield k = do j ← release_exited k; ok (record j { current_proc = next_proc j })
