-- ===== src/Paging.antt =====
-- kernel/process.c: the control block of a process, and its Sv32 page table, two levels of words in
-- memory.
pub mod Words
pub mod Root
pub mod Mapping
pub mod Fresh
pub mod Tree
pub mod Keeps
pub mod Frame
pub mod Extend
pub mod Apart
pub mod Step
pub mod Recorded
mod Tests
use Prim.Native.Nat.{bit_and, bit_or}
use risc_v_os.Base.{
  ℕ, suc, zero, ◌+◌, ◌*◌, ◌/◌, ◌%◌, ◌^◌, Bool, true, false, not, Option, none, some, List, ◌==◌,
  if◌then◌else◌, set, Result, ok, panic, unaligned_vaddr, unaligned_paddr, ◌>>=◌,
}
use risc_v_os.Base.Word.{u8, u32}
use risc_v_os.Memory.{Memory, store8}
use risc_v_os.Allocator.{Heap, alloc_pages, page_size}

pub record ShmMapping : Type 0 where
  pub used : Bool
  pub shm_id : ℕ
  pub vaddr : ℕ

-- `struct process` without its kernel stack.
pub record Process : Type 0 where
  pub pid : ℕ
  pub state : ℕ
  pub sp : ℕ
  pub page_table : ℕ
  pub regions : List ℕ
  pub current_idx : ℕ
  pub shm_mappings : List ShmMapping

-- A 32-bit word, the low byte first.
unfoldable pub load32 : Memory → ℕ → ℕ
load32 m a = u8 (m a) + u8 (m (a + 1)) * 2 ^ 8 + u8 (m (a + 2)) * 2 ^ 16 + u8 (m (a + 3)) * 2 ^ 24

unfoldable pub store32 : Memory → ℕ → ℕ → Memory
store32 m a v =
    store8 (store8 (store8 (store8 m a (u8 v)) (a + 1) (u8 (v / 2 ^ 8))) (a + 2) (u8 (v / 2 ^ 16)))
      (a + 3) (u8 (v / 2 ^ 24))

abbrev pub page_v : ℕ
page_v = 1

-- `is_aligned(address, PAGE_SIZE)`
abbrev pub is_page : ℕ → Bool
is_page a = a % page_size == 0

abbrev pub vpn1 : ℕ → ℕ
vpn1 vaddr = bit_and (vaddr / 2 ^ 22) 0x3ff

abbrev pub vpn0 : ℕ → ℕ
vpn0 vaddr = bit_and (vaddr / 2 ^ 12) 0x3ff

-- The address of `table[i]`.
abbrev pub slot : ℕ → ℕ → ℕ
slot table i = table + 4 * i

-- `(entry & PAGE_V) == 0`
abbrev pub is_invalid : ℕ → Bool
is_invalid entry = bit_and entry page_v == 0

-- `(entry >> 10) * PAGE_SIZE`
abbrev pub table_of : ℕ → ℕ
table_of entry = u32 (entry / 2 ^ 10 * page_size)

-- `(paddr / PAGE_SIZE) << 10`
abbrev pub ppn : ℕ → ℕ
ppn paddr = u32 (paddr / page_size * 2 ^ 10)

-- The process keeps the region of its new second-level table.
abbrev pub keep_region : ℕ → Process → Process
keep_region region_idx proc = record proc {
  regions = set proc.regions proc.current_idx region_idx;
  current_idx = u32 (proc.current_idx + 1);
}

-- The part of `map_page` that makes the second-level table, where there is none.
unfoldable pub make_table : ℕ → Process → Heap → Result (Process × Heap)
make_table vpn proc h = do
  (pt_paddr, region_idx, h') ← alloc_pages 1 h
  ok (
    keep_region region_idx proc,
    record h' {
      memory = store32 h'.memory (slot proc.page_table vpn) (bit_or (ppn pt_paddr) page_v);
    },
  )

unfoldable pub ensure_table : ℕ → Process → Heap → Result (Process × Heap)
ensure_table vpn proc h =
    if is_invalid (load32 h.memory (slot proc.page_table vpn))
    then make_table vpn proc h
    else ok (proc, h)

-- `table0[vpn0] = ...`, through the entry of the first level.
unfoldable pub write_leaf : ℕ → ℕ → ℕ → Process → Heap → Heap
write_leaf vaddr paddr flags proc h = record h {
  memory =
      store32 h.memory
        (slot (table_of (load32 h.memory (slot proc.page_table (vpn1 vaddr)))) (vpn0 vaddr))
        (bit_or (bit_or (ppn paddr) flags) page_v);
}

unfoldable pub map_page : ℕ → ℕ → ℕ → Process → Heap → Result (Process × Heap)
map_page vaddr paddr flags proc h =
    let mapped = do
      (proc', h') ← ensure_table (vpn1 vaddr) proc h
      ok (proc', write_leaf vaddr paddr flags proc' h')
    in if not (is_page vaddr)
      then panic unaligned_vaddr
      else if not (is_page paddr)
      then panic unaligned_paddr
      else mapped

unfoldable pub unmap_page : ℕ → Process → Heap → Result Heap
unmap_page vaddr proc h =
    if not (is_page vaddr)
    then panic unaligned_vaddr
    else let entry = load32 h.memory (slot proc.page_table (vpn1 vaddr)) in
      if is_invalid entry
      then ok h
      else ok (record h { memory = store32 h.memory (slot (table_of entry) (vpn0 vaddr)) 0 })
