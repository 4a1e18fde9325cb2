-- ===== src/Allocator.antt =====
-- kernel/allocator.c: the table of physical memory regions.
pub mod Ownership
pub mod Merge
pub mod Carve
pub mod Calls
pub mod Alloc
pub mod Release
pub mod Reach
mod Tests
use risc_v_os.Base.{
  ℕ, Bool, true, false, not, ◌&&◌, ◌||◌, Option, none, some, List, [], ◌∷◌, map, Result, ok, panic,
  out_of_memory, invalid_region_index, region_not_allocated, ◌>>=◌, leb, ◌==◌, if◌then◌else◌,
  get_or, set, find_index, count_up,
}
use risc_v_os.Base.Word.{add32, sub32, mul32}
use risc_v_os.Memory.{Memory, memset}

abbrev pub max_regions : ℕ
max_regions = 128

abbrev pub page_size : ℕ
page_size = 4096

pub data RegionState : Type 0 where
  unused free allocated : RegionState

pub record Region : Type 0 where
  pub start : ℕ
  pub size : ℕ
  pub state : RegionState

abbrev pub is_unused : Region → Bool
is_unused r = elim r.state [ unused ↦ true | _ ↦ false ]

abbrev pub is_free : Region → Bool
is_free r = elim r.state [ free ↦ true | _ ↦ false ]

abbrev pub is_allocated : Region → Bool
is_allocated r = elim r.state [ allocated ↦ true | _ ↦ false ]

abbrev pub blank : Region
blank = record { start = 0; size = 0; state = unused }

-- `regions[]` with the memory that it manages.
pub record Heap : Type 0 where
  pub regions : List Region
  pub memory : Memory

-- `regions[i]`
abbrev pub region : List Region → ℕ → Region
region rs i = get_or rs i blank

-- One free region from `__free_ram` to `__free_ram_end`, and the loop over the others.
unfoldable pub init_regions : ℕ → ℕ → List Region → List Region
init_regions free_ram free_ram_end [] = []
init_regions free_ram free_ram_end (r ∷ rs) =
    record { start = free_ram; size = sub32 free_ram_end free_ram; state = free }
    ∷ map (λ _. blank) rs

unfoldable pub find_unused_region_slot : List Region → Option ℕ
find_unused_region_slot rs = find_index is_unused rs

unfoldable pub find_suitable_free_region : ℕ → List Region → Option ℕ
find_suitable_free_region required_size rs =
    find_index (λ r. is_free r && leb required_size r.size) rs

-- The update of the table in `alloc_region`, once both indices are found.
unfoldable pub carve : ℕ → ℕ → ℕ → List Region → List Region
carve free_idx new_idx required_size rs =
    let taken : Region = record {
      start = (region rs free_idx).start;
      size = required_size;
      state = allocated;
    } in
    let rs1 = set rs new_idx taken in
    let rest = region rs1 free_idx in
    let start' = add32 rest.start required_size in
    let size' = sub32 rest.size required_size in
    let left : Region = record rest { start = start'; size = size' } in
    let rs2 = set rs1 free_idx left in
    if size' == 0 then set rs2 free_idx (record left { start = 0; state = unused }) else rs2

unfoldable pub alloc_region : ℕ → Heap → Result (ℕ × Heap)
alloc_region num_pages h =
    let required_size = mul32 num_pages page_size in
    elim (find_suitable_free_region required_size h.regions) [
      | none ↦ panic out_of_memory
      | some free_idx ↦ elim (find_unused_region_slot h.regions) [
        | none ↦ panic out_of_memory
        | some new_idx ↦ ok (
          new_idx,
          record {
            regions = carve free_idx new_idx required_size h.regions;
            memory = memset h.memory (region h.regions free_idx).start 0 required_size;
          },
        )
      ]
    ]

-- An index is the bit pattern of the `int`, so a negative one is past the end of the table too.
unfoldable pub region_to_addr : ℕ → Heap → Result ℕ
region_to_addr region_idx h =
    if leb max_regions region_idx
    then panic invalid_region_index
    else if not (is_allocated (region h.regions region_idx))
    then panic region_not_allocated
    else ok (region h.regions region_idx).start

-- The address, the index that goes through the pointer, and the new state.
unfoldable pub alloc_pages : ℕ → Heap → Result (ℕ × ℕ × Heap)
alloc_pages num_pages h = do
  (region_idx, h') ← alloc_region num_pages h
  addr ← region_to_addr region_idx h'
  ok (addr, region_idx, h')

-- The body of the inner loop of `merge_free_regions`.
unfoldable pub merge_pair : ℕ → ℕ → List Region → List Region
merge_pair i j rs =
    if i == j || not (is_free (region rs j))
    then rs
    else if add32 (region rs i).start (region rs i).size == (region rs j).start
    then set
        (set rs i (record (region rs i) { size = add32 (region rs i).size (region rs j).size })) j
        blank
    else rs

unfoldable pub merge_into : ℕ → List Region → List Region
merge_into i rs =
    if not (is_free (region rs i)) then rs else count_up (merge_pair i) 0 max_regions rs

unfoldable pub merge_free_regions : List Region → List Region
merge_free_regions rs = count_up merge_into 0 max_regions rs

unfoldable pub release_pages : ℕ → Heap → Result Heap
release_pages region_idx h =
    if leb max_regions region_idx
    then panic invalid_region_index
    else if not (is_allocated (region h.regions region_idx))
    then panic region_not_allocated
    else ok (record h {
      regions =
          merge_free_regions
            (set h.regions region_idx (record (region h.regions region_idx) { state = free }));
    })
