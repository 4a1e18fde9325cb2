-- ===== src/Shm.antt =====
-- kernel/shm.c: the table of shared memory objects, over the allocator and the page tables.
pub mod Keys
pub mod Attach
mod Tests
use risc_v_os.Base.{
  ℕ, suc, zero, ◌+◌, ◌-◌, ◌*◌, ◌^◌, Bool, true, false, not, ◌&&◌, ◌||◌, Option, none, some, List,
  ◌==◌, leb, if◌then◌else◌, get_or, set, replicate, find_index, Result, ok, panic, ◌>>=◌,
}
use risc_v_os.Base.Word.{add32, sub32}
use risc_v_os.Allocator.{Heap, alloc_pages, release_pages, page_size}
use risc_v_os.Paging.{Process, ShmMapping, map_page, unmap_page}

abbrev pub shm_max : ℕ
shm_max = 8

abbrev pub shm_user_base : ℕ
shm_user_base = 0x0170_0000

-- `PAGE_U | PAGE_R | PAGE_W`
abbrev pub shm_flags : ℕ
shm_flags = 0x16

pub record ShmObject : Type 0 where
  pub used : Bool
  pub id : ℕ
  pub key : ℕ
  pub pa : ℕ
  pub region_idx : ℕ
  pub size : ℕ
  pub refcount : ℕ

pub record Shm : Type 0 where
  pub shm_table : List ShmObject
  pub next_shm_id : ℕ

-- The shared objects and the memory that they lie in.
pub record Pool : Type 0 where
  pub shm : Shm
  pub heap : Heap

abbrev pub no_object : ShmObject
no_object = record { used = false; id = 0; key = 0; pa = 0; region_idx = 0; size = 0; refcount = 0 }

abbrev pub no_mapping : ShmMapping
no_mapping = record { used = false; shm_id = 0; vaddr = 0 }

abbrev pub object : List ShmObject → ℕ → ShmObject
object t i = get_or t i no_object

abbrev pub has_id : ℕ → ShmObject → Bool
has_id id o = o.used && o.id == id

abbrev pub has_key : ℕ → ShmObject → Bool
has_key key o = o.used && o.key == key

-- The two searches give the index of the object.
unfoldable pub find_by_id : ℕ → List ShmObject → Option ℕ
find_by_id id t = find_index (has_id id) t

unfoldable pub find_by_key : ℕ → List ShmObject → Option ℕ
find_by_key key t = find_index (has_key key) t

unfoldable pub shm_init : Shm
shm_init = record { shm_table = replicate shm_max no_object; next_shm_id = 1 }

-- An `int` that is not positive, as a bit pattern.
abbrev pub not_positive : ℕ → Bool
not_positive n = n == 0 || leb (2 ^ 31) n

abbrev pub minus_one : ℕ
minus_one = 2 ^ 32 - 1

abbrev pub with_table : List ShmObject → Pool → Pool
with_table t s = record s { shm = record s.shm { shm_table = t } }

-- The object that `shm_get` makes in slot `i`, with its page.
unfoldable pub make_object : ℕ → ℕ → Pool → Result (ℕ × Pool)
make_object key i s = do
  (pa, region_idx, h) ← alloc_pages 1 s.heap
  ok (
    s.shm.next_shm_id,
    record {
      shm = record {
        shm_table = set s.shm.shm_table i (record {
          used = true;
          id = s.shm.next_shm_id;
          key = key;
          pa = pa;
          region_idx = region_idx;
          size = page_size;
          refcount = 0;
        });
        next_shm_id = add32 s.shm.next_shm_id 1;
      };
      heap = h;
    },
  )

-- The second half of `shm_get`: the first free slot, if there is one.
unfoldable pub make_in : ℕ → Option ℕ → Pool → Result (ℕ × Pool)
make_in key none s = ok (minus_one, s)
make_in key (some i) s = make_object key i s

unfoldable pub get_found : ℕ → Option ℕ → Pool → Result (ℕ × Pool)
get_found key (some i) s = ok ((object s.shm.shm_table i).id, s)
get_found key none s = make_in key (find_index (λ o. not o.used) s.shm.shm_table) s

unfoldable pub shm_get : ℕ → Pool → Result (ℕ × Pool)
shm_get key s =
    if not_positive key
    then ok (minus_one, s)
    else get_found key (find_by_key key s.shm.shm_table) s

-- An object with one more reference.
abbrev pub referenced : ℕ → List ShmObject → List ShmObject
referenced i t = set t i (record (object t i) { refcount = add32 (object t i).refcount 1 })

-- `shm_attach` once the object and a slot of the process are found.
unfoldable pub attach_at : ℕ → ℕ → ℕ → Process → Pool → Result (ℕ × Process × Pool)
attach_at id i slot proc s = do
  (p, h) ←
      map_page (shm_user_base + slot * page_size) (object s.shm.shm_table i).pa shm_flags proc
        s.heap
  ok (
    shm_user_base + slot * page_size,
    record p {
      shm_mappings =
          set p.shm_mappings slot
            (record { used = true; shm_id = id; vaddr = shm_user_base + slot * page_size });
    },
    record { shm = record s.shm { shm_table = referenced i s.shm.shm_table }; heap = h },
  )

unfoldable pub attach_found : ℕ → Option ℕ → Option ℕ → Process → Pool → Result (ℕ × Process × Pool)
attach_found id none slot proc s = ok (0, proc, s)
attach_found id (some i) none proc s = ok (0, proc, s)
attach_found id (some i) (some slot) proc s = attach_at id i slot proc s

unfoldable pub shm_attach : ℕ → Process → Pool → Result (ℕ × Process × Pool)
shm_attach id proc s =
    attach_found id (find_by_id id s.shm.shm_table)
      (find_index (λ (m : ShmMapping). not m.used) proc.shm_mappings) proc s

-- The object after a detach: one reference less, and gone with the last.
unfoldable pub drop_reference : Option ℕ → Pool → Result Pool
drop_reference none s = ok s
drop_reference (some i) s =
    let o = object s.shm.shm_table i in
    let left = sub32 o.refcount 1 in
    let released = do
      h ← release_pages o.region_idx s.heap
      ok (record (with_table (set s.shm.shm_table i no_object) s) { heap = h })
    in if not_positive left
      then released
      else ok (with_table (set s.shm.shm_table i (record o { refcount = left })) s)

unfoldable pub detach_found : Option ℕ → Process → Pool → Result (ℕ × Process × Pool)
detach_found none proc s = ok (minus_one, proc, s)
detach_found (some i) proc s = do
  let mapping = get_or proc.shm_mappings i no_mapping
  h ← unmap_page mapping.vaddr proc s.heap
  t ← drop_reference (find_by_id mapping.shm_id s.shm.shm_table) (record s { heap = h })
  ok (0, record proc { shm_mappings = set proc.shm_mappings i no_mapping }, t)

unfoldable pub shm_detach : ℕ → Process → Pool → Result (ℕ × Process × Pool)
shm_detach vaddr proc s =
    detach_found (find_index (λ (m : ShmMapping). m.used && m.vaddr == vaddr) proc.shm_mappings)
      proc s

-- The loop of `shm_process_cleanup` from slot `i` on.
unfoldable pub cleanup_from : ℕ → ℕ → Process → Pool → Result (Process × Pool)
cleanup_from zero i proc s = ok (proc, s)
cleanup_from (suc rounds) i proc s =
    let mapping = get_or proc.shm_mappings i no_mapping in
    let skip = cleanup_from rounds (i + 1) proc s in
    let detach = do (_, p, t) ← shm_detach mapping.vaddr proc s; cleanup_from rounds (i + 1) p t
    in if mapping.used then detach else skip

unfoldable pub shm_process_cleanup : Process → Pool → Result (Process × Pool)
shm_process_cleanup proc s = cleanup_from 4 0 proc s
