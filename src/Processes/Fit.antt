-- ===== src/Processes/Fit.antt =====
-- kernel/process.c: the regions of a process fit the array that records them.
use risc_v_os.Base.{
  ℕ, zero, suc, ◌+◌, ◌-◌, ◌*◌, ◌%◌, ◌^◌, ◌≤◌, ◌<◌, ◌≡◌, sym, ap, ◌∙◌, arith, ok, subst, some, refl,
  returned, ok-injective, get_or-set_self,
}
use risc_v_os.Memory.{memcpy}
use risc_v_os.Allocator.{Heap, alloc_pages, page_size}
use risc_v_os.Allocator.Reach.{IsOwned}
use risc_v_os.Paging.{Process, map_page, keep_region}
use risc_v_os.Paging.Mapping.{translate}
use risc_v_os.Paging.Recorded.{one_table, map_page-record}
use risc_v_os.Paging.Tree.{IsTree, fresh_page}
use risc_v_os.Paging.Keeps.{fresh-Keeps}
use risc_v_os.Paging.Fresh.{alloc_pages-IsTree}
use risc_v_os.Processes.{
  Layout, Kernel, proc_at, no_process, create_process, map_kernel, map_devices, load_page,
  load_image, devices, pages, build_space, user_base, user_flags, copy_size, proc_region_max,
}
use risc_v_os.Processes.Range.{map_kernel-Grown, map_devices-Grown}
use risc_v_os.Processes.Image.{load_page-Grown, copied}
use risc_v_os.Processes.Create.{IsLaid, devices-IsDevice}
use risc_v_os.Processes.Made.{steps, start, stacked, owned}
use risc_v_os.Processes.Count.{
  HasTable, mapped-HasTable, one_table-bound, one_table-next, further, map_kernel-count,
  map_devices-count,
}

module _ (lo hi image image_size : ℕ) (below : image + image_size ≤ lo)
    (room : user_base + image_size + page_size < 2 ^ 32) where
  -- One page and the table for it, which is there where an address shortly before is mapped.
  load_page-count :
      (off w : ℕ) (proc proc' : Process) (h h' : Heap)
      → IsTree lo hi proc.page_table h
      → off < image_size
      → off % page_size ≡ 0
      → load_page image image_size off proc h ≡ ok (proc', h')
      → (proc'.current_idx ≤ proc.current_idx + 2)
        × ((entry : ℕ)
            → translate proc.page_table h.memory w ≡ some entry
            → w ≤ user_base + off
            → proc'.current_idx ≤ proc.current_idx + 1 + further w (user_base + off))
  unfolding load_page
  load_page-count off w proc proc' h h' t within aligned e =
      let ((page, idx, g), first, rest) = returned (alloc_pages 1 h) _ _ e in
      let filled = memcpy g.memory page (image + off) (copy_size image_size off) in
      let kept = keep_region idx proc in
      let full : Heap = record g { memory = filled } in
      let facts = fresh_page lo hi page idx h g t.rooted.owned first in
      let bytes =
        copied lo hi image image_size off h.memory page idx proc.page_table h g t first below
          within in
      let keeps =
        fresh-Keeps lo hi proc.page_table page idx h g filled t first
          (λ x out. ground (arith, bytes x)) in
      let address : (user_base + off) % 2 ^ 32 ≡ user_base + off = omega arith in
      let count : proc'.current_idx ≡ one_table (user_base + off) kept full =
        (map_page-record (user_base + off) page user_flags kept proc' full h' (omega arith) facts.0
          (sym (ap (λ a. map_page a page user_flags kept full) address) ∙ rest)).1 in
      (
        omega (arith, count, one_table-bound (user_base + off) kept full),
        λ entry mapped le.
            let there : HasTable proc.page_table full w =
              mapped-HasTable proc.page_table w entry full (keeps.translations w tt ∙ mapped) in
            omega (arith, count, one_table-next (user_base + off) w kept full there (omega arith)),
      )

  load_image-further :
      (rounds off w entry : ℕ) (proc proc' : Process) (h h' : Heap)
      → IsTree lo hi proc.page_table h
      → off % page_size ≡ 0
      → rounds ≡ pages (image_size - off)
      → translate proc.page_table h.memory w ≡ some entry
      → w ≤ user_base + off
      → load_image rounds off image image_size proc h ≡ ok (proc', h')
      → proc'.current_idx
        ≤ proc.current_idx + rounds + further w (user_base + off + rounds * page_size)
  unfolding load_image
  load_image-further zero off w entry proc proc' h h' t aligned count mapped le e =
      let same : proc.current_idx ≡ proc'.current_idx =
        ap (λ (r : Process × Heap). r.0.current_idx) (ok-injective e) in
      omega arith
  load_image-further (suc rounds) off w entry proc proc' h h' t aligned count mapped le e =
      let ((p, g), first, rest) = returned (load_page image image_size off proc h) _ _ e in
      let within : off < image_size = omega arith in
      let (now, here) =
        load_page-Grown lo hi image image_size off h.memory proc p h g t (λ _ _. refl) below within
          aligned (omega arith) first in
      let (q, found, _, _) = here off (omega arith) (omega arith) within in
      let next : (off + page_size) % 2 ^ 32 ≡ off + page_size = omega arith in
      let before = (load_page-count off w proc p h g t within aligned first).1 entry mapped le in
      let after =
        load_image-further rounds (off + page_size) (user_base + off) _ p proc' g h'
          (subst (λ r. IsTree lo hi r g) (sym now.same_root) now.keeps.tree) (omega arith)
          (omega arith) (ap (λ r. translate r g.memory (user_base + off)) now.same_root ∙ found)
          (omega arith) (sym (ap (λ a. load_image rounds a image image_size p g) next) ∙ rest) in
      omega (arith, before, after)

  -- Each page, one table, and one for each further stretch of 4 MB.
  load_image-count :
      (rounds off : ℕ) (proc proc' : Process) (h h' : Heap)
      → IsTree lo hi proc.page_table h
      → off % page_size ≡ 0
      → rounds ≡ pages (image_size - off)
      → load_image rounds off image image_size proc h ≡ ok (proc', h')
      → proc'.current_idx
        ≤ proc.current_idx
          + rounds
          + 1
          + further (user_base + off) (user_base + off + rounds * page_size)
  unfolding load_image
  load_image-count zero off proc proc' h h' t aligned count e =
      let same : proc.current_idx ≡ proc'.current_idx =
        ap (λ (r : Process × Heap). r.0.current_idx) (ok-injective e) in
      omega arith
  load_image-count (suc rounds) off proc proc' h h' t aligned count e =
      let ((p, g), first, rest) = returned (load_page image image_size off proc h) _ _ e in
      let within : off < image_size = omega arith in
      let (now, here) =
        load_page-Grown lo hi image image_size off h.memory proc p h g t (λ _ _. refl) below within
          aligned (omega arith) first in
      let (q, found, _, _) = here off (omega arith) (omega arith) within in
      let next : (off + page_size) % 2 ^ 32 ≡ off + page_size = omega arith in
      let before = (load_page-count off 0 proc p h g t within aligned first).0 in
      let after =
        load_image-further rounds (off + page_size) (user_base + off) _ p proc' g h'
          (subst (λ r. IsTree lo hi r g) (sym now.same_root) now.keeps.tree) (omega arith)
          (omega arith) (ap (λ r. translate r g.memory (user_base + off)) now.same_root ∙ found)
          (omega arith) (sym (ap (λ a. load_image rounds a image image_size p g) next) ∙ rest) in
      omega (arith, before, after)

-- The root, a table for the kernel and one for each further stretch of 4 MB, at most one for each of
-- the five pages of devices, the pages of the image, and its tables, together at most 64.
abbrev pub RegionsFit : ℕ → Layout → Type 0
RegionsFit image_size ly =
    1
      + (1 + further ly.kernel_base ly.free_ram_end)
      + 5
      + (pages image_size + 1 + further user_base (user_base + pages image_size * page_size))
    ≤ proc_region_max

build_space-count :
    (lo hi image image_size : ℕ) (ly : Layout) (proc proc' : Process) (h h' : Heap)
    → IsLaid lo image image_size ly
    → IsTree lo hi proc.page_table h
    → build_space ly image image_size proc h ≡ ok (proc', h')
    → proc'.current_idx
      ≤ proc.current_idx
        + (1 + further ly.kernel_base ly.free_ram_end)
        + 5
        + (pages image_size + 1 + further user_base (user_base + pages image_size * page_size))
unfolding build_space
build_space-count lo hi image image_size ly proc proc' h h' laid t e =
    let rounds = pages (ly.free_ram_end - ly.kernel_base) in
    let ((p, g), first, rest) = returned (map_kernel rounds ly.kernel_base proc h) _ _ e in
    let ((q, k), second, third) = returned (map_devices devices p g) _ _ rest in
    let whole : (ly.kernel_base % page_size ≡ 0) × (ly.free_ram_end % page_size ≡ 0) = laid.whole in
    let ordered : ly.kernel_base ≤ ly.free_ram_end = laid.ordered in
    let ram : ly.free_ram_end < 2 ^ 32 = laid.ram in
    let small : image_size ≤ 0x80_0000 = laid.image_small in
    let last : ly.kernel_base + rounds * page_size ≡ ly.free_ram_end = omega arith in
    let (a, _) = map_kernel-Grown lo hi _ ly.kernel_base proc p h g t whole.0 (omega arith) first in
    let tree : IsTree lo hi p.page_table g =
      subst (λ r. IsTree lo hi r g) (sym a.same_root) a.keeps.tree in
    let (b, _) = map_devices-Grown lo hi devices p q g k tree devices-IsDevice second in
    let kernel =
      subst (λ x. p.current_idx ≤ proc.current_idx + 1 + further ly.kernel_base x) last
        (map_kernel-count lo hi rounds ly.kernel_base proc p h g t whole.0 (omega arith) first) in
    omega (
      arith,
      kernel,
      map_devices-count devices p q g k devices-IsDevice second,
      load_image-count lo hi image image_size laid.image_below (omega arith) (pages image_size) 0 q
          proc' k h' (subst (λ r. IsTree lo hi r k) (sym b.same_root) b.keeps.tree) (omega arith)
          (omega arith) third,
    )

-- The process that `create_process` makes records no more regions than its array holds.
pub create_process-fits :
    (lo hi image image_size i : ℕ) (ly : Layout) (k k' : Kernel)
    → IsLaid lo image image_size ly
    → IsOwned lo hi k.pool.heap
    → RegionsFit image_size ly
    → create_process ly image image_size k ≡ ok (i, k')
    → (proc_at k'.procs i).current_idx ≤ proc_region_max
create_process-fits lo hi image image_size i ly k k' laid o fit e =
    let s = steps lo hi image image_size i ly k k' laid o e in
    let own : (proc_at k'.procs i).current_idx ≡ s.proc.current_idx =
      ap (λ (j : Kernel). (proc_at j.procs i).current_idx) s.result
      ∙ ap (λ (p : Process). p.current_idx) (get_or-set_self k.procs i _ no_process s.unused.0) in
    let count =
      build_space-count lo hi image image_size ly (start lo hi image image_size i ly k k' laid o e)
        s.proc s.fresh s.built laid
        (alloc_pages-IsTree lo hi s.root s.region
          (stacked lo hi image image_size i ly k k' laid o e) s.fresh
          (owned lo hi image image_size i ly k k' laid o e) s.allocated)
        s.building in
    omega (arith, own, count)
