-- ===== src/Processes/Failure.antt =====
-- kernel/process.c: how `create_process` fails.
use risc_v_os.Base.{
  ℕ, zero, suc, ◌+◌, ◌-◌, ◌*◌, ◌%◌, ◌^◌, ◌≤◌, ◌<◌, ◌≡◌, ◌⊎◌, inl, inr, refl, sym, ap, ◌∙◌, arith,
  ok, panic, subst, Option-cases, Result, stopped, Panic, out_of_memory, panic-injective,
  find_index, find_index-none, List, [], ◌∷◌, All, no_free_process_slots, length, false,
}
use risc_v_os.Memory.{memcpy}
use risc_v_os.Allocator.{Heap, alloc_pages, page_size}
use risc_v_os.Allocator.Alloc.{alloc_pages_panics}
use risc_v_os.Allocator.Reach.{IsOwned}
use risc_v_os.Paging.{Process, map_page, keep_region}
use risc_v_os.Paging.Mapping.{map_page_lem}
use risc_v_os.Paging.Tree.{IsTree, fresh_page}
use risc_v_os.Paging.Fresh.{alloc_pages-IsTree}
use risc_v_os.Paging.Step.{map_page-Extended}
use risc_v_os.Processes.{
  Layout, Kernel, proc_at, no_process, is_unused, initial_stack, build_space, create_in,
  create_found, create_process, map_kernel, map_devices, load_page, load_image, devices, pages,
  user_base, kernel_flags, device_flags, user_flags, copy_size,
}
use risc_v_os.Processes.Range.{IsDevice, map_kernel-Grown, map_devices-Grown}
use risc_v_os.Processes.Image.{load_page-Grown, copied-IsTree}
use risc_v_os.Processes.Create.{IsLaid, devices-IsDevice}

alloc_panic :
    (lo hi : ℕ) (h : Heap) (why : Panic)
    → IsOwned lo hi h
    → alloc_pages 1 h ≡ panic why
    → why ≡ out_of_memory
alloc_panic lo hi h why o e = (alloc_pages_panics hi 1 h why o.valid e).0

module _ (lo hi : ℕ) where
  map_page_panic :
      (vaddr paddr flags : ℕ) (proc : Process) (h : Heap) (why : Panic)
      → IsTree lo hi proc.page_table h
      → vaddr % page_size ≡ 0
      → paddr % page_size ≡ 0
      → paddr < 2 ^ 32
      → flags < 2 ^ 10
      → flags % 2 ≡ 0
      → map_page vaddr paddr flags proc h ≡ panic why
      → why ≡ out_of_memory
  map_page_panic vaddr paddr flags proc h why t av ap' small lt even e =
      elim (map_page_lem lo hi vaddr paddr flags proc h t.rooted av ap' small lt even) [
        | inl (p, g, done, _) ↦
            let bad : ◌≡◌ {A = Result (Process × Heap)} (ok (p, g)) (panic why) = sym done ∙ e in cc
        | inr (other, failed, out) ↦
            panic-injective (sym e ∙ failed) ∙ alloc_panic lo hi h other t.rooted.owned out
      ]

  map_kernel_panic :
      (rounds paddr : ℕ) (proc : Process) (h : Heap) (why : Panic)
      → IsTree lo hi proc.page_table h
      → paddr % page_size ≡ 0
      → paddr + rounds * page_size < 2 ^ 32
      → map_kernel rounds paddr proc h ≡ panic why
      → why ≡ out_of_memory
  unfolding map_kernel
  map_kernel_panic zero paddr proc h why t aligned room e =
      let bad : ◌≡◌ {A = Result (Process × Heap)} (ok (proc, h)) (panic why) = e in cc
  map_kernel_panic (suc rounds) paddr proc h why t aligned room e =
      elim (stopped (map_page paddr paddr kernel_flags proc h) _ why e) [
        | inl now ↦
            map_page_panic paddr paddr kernel_flags proc h why t aligned aligned (omega arith)
              (omega arith) (omega arith) now
        | inr ((p, g), first, rest) ↦
            let x =
              map_page-Extended lo hi paddr paddr kernel_flags proc p h g t aligned aligned
                (omega arith) (omega arith) (omega arith) first in
            let next : (paddr + page_size) % 2 ^ 32 ≡ paddr + page_size = omega arith in
            map_kernel_panic rounds (paddr + page_size) p g why
              (subst (λ r. IsTree lo hi r g) (sym x.same_root) x.keeps.tree) (omega arith)
              (omega arith) (sym (ap (λ a. map_kernel rounds a p g) next) ∙ rest)
      ]

  map_devices_panic :
      (ds : List ℕ) (proc : Process) (h : Heap) (why : Panic)
      → IsTree lo hi proc.page_table h
      → All IsDevice ds
      → map_devices ds proc h ≡ panic why
      → why ≡ out_of_memory
  unfolding map_devices
  map_devices_panic [] proc h why t sound e =
      let bad : ◌≡◌ {A = Result (Process × Heap)} (ok (proc, h)) (panic why) = e in cc
  map_devices_panic (d ∷ ds) proc h why t (device, sound) e =
      elim (stopped (map_page d d device_flags proc h) _ why e) [
        | inl now ↦
            map_page_panic d d device_flags proc h why t device.0 device.0 device.1 (omega arith)
              (omega arith) now
        | inr ((p, g), first, rest) ↦
            let x =
              map_page-Extended lo hi d d device_flags proc p h g t device.0 device.0 device.1
                (omega arith) (omega arith) first in
            map_devices_panic ds p g why
              (subst (λ r. IsTree lo hi r g) (sym x.same_root) x.keeps.tree) sound rest
      ]

  load_page_panic :
      (image image_size off : ℕ) (proc : Process) (h : Heap) (why : Panic)
      → IsTree lo hi proc.page_table h
      → image + image_size ≤ lo
      → off < image_size
      → off % page_size ≡ 0
      → user_base + image_size < 2 ^ 32
      → load_page image image_size off proc h ≡ panic why
      → why ≡ out_of_memory
  unfolding load_page
  load_page_panic image image_size off proc h why t below within aligned room e =
      elim (stopped (alloc_pages 1 h) _ why e) [
        | inl now ↦ alloc_panic lo hi h why t.rooted.owned now
        | inr ((page, idx, g), first, rest) ↦
            let facts = fresh_page lo hi page idx h g t.rooted.owned first in
            map_page_panic ((user_base + off) % 2 ^ 32) page user_flags (keep_region idx proc)
              (record g { memory = memcpy g.memory page (image + off) (copy_size image_size off) })
              why
              (copied-IsTree lo hi image image_size off h.memory page idx proc.page_table h g t
                first below within)
              (omega arith) facts.0 facts.1 (omega arith) (omega arith) rest
      ]

  load_image_panic :
      (image image_size rounds off : ℕ) (proc : Process) (h : Heap) (why : Panic)
      → IsTree lo hi proc.page_table h
      → image + image_size ≤ lo
      → off % page_size ≡ 0
      → user_base + image_size + page_size < 2 ^ 32
      → rounds ≡ pages (image_size - off)
      → load_image rounds off image image_size proc h ≡ panic why
      → why ≡ out_of_memory
  unfolding load_image
  load_image_panic image image_size zero off proc h why t below aligned room count e =
      let bad : ◌≡◌ {A = Result (Process × Heap)} (ok (proc, h)) (panic why) = e in cc
  load_image_panic image image_size (suc rounds) off proc h why t below aligned room count e =
      elim (stopped (load_page image image_size off proc h) _ why e) [
        | inl now ↦
            load_page_panic image image_size off proc h why t below (omega arith) aligned
              (omega arith) now
        | inr ((p, g), first, rest) ↦
            let (x, _) =
              load_page-Grown lo hi image image_size off h.memory proc p h g t (λ _ _. refl) below
                (omega arith) aligned (omega arith) first in
            let next : (off + page_size) % 2 ^ 32 ≡ off + page_size = omega arith in
            load_image_panic image image_size rounds (off + page_size) p g why
              (subst (λ r. IsTree lo hi r g) (sym x.same_root) x.keeps.tree) below (omega arith)
              room (omega arith)
              (sym (ap (λ a. load_image rounds a image image_size p g) next) ∙ rest)
      ]

  build_space_panic :
      (image image_size : ℕ) (ly : Layout) (proc : Process) (h : Heap) (why : Panic)
      → IsLaid lo image image_size ly
      → IsTree lo hi proc.page_table h
      → build_space ly image image_size proc h ≡ panic why
      → why ≡ out_of_memory
  unfolding build_space
  build_space_panic image image_size ly proc h why laid t e =
      let whole : (ly.kernel_base % page_size ≡ 0) × (ly.free_ram_end % page_size ≡ 0) =
        laid.whole in
      let ordered : ly.kernel_base ≤ ly.free_ram_end = laid.ordered in
      let ram : ly.free_ram_end < 2 ^ 32 = laid.ram in
      let small : image_size ≤ 0x80_0000 = laid.image_small in
      elim (stopped (map_kernel (pages (ly.free_ram_end - ly.kernel_base)) ly.kernel_base proc h) _
        why e) [
          | inl now ↦ map_kernel_panic _ ly.kernel_base proc h why t whole.0 (omega arith) now
          | inr ((p, g), first, rest) ↦
              let (a, _) =
                map_kernel-Grown lo hi _ ly.kernel_base proc p h g t whole.0 (omega arith) first in
              let tree = subst (λ r. IsTree lo hi r g) (sym a.same_root) a.keeps.tree in
              elim (stopped (map_devices devices p g) _ why rest) [
                | inl now ↦ map_devices_panic devices p g why tree devices-IsDevice now
                | inr ((q, k), second, third) ↦
                    let (b, _) =
                      map_devices-Grown lo hi devices p q g k tree devices-IsDevice second in
                    load_image_panic image image_size (pages image_size) 0 q k why
                      (subst (λ r. IsTree lo hi r k) (sym b.same_root) b.keeps.tree)
                      laid.image_below (omega arith) (omega arith) (omega arith) third
              ]
        ]

-- `create_process` fails in two ways only: no slot of the table is unused, or the allocator has no
-- page left for the new process.
pub create_process_panics :
    (lo hi image image_size : ℕ) (ly : Layout) (k : Kernel) (why : Panic)
    → IsLaid lo image image_size ly
    → IsOwned lo hi k.pool.heap
    → create_process ly image image_size k ≡ panic why
    → (why ≡ no_free_process_slots)
        × ((j : ℕ) → j < length k.procs → is_unused (proc_at k.procs j) ≡ false)
      ⊎ (why ≡ out_of_memory)
unfolding create_process create_found create_in
create_process_panics lo hi image image_size ly k why laid o e =
    elim (Option-cases (find_index is_unused k.procs)) [
      | inl missing ↦ inl (
        panic-injective (sym e ∙ ap (λ c. create_found ly image image_size c k) missing),
        find_index-none is_unused k.procs no_process missing,
      )
      | inr (i, found) ↦
          let e' : create_in ly image image_size i k ≡ panic why =
            sym (ap (λ c. create_found ly image image_size c k) found) ∙ e in
          let stacked = record k.pool.heap { memory = (initial_stack ly i k.pool.heap.memory).1 } in
          let owned : IsOwned lo hi stacked = record { valid = o.valid; owner = o.owner } in
          inr (elim (stopped (alloc_pages 1 stacked) _ why e') [
            | inl now ↦ alloc_panic lo hi stacked why owned now
            | inr ((root, region, g), first, rest) ↦
                elim (stopped (build_space ly image image_size _ g) _ why rest) [
                  | inl now ↦
                      build_space_panic lo hi image image_size ly _ g why laid
                        (alloc_pages-IsTree lo hi root region stacked g owned first) now
                  | inr ((p, h), second, third) ↦ cc
                ]
          ])
    ]
