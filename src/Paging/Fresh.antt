-- ===== src/Paging/Fresh.antt =====
-- kernel/process.c: the page that `create_process` allocates for the first level.
use risc_v_os.Base.{
  ℕ, ◌+◌, ◌≤◌, ◌<◌, ◌≡◌, refl, sym, ap, ◌∙◌, true, false, arith, ok, if◌then◌else◌, none,
}
use risc_v_os.Allocator.{Heap, alloc_pages, page_size}
use risc_v_os.Allocator.Calls.{Allocated}
use risc_v_os.Allocator.Alloc.{alloc_pages-Allocated}
use risc_v_os.Allocator.Reach.{IsOwned, Step-IsOwned, allocate}
use risc_v_os.Paging.{load32, slot, is_invalid, table_of, vpn1, vpn0}
use risc_v_os.Paging.Root.{IsRooted}
use risc_v_os.Paging.Tree.{IsTree}
use risc_v_os.Paging.Mapping.{translate, leaf, vpn-lt}

module _ (lo hi root idx : ℕ) (h h' : Heap) (o : IsOwned lo hi h)
    (e : alloc_pages 1 h ≡ ok (root, idx, h')) where
  a : Allocated hi 1 h root idx h'
  a = alloc_pages-Allocated hi 1 root idx h h' o.valid e

  byte_zero : (x : ℕ) → root ≤ x → x < root + page_size → h'.memory x ≡ 0
  byte_zero x above below = ground (arith, a.zeroed x)

  pub entry_zero : (i : ℕ) → i < 1024 → load32 h'.memory (slot root i) ≡ 0
  unfolding load32
  entry_zero i lt =
      rw
        (
          byte_zero (slot root i) (omega arith) (omega arith),
          byte_zero (slot root i + 1) (omega arith) (omega arith),
          byte_zero (slot root i + 2) (omega arith) (omega arith),
          byte_zero (slot root i + 3) (omega arith) (omega arith),
        )
        refl

  -- A page from the allocator is a sound, empty table: the machine translates no address by it.
  pub alloc_pages-IsRooted :
      (vaddr : ℕ) → IsRooted lo hi root h' × (translate root h'.memory vaddr ≡ none)
  alloc_pages-IsRooted vaddr = (
    record {
      owned = Step-IsOwned lo hi (allocate 1 root idx e) o;
      root_held = ground (arith, a.to_holder root);
      aligned = a.aligned;
      apart = λ i lt valid.
          let bad : true ≡ false = sym (ap is_invalid (entry_zero i lt)) ∙ valid in absurd cc;
    },
    ap
        (λ w.
          if is_invalid w then none else leaf (load32 h'.memory (slot (table_of w) (vpn0 vaddr))))
        (entry_zero (vpn1 vaddr) (vpn-lt _)),
  )

  -- It has no second level at all.
  pub alloc_pages-IsTree : IsTree lo hi root h'
  alloc_pages-IsTree = record {
    rooted = (alloc_pages-IsRooted 0).0;
    tables_held = λ i lt used.
        let bad : true ≡ false = sym (ap is_invalid (entry_zero i lt)) ∙ used in absurd cc;
    distinct = λ i j li lj ne used _ _.
        let bad : true ≡ false = sym (ap is_invalid (entry_zero i li)) ∙ used in absurd cc;
  }
