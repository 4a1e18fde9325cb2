-- ===== src/Paging/Recorded.antt =====
-- kernel/process.c: what `map_page` and `unmap_page` leave in the process record and the region table.
use risc_v_os.Base.{
  ℕ, ◌+◌, ◌%◌, ◌≡◌, refl, sym, ap, ◌∙◌, Bool-cases, inl, inr, Result, ok, panic, returned,
  ok-injective, if◌then◌else◌, unaligned_vaddr,
}
use risc_v_os.Base.Word.{u32}
use risc_v_os.Allocator.{Heap, page_size, alloc_pages}
use risc_v_os.Paging.{
  Process, load32, slot, is_invalid, is_page, vpn1, ensure_table, make_table, map_page, unmap_page,
}
use risc_v_os.Paging.Mapping.{map_page-ensured}

-- The number of regions with one more where a second-level table is missing.
abbrev pub one_table : ℕ → Process → Heap → ℕ
one_table vaddr proc h =
    if is_invalid (load32 h.memory (slot proc.page_table (vpn1 vaddr)))
    then u32 (proc.current_idx + 1)
    else proc.current_idx

ensure_table-record :
    (vpn : ℕ) (proc proc' : Process) (h h' : Heap)
    → ensure_table vpn proc h ≡ ok (proc', h')
    → (proc'.shm_mappings ≡ proc.shm_mappings)
      × (proc'.current_idx ≡ (
          if is_invalid (load32 h.memory (slot proc.page_table vpn))
          then u32 (proc.current_idx + 1)
          else proc.current_idx))
unfolding ensure_table make_table
ensure_table-record vpn proc proc' h h' e =
    elim (Bool-cases (is_invalid (load32 h.memory (slot proc.page_table vpn)))) [
      | inl missing ↦
          let made : make_table vpn proc h ≡ ok (proc', h') =
            sym (ap (λ b. if b then make_table vpn proc h else ok (proc, h)) missing) ∙ e in
          let ((page, idx, g), first, rest) = returned (alloc_pages 1 h) _ _ made in
          let same = ok-injective rest in
          (
            sym (ap (λ (r : Process × Heap). r.0.shm_mappings) same),
            sym (ap (λ (r : Process × Heap). r.0.current_idx) same)
                ∙ sym
                    (ap (λ b. if b then u32 (proc.current_idx + 1) else proc.current_idx) missing),
          )
      | inr there ↦
          let same =
            ok-injective
              (sym (ap (λ b. if b then make_table vpn proc h else ok (proc, h)) there) ∙ e) in
          (
            sym (ap (λ (r : Process × Heap). r.0.shm_mappings) same),
            sym (ap (λ (r : Process × Heap). r.0.current_idx) same)
                ∙ sym (ap (λ b. if b then u32 (proc.current_idx + 1) else proc.current_idx) there),
          )
    ]

-- `map_page` records a region more exactly where a table is missing, and leaves the mappings of shared
-- memory alone.
pub map_page-record :
    (vaddr paddr flags : ℕ) (proc proc' : Process) (h h' : Heap)
    → vaddr % page_size ≡ 0
    → paddr % page_size ≡ 0
    → map_page vaddr paddr flags proc h ≡ ok (proc', h')
    → (proc'.shm_mappings ≡ proc.shm_mappings) × (proc'.current_idx ≡ one_table vaddr proc h)
map_page-record vaddr paddr flags proc proc' h h' av pa e =
    let ((p, g), first, rest) =
      returned (ensure_table (vpn1 vaddr) proc h) _ _
        (sym (map_page-ensured vaddr paddr flags proc h av pa) ∙ e) in
    let same = ok-injective rest in
    let (mappings, count) = ensure_table-record (vpn1 vaddr) proc p h g first in
    (
      sym (ap (λ (r : Process × Heap). r.0.shm_mappings) same) ∙ mappings,
      sym (ap (λ (r : Process × Heap). r.0.current_idx) same) ∙ count,
    )

-- `unmap_page` gives no page back.
pub unmap_page-regions :
    (vaddr : ℕ) (proc : Process) (h h' : Heap)
    → unmap_page vaddr proc h ≡ ok h'
    → h'.regions ≡ h.regions
unfolding unmap_page
unmap_page-regions vaddr proc h h' e = elim (Bool-cases (is_page vaddr)) [
  | inr odd ↦
      let bad : ◌≡◌ {A = Result Heap} (panic unaligned_vaddr) (ok h') = sym (rw odd refl) ∙ e in cc
  | inl whole ↦
      elim (Bool-cases (is_invalid (load32 h.memory (slot proc.page_table (vpn1 vaddr))))) [
        | inl missing ↦ sym (ap (λ (g : Heap). g.regions) (ok-injective (rw (whole, missing) at e)))
        | inr there ↦ sym (ap (λ (g : Heap). g.regions) (ok-injective (rw (whole, there) at e)))
      ]
]
