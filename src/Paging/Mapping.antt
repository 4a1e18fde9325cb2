-- ===== src/Paging/Mapping.antt =====
-- kernel/process.c: what `map_page` and `unmap_page` do to the addresses that the machine translates.
use Prim.Native.Nat.{bit_and, bit_or}
use risc_v_os.Base.{
  ℕ, ◌+◌, ◌*◌, ◌/◌, ◌%◌, ◌^◌, ◌<◌, ◌≡◌, ◌≢◌, ◌⊎◌, inl, inr, ap, ◌∙◌, Bool, true, false, arith,
  if◌then◌else◌, Result, ok, panic, Result-cases, Panic, unaligned_vaddr, unaligned_paddr,
  Bool-cases, ◌>>=◌, not, Option, none, some,
}
use risc_v_os.Base.Bits.{bit_and-mask}
use risc_v_os.Memory.{Memory}
use risc_v_os.Allocator.{Heap, alloc_pages, page_size}
use risc_v_os.Paging.{
  Process, load32, store32, page_v, slot, is_invalid, is_page, table_of, ppn, vpn0, vpn1,
  ensure_table, write_leaf, map_page, unmap_page,
}
use risc_v_os.Paging.Words.{load32-store32, load32-store32_apart}
use risc_v_os.Paging.Root.{
  IsRooted, Ensured, ensure_table-Ensured, ensure_table-failed, entry-eq, odd-valid, written,
}

-- The leaf entry for an address, found as the machine finds it: `none` is a page fault.
abbrev pub leaf : ℕ → Option ℕ
leaf entry = if is_invalid entry then none else some entry

abbrev pub translate : ℕ → Memory → ℕ → Option ℕ
translate root m vaddr =
    let entry = load32 m (slot root (vpn1 vaddr)) in
    if is_invalid entry then none else leaf (load32 m (slot (table_of entry) (vpn0 vaddr)))

pub vpn-lt : (x : ℕ) → bit_and x 0x3ff < 1024
vpn-lt x = omega (arith, bit_and-mask 10 x)

-- A store in the second level leaves the words of the first.
root_apart :
    (root table i j v : ℕ) (m : Memory)
    → root % page_size ≡ 0
    → table % page_size ≡ 0
    → table ≢ root
    → i < 1024
    → j < 1024
    → load32 (store32 m (slot table j) v) (slot root i) ≡ load32 m (slot root i)
root_apart root table i j v m ar at ne li lj =
    load32-store32_apart m (slot table j) (slot root i) v (ground arith)

-- Storing a leaf where the first level leads.
stored_leaf :
    (lo hi root vaddr v : ℕ) (h : Heap)
    → IsRooted lo hi root h
    → is_invalid (load32 h.memory (slot root (vpn1 vaddr))) ≡ false
    → v < 2 ^ 32
    → let m =
        store32 h.memory
          (slot (table_of (load32 h.memory (slot root (vpn1 vaddr)))) (vpn0 vaddr))
          v in
      IsRooted lo hi root (record h { memory = m }) × (translate root m vaddr ≡ leaf v)
stored_leaf lo hi root vaddr v h r valid small = (
  written lo hi root h m r (λ i lt. inl (kept i lt)),
  ap (λ e. if is_invalid e then none else leaf (load32 m (slot (table_of e) (vpn0 vaddr))))
        (kept (vpn1 vaddr) (vpn-lt _))
      ∙ ap (λ b. if b then none else leaf (load32 m (slot table (vpn0 vaddr)))) valid
      ∙ ap leaf (load32-store32 h.memory (slot table (vpn0 vaddr)) v small),
)
  where
    entry : ℕ
    entry = load32 h.memory (slot root (vpn1 vaddr))

    table : ℕ
    table = table_of entry

    m : Memory
    m = store32 h.memory (slot table (vpn0 vaddr)) v

    kept : (i : ℕ) → i < 1024 → load32 m (slot root i) ≡ load32 h.memory (slot root i)
    kept i lt =
        root_apart root table i (vpn0 vaddr) v h.memory r.aligned (omega arith)
          (r.apart (vpn1 vaddr) (vpn-lt _) valid) lt (vpn-lt _)

-- What a successful `map_page` leaves: the same root, a sound table, and the address mapped.
pub record Mapped (lo hi vaddr paddr flags : ℕ) (proc proc' : Process) (h' : Heap) : Type 0 where
  pub same_root : proc'.page_table ≡ proc.page_table
  pub rooted : IsRooted lo hi proc'.page_table h'
  pub mapped :
      translate proc'.page_table h'.memory vaddr ≡ some (paddr / page_size * 2 ^ 10 + flags + 1)

-- The rest of `map_page` once there is a second level.
abbrev pub onward : ℕ → ℕ → ℕ → Process × Heap → Result (Process × Heap)
onward vaddr paddr flags r = ok (r.0, write_leaf vaddr paddr flags r.0 r.1)

pub map_page-ensured :
    (vaddr paddr flags : ℕ) (proc : Process) (h : Heap)
    → vaddr % page_size ≡ 0
    → paddr % page_size ≡ 0
    → map_page vaddr paddr flags proc h
      ≡ (ensure_table (vpn1 vaddr) proc h >>= onward vaddr paddr flags)
unfolding map_page
map_page-ensured vaddr paddr flags proc h av ap' =
    let v : is_page vaddr ≡ true = ground arith in
    let p : is_page paddr ≡ true = ground arith in
    let rest = ensure_table (vpn1 vaddr) proc h >>= onward vaddr paddr flags in
    ap
      (λ b.
        if not b
        then panic unaligned_vaddr
        else if not (is_page paddr)
        then panic unaligned_paddr
        else rest)
      v
    ∙ ap (λ b. if not b then panic unaligned_paddr else rest) p

write_leaf-Mapped :
    (lo hi vaddr paddr flags : ℕ) (proc proc' : Process) (h' : Heap)
    → Ensured lo hi (vpn1 vaddr) proc proc' h'
    → paddr < 2 ^ 32
    → flags < 2 ^ 10
    → flags % 2 ≡ 0
    → Mapped lo hi vaddr paddr flags proc proc' (write_leaf vaddr paddr flags proc' h')
unfolding write_leaf
write_leaf-Mapped lo hi vaddr paddr flags proc proc' h' e small lt even =
    let value = entry-eq paddr flags small lt even in
    let (rooted, found) =
      stored_leaf lo hi proc'.page_table vaddr (bit_or (bit_or (ppn paddr) flags) page_v) h'
        (rw e.same_root e.rooted) (rw e.same_root e.valid) (omega (arith, value)) in
    record {
      same_root = e.same_root;
      rooted = rooted;
      mapped =
          found
          ∙ ap (λ b. if b then none else some (bit_or (bit_or (ppn paddr) flags) page_v))
              (odd-valid (bit_or (bit_or (ppn paddr) flags) page_v) (omega (arith, value)))
          ∙ ap some value;
    }

-- `map_page` maps an aligned address to an aligned page with the flags given and the valid bit, as
-- the machine translates it, and keeps the table sound; the only panic is that of the allocator, for
-- want of a page for the second level.
pub map_page_lem :
    (lo hi vaddr paddr flags : ℕ) (proc : Process) (h : Heap)
    → IsRooted lo hi proc.page_table h
    → vaddr % page_size ≡ 0
    → paddr % page_size ≡ 0
    → paddr < 2 ^ 32
    → flags < 2 ^ 10
    → flags % 2 ≡ 0
    → ((proc' : Process) × (h' : Heap) × (map_page vaddr paddr flags proc h ≡ ok (proc', h'))
        × Mapped lo hi vaddr paddr flags proc proc' h')
      ⊎ ((why : Panic) × (map_page vaddr paddr flags proc h ≡ panic why)
          × (alloc_pages 1 h ≡ panic why))
map_page_lem lo hi vaddr paddr flags proc h r av ap' small lt even =
    elim (Result-cases (ensure_table (vpn1 vaddr) proc h)) [
      | inl ((proc', g), e) ↦ inl (
        proc',
        write_leaf vaddr paddr flags proc' g,
        map_page-ensured vaddr paddr flags proc h av ap'
            ∙ ap (λ m. m >>= onward vaddr paddr flags) e,
        write_leaf-Mapped lo hi vaddr paddr flags proc proc' g
            (ensure_table-Ensured lo hi (vpn1 vaddr) proc proc' h g r (vpn-lt _) e) small lt even,
      )
      | inr (why, e) ↦ inr (
        why,
        map_page-ensured vaddr paddr flags proc h av ap'
            ∙ ap (λ m. m >>= onward vaddr paddr flags) e,
        ensure_table-failed (vpn1 vaddr) proc h why e,
      )
    ]

-- `unmap_page` takes an aligned address out of the translation, and keeps the table sound.
pub unmap_page_lem :
    (lo hi vaddr : ℕ) (proc : Process) (h : Heap)
    → IsRooted lo hi proc.page_table h
    → vaddr % page_size ≡ 0
    → (h' : Heap) × (unmap_page vaddr proc h ≡ ok h')
      × IsRooted lo hi proc.page_table h'
      × (translate proc.page_table h'.memory vaddr ≡ none)
unfolding unmap_page
unmap_page_lem lo hi vaddr proc h r av =
    let v : is_page vaddr ≡ true = ground arith in
    elim (Bool-cases (is_invalid entry)) [
      | inl missing ↦ (
        h,
        ap (λ b. if not b then panic unaligned_vaddr else cleared_if (is_invalid entry)) v
            ∙ ap cleared_if missing,
        r,
        ap (λ b. if b then none else leaf (load32 h.memory (slot (table_of entry) (vpn0 vaddr))))
            missing,
      )
      | inr valid ↦
          let (rooted, gone) = stored_leaf lo hi proc.page_table vaddr 0 h r valid (omega arith) in
          (
            cleared,
            ap (λ b. if not b then panic unaligned_vaddr else cleared_if (is_invalid entry)) v
                ∙ ap cleared_if valid,
            rooted,
            gone,
          )
    ]
  where
    entry : ℕ
    entry = load32 h.memory (slot proc.page_table (vpn1 vaddr))

    cleared : Heap
    cleared = record h { memory = store32 h.memory (slot (table_of entry) (vpn0 vaddr)) 0 }

    cleared_if : Bool → Result Heap
    cleared_if b = if b then ok h else ok cleared
