-- ===== src/Paging/Root.antt =====
-- kernel/process.c: the first level of a page table over the pages of the allocator.
use Prim.Native.Nat.{bit_or}
use risc_v_os.Base.{
  ℕ, ◌+◌, ◌*◌, ◌/◌, ◌%◌, ◌^◌, ◌≤◌, ◌<◌, ◌≡◌, ◌≢◌, ◌⊎◌, inl, inr, refl, sym, ap, ◌∙◌, true, false,
  arith, if◌then◌else◌, ◌==◌, Result, ok, panic, Result-cases, Panic, ok-injective, panic-injective,
  Bool-cases, subst, ==→eq,
}
use risc_v_os.Base.Bits.{bit_and-mask, bit_or-low}
use risc_v_os.Memory.{Memory}
use risc_v_os.Allocator.{Heap, alloc_pages, page_size}
use risc_v_os.Allocator.Ownership.{holders}
use risc_v_os.Allocator.Alloc.{alloc_pages-Allocated}
use risc_v_os.Allocator.Reach.{IsOwned, Step-IsOwned, allocate}
use risc_v_os.Paging.{
  Process, load32, store32, page_v, slot, is_invalid, table_of, ppn, ensure_table, make_table,
  keep_region,
}
use risc_v_os.Paging.Words.{load32-store32, load32-store32_apart}

-- The page at `root` is held, and no entry of the table in it leads back to it.
pub record IsRooted (lo hi root : ℕ) (h : Heap) : Type 0 where
  pub owned : IsOwned lo hi h
  pub root_held : 0 < holders root h.regions
  pub aligned : root % page_size ≡ 0
  pub apart :
      (i : ℕ)
      → i < 1024
      → is_invalid (load32 h.memory (slot root i)) ≡ false
      → table_of (load32 h.memory (slot root i)) ≢ root

-- An entry as a number, for a page and even flags.
pub entry-eq :
    (p flags : ℕ)
    → p < 2 ^ 32
    → flags < 2 ^ 10
    → flags % 2 ≡ 0
    → bit_or (bit_or (ppn p) flags) page_v ≡ p / page_size * 2 ^ 10 + flags + 1
entry-eq p flags small lt even =
    let page : ppn p ≡ p / page_size * 2 ^ 10 = omega arith in
    let inner = bit_or-low 10 (ppn p) (p / page_size) flags page lt in
    omega (
      arith,
      inner,
      bit_or-low 1 (bit_or (ppn p) flags) (bit_or (ppn p) flags / 2) 1 (omega (arith, inner))
          (omega arith),
    )

pub pointer-eq : (p : ℕ) → p < 2 ^ 32 → bit_or (ppn p) page_v ≡ p / page_size * 2 ^ 10 + 1
pointer-eq p small =
    let page : ppn p ≡ p / page_size * 2 ^ 10 = omega arith in
    omega (arith, bit_or-low 10 (ppn p) (p / page_size) 1 page (omega arith))

pub odd-valid : (e : ℕ) → e % 2 ≡ 1 → is_invalid e ≡ false
odd-valid e odd = ground (arith, bit_and-mask 1 e)

-- A page that is allocated while another is held.
pub fresh_apart :
    (lo hi root p idx : ℕ) (h h' : Heap)
    → IsRooted lo hi root h
    → alloc_pages 1 h ≡ ok (p, idx, h')
    → (p < 2 ^ 32) × ((p % page_size ≡ 0) × (p ≢ root))
fresh_apart lo hi root p idx h h' r e =
    let a = alloc_pages-Allocated hi 1 p idx h h' r.owned.valid e in
    (
      ground (arith, a.from_vacant p, r.owned.owner p, r.owned.valid.room),
      (a.aligned, ground (arith, a.from_vacant root, r.owned.owner root, r.root_held)),
    )

byte_kept :
    (lo hi root p idx x : ℕ) (h h' : Heap)
    → IsRooted lo hi root h
    → alloc_pages 1 h ≡ ok (p, idx, h')
    → root ≤ x
    → x < root + page_size
    → h'.memory x ≡ h.memory x
byte_kept lo hi root p idx x h h' r e above below =
    let a = alloc_pages-Allocated hi 1 p idx h h' r.owned.valid e in
    let (small, others) = fresh_apart lo hi root p idx h h' r e in
    ground (arith, a.zeroed x, others.0, others.1, r.aligned)

-- The words of the held page are as they were.
root_kept :
    (lo hi root p idx i : ℕ) (h h' : Heap)
    → IsRooted lo hi root h
    → alloc_pages 1 h ≡ ok (p, idx, h')
    → i < 1024
    → load32 h'.memory (slot root i) ≡ load32 h.memory (slot root i)
unfolding load32
root_kept lo hi root p idx i h h' r e lt =
    let x = slot root i in
    rw
      (
        kept x (omega arith) (omega arith),
        kept (x + 1) (omega arith) (omega arith),
        kept (x + 2) (omega arith) (omega arith),
        kept (x + 3) (omega arith) (omega arith),
      )
      refl
  where
    kept : (x : ℕ) → root ≤ x → x < root + page_size → h'.memory x ≡ h.memory x
    kept x le below = byte_kept lo hi root p idx x h h' r e le below

-- A write that leaves the table's entries sound leaves it a table.
pub written :
    (lo hi root : ℕ) (h : Heap) (m : Memory)
    → IsRooted lo hi root h
    → ((i : ℕ)
        → i < 1024
        → (load32 m (slot root i) ≡ load32 h.memory (slot root i))
          ⊎ (table_of (load32 m (slot root i)) ≢ root))
    → IsRooted lo hi root (record h { memory = m })
written lo hi root h m r sound = record {
  owned = record { valid = r.owned.valid; owner = r.owned.owner };
  root_held = r.root_held;
  aligned = r.aligned;
  apart = λ i lt ok_entry. elim (sound i lt) [
    | inl same ↦
        λ e. r.apart i lt (ap is_invalid (sym same) ∙ ok_entry) (ap table_of (sym same) ∙ e)
    | inr ne ↦ ne
  ];
}

allocated :
    (lo hi root p idx : ℕ) (h h' : Heap)
    → IsRooted lo hi root h
    → alloc_pages 1 h ≡ ok (p, idx, h')
    → IsRooted lo hi root h'
allocated lo hi root p idx h h' r e =
    let a = alloc_pages-Allocated hi 1 p idx h h' r.owned.valid e in
    record {
      owned = Step-IsOwned lo hi (allocate 1 p idx e) r.owned;
      root_held = omega (arith, a.to_holder root, r.root_held);
      aligned = r.aligned;
      apart = λ i lt valid eq.
          r.apart i lt (ap is_invalid (sym (root_kept lo hi root p idx i h h' r e lt)) ∙ valid)
            (ap table_of (sym (root_kept lo hi root p idx i h h' r e lt)) ∙ eq);
    }

-- What `ensure_table` leaves: a valid entry, in a table that is sound.
pub record Ensured (lo hi vpn : ℕ) (proc : Process) (proc' : Process) (h' : Heap) : Type 0 where
  pub same_root : proc'.page_table ≡ proc.page_table
  pub rooted : IsRooted lo hi proc.page_table h'
  pub valid : is_invalid (load32 h'.memory (slot proc.page_table vpn)) ≡ false

pub make_table-Ensured :
    (lo hi vpn p idx : ℕ) (proc : Process) (h h' : Heap)
    → IsRooted lo hi proc.page_table h
    → vpn < 1024
    → alloc_pages 1 h ≡ ok (p, idx, h')
    → Ensured lo hi vpn proc (keep_region idx proc) (record h' {
      memory = store32 h'.memory (slot proc.page_table vpn) (bit_or (ppn p) page_v);
    })
make_table-Ensured lo hi vpn p idx proc h h' r lt e = record {
  same_root = refl;
  rooted = written lo hi root h' _ (allocated lo hi root p idx h h' r e) (λ i below.
      elim (Bool-cases (i == vpn)) [
        | inl same ↦ inr (λ q. facts.1.1 (sym (leads i (==→eq i vpn same)) ∙ q))
        | inr other ↦
            inl (load32-store32_apart h'.memory (slot root vpn) (slot root i) _ (ground arith))
      ]);
  valid = rw stored (odd-valid _ (omega (arith, entry)));
}
  where
    root : ℕ
    root = proc.page_table

    facts : (p < 2 ^ 32) × ((p % page_size ≡ 0) × (p ≢ root))
    facts = fresh_apart lo hi root p idx h h' r e

    entry : bit_or (ppn p) page_v ≡ p / page_size * 2 ^ 10 + 1
    entry = pointer-eq p facts.0

    stored :
        load32 (store32 h'.memory (slot root vpn) (bit_or (ppn p) page_v)) (slot root vpn)
        ≡ bit_or (ppn p) page_v
    stored =
        load32-store32 h'.memory (slot root vpn) (bit_or (ppn p) page_v)
          (omega (arith, entry, facts.0))

    leads :
        (i : ℕ)
        → i ≡ vpn
        → table_of
            (load32 (store32 h'.memory (slot root vpn) (bit_or (ppn p) page_v)) (slot root i))
          ≡ p
    leads i same =
        ap
          (λ k.
            table_of
              (load32 (store32 h'.memory (slot root vpn) (bit_or (ppn p) page_v)) (slot root k)))
          same
        ∙ ap table_of stored
        ∙ omega (arith, entry, facts)

pub make_table-failed :
    (vpn : ℕ) (proc : Process) (h : Heap) (why : Panic)
    → alloc_pages 1 h ≡ panic why
    → make_table vpn proc h ≡ panic why
unfolding make_table
make_table-failed vpn proc h why failed = rw failed refl

pub make_table-done :
    (vpn p idx : ℕ) (proc : Process) (h g : Heap)
    → alloc_pages 1 h ≡ ok (p, idx, g)
    → make_table vpn proc h
      ≡ ok (
        keep_region idx proc,
        record g { memory = store32 g.memory (slot proc.page_table vpn) (bit_or (ppn p) page_v) },
      )
unfolding make_table
make_table-done vpn p idx proc h g done = rw done refl

pub ensure_table-missing :
    (vpn : ℕ) (proc : Process) (h : Heap)
    → is_invalid (load32 h.memory (slot proc.page_table vpn)) ≡ true
    → ensure_table vpn proc h ≡ make_table vpn proc h
unfolding ensure_table
ensure_table-missing vpn proc h missing =
    ap (λ b. if b then make_table vpn proc h else ok (proc, h)) missing

-- Where `ensure_table` returns, the entry of the first level is valid and the table is sound.
pub ensure_table-Ensured :
    (lo hi vpn : ℕ) (proc proc' : Process) (h h' : Heap)
    → IsRooted lo hi proc.page_table h
    → vpn < 1024
    → ensure_table vpn proc h ≡ ok (proc', h')
    → Ensured lo hi vpn proc proc' h'
unfolding ensure_table
ensure_table-Ensured lo hi vpn proc proc' h h' r lt e =
    elim (Bool-cases (is_invalid (load32 h.memory (slot proc.page_table vpn)))) [
      | inr valid ↦
          subst (λ (t : Process × Heap). Ensured lo hi vpn proc t.0 t.1)
            (ok-injective
              (sym (ap (λ b. if b then make_table vpn proc h else ok (proc, h)) valid) ∙ e))
            (record { same_root = refl; rooted = r; valid = valid })
      | inl missing ↦ elim (Result-cases (alloc_pages 1 h)) [
        | inr (why, failed) ↦
            let bad : ◌≡◌ {A = Result (Process × Heap)} (panic why) (ok (proc', h')) =
              sym
                (ensure_table-missing vpn proc h missing ∙ make_table-failed vpn proc h why failed)
              ∙ e in
            cc
        | inl ((p, idx, g), done) ↦
            subst (λ (t : Process × Heap). Ensured lo hi vpn proc t.0 t.1)
              (ok-injective (
                sym (
                  ensure_table-missing vpn proc h missing ∙ make_table-done vpn p idx proc h g done)
                ∙ e))
              (make_table-Ensured lo hi vpn p idx proc h g r lt done)
      ]
    ]

-- The panic of `ensure_table` is that of the allocator.
pub ensure_table-failed :
    (vpn : ℕ) (proc : Process) (h : Heap) (why : Panic)
    → ensure_table vpn proc h ≡ panic why
    → alloc_pages 1 h ≡ panic why
unfolding ensure_table
ensure_table-failed vpn proc h why e =
    elim (Bool-cases (is_invalid (load32 h.memory (slot proc.page_table vpn)))) [
      | inr valid ↦
          let bad : ◌≡◌ {A = Result (Process × Heap)} (ok (proc, h)) (panic why) =
            sym (ap (λ b. if b then make_table vpn proc h else ok (proc, h)) valid) ∙ e in
          cc
      | inl missing ↦ elim (Result-cases (alloc_pages 1 h)) [
        | inr (other, failed) ↦
            failed
            ∙ ap panic (
                panic-injective (
                  sym (
                    ensure_table-missing vpn proc h missing
                    ∙ make_table-failed vpn proc h other failed)
                  ∙ e))
        | inl ((p, idx, g), done) ↦
            let bad =
              sym
                (ensure_table-missing vpn proc h missing ∙ make_table-done vpn p idx proc h g done)
              ∙ e in
            cc
      ]
    ]
