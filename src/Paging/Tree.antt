-- ===== src/Paging/Tree.antt =====
-- kernel/process.c: a page table with its second levels, and the pages that it shares memory with.
use risc_v_os.Base.{
  ℕ, ◌+◌, ◌%◌, ◌^◌, ◌≤◌, ◌<◌, ◌≡◌, ◌≢◌, inl, inr, refl, sym, ap, ◌∙◌, false, arith, if◌then◌else◌,
  ok, Bool-cases, none,
}
use risc_v_os.Memory.{Memory}
use risc_v_os.Allocator.{Heap, alloc_pages, page_size}
use risc_v_os.Allocator.Ownership.{holders}
use risc_v_os.Allocator.Calls.{Allocated}
use risc_v_os.Allocator.Alloc.{alloc_pages-Allocated}
use risc_v_os.Allocator.Reach.{IsOwned, Step-IsOwned, allocate}
use risc_v_os.Paging.{load32, slot, is_invalid, table_of, vpn1, vpn0}
use risc_v_os.Paging.Words.{load32-ext}
use risc_v_os.Paging.Root.{IsRooted}
use risc_v_os.Paging.Mapping.{translate, leaf, vpn-lt}

-- Two memories agree on the page at `q`.
abbrev pub SamePage : Memory → Memory → ℕ → Type 0
SamePage m n q = (x : ℕ) → q ≤ x → x < q + page_size → n x ≡ m x

-- Entry `i` of the first level, and whether it leads to a second.
abbrev pub entry : Memory → ℕ → ℕ → ℕ
entry m root i = load32 m (slot root i)

abbrev pub IsUsed : Memory → ℕ → ℕ → Type 0
IsUsed m root i = is_invalid (entry m root i) ≡ false

-- A sound table whose second levels are pages of their own, held by the allocator.
pub record IsTree (lo hi root : ℕ) (h : Heap) : Type 0 where
  pub rooted : IsRooted lo hi root h
  pub tables_held :
      (i : ℕ)
      → i < 1024
      → IsUsed h.memory root i
      → 0 < holders (table_of (entry h.memory root i)) h.regions
  pub distinct :
      (i j : ℕ)
      → i < 1024
      → j < 1024
      → i ≢ j
      → IsUsed h.memory root i
      → IsUsed h.memory root j
      → table_of (entry h.memory root i) ≢ table_of (entry h.memory root j)

-- A held page that is no part of the table.
pub record IsData (root p : ℕ) (h : Heap) : Type 0 where
  pub aligned : p % page_size ≡ 0
  pub is_held : 0 < holders p h.regions
  pub not_root : p ≢ root
  pub not_table : (i : ℕ) → i < 1024 → IsUsed h.memory root i → table_of (entry h.memory root i) ≢ p

-- A page that is allocated is a page apart from every page that is held.
module _ (lo hi p idx : ℕ) (h g : Heap) (o : IsOwned lo hi h)
    (e : alloc_pages 1 h ≡ ok (p, idx, g)) where
  facts : Allocated hi 1 h p idx g
  facts = alloc_pages-Allocated hi 1 p idx h g o.valid e

  pub fresh_page : (p % page_size ≡ 0) × (p < 2 ^ 32) × (lo ≤ p) × (0 < holders p g.regions)
  fresh_page =
      let owner = o.owner p in
      (
        facts.aligned,
        ground (arith, facts.from_vacant p, owner, o.valid.room),
        ground (arith, facts.from_vacant p, owner),
        ground (arith, facts.to_holder p),
      )

  pub fresh-ne-held : (q : ℕ) → 0 < holders q h.regions → p ≢ q
  fresh-ne-held q is_held = ground (arith, facts.from_vacant q, o.owner q)

  pub held_still : (q : ℕ) → 0 < holders q h.regions → 0 < holders q g.regions
  held_still q is_held = omega (arith, facts.to_holder q)

  pub fresh-SamePage : (q : ℕ) → q % page_size ≡ 0 → p ≢ q → SamePage h.memory g.memory q
  fresh-SamePage q aligned ne x above below = ground (arith, facts.zeroed x, facts.aligned)

  pub below_kept : (x : ℕ) → x < lo → g.memory x ≡ h.memory x
  below_kept x below = let ge = fresh_page.2 in ground (arith, facts.zeroed x)

  pub fresh-IsOwned : IsOwned lo hi g
  fresh-IsOwned = Step-IsOwned lo hi (allocate 1 p idx e) o

  pub fresh_zero : (x : ℕ) → p ≤ x → x < p + page_size → g.memory x ≡ 0
  fresh_zero x above below = ground (arith, facts.zeroed x)

pub entry_kept :
    (m n : Memory) (q i : ℕ) → SamePage m n q → i < 1024 → load32 n (slot q i) ≡ load32 m (slot q i)
entry_kept m n q i same lt =
    load32-ext m n (slot q i) (λ x above below. same x (omega arith) (omega arith))

-- The machine reads one word of each level.
pub translate-ext :
    (root v : ℕ) (m n : Memory)
    → entry n root (vpn1 v) ≡ entry m root (vpn1 v)
    → (IsUsed m root (vpn1 v)
        → load32 n (slot (table_of (entry m root (vpn1 v))) (vpn0 v))
          ≡ load32 m (slot (table_of (entry m root (vpn1 v))) (vpn0 v)))
    → translate root n v ≡ translate root m v
translate-ext root v m n first second =
    ap (λ w. if is_invalid w then none else leaf (load32 n (slot (table_of w) (vpn0 v)))) first
    ∙ elim (Bool-cases (is_invalid (entry m root (vpn1 v)))) [
      | inl unused ↦ rw unused refl
      | inr used ↦
          ap (λ w. if is_invalid (entry m root (vpn1 v)) then none else leaf w) (second used)
    ]

-- A change of memory that spares the first level, with every holder kept.
module _ (lo hi root : ℕ) (h g : Heap) (same : SamePage h.memory g.memory root)
    (held : (q : ℕ) → 0 < holders q h.regions → 0 < holders q g.regions) where
  kept : (i : ℕ) → i < 1024 → entry g.memory root i ≡ entry h.memory root i
  kept i lt = entry_kept h.memory g.memory root i same lt

  present_before : (i : ℕ) → i < 1024 → IsUsed g.memory root i → IsUsed h.memory root i
  present_before i lt used = sym (ap is_invalid (kept i lt)) ∙ used

  pub spared-IsTree : IsOwned lo hi g → IsTree lo hi root h → IsTree lo hi root g
  spared-IsTree o t = record {
    rooted = record {
      owned = o;
      root_held = held root t.rooted.root_held;
      aligned = t.rooted.aligned;
      apart = λ i lt used eq.
          t.rooted.apart i lt (present_before i lt used) (sym (ap table_of (kept i lt)) ∙ eq);
    };
    tables_held =
        λ i lt used. rw (kept i lt) (held _ (t.tables_held i lt (present_before i lt used)));
    distinct = λ i j li lj ne ui uj eq.
        t.distinct i j li lj ne (present_before i li ui) (present_before j lj uj)
          (sym (ap table_of (kept i li)) ∙ eq ∙ ap table_of (kept j lj));
  }

  pub spared-IsData : (p : ℕ) → IsData root p h → IsData root p g
  spared-IsData p d = record {
    aligned = d.aligned;
    is_held = held p d.is_held;
    not_root = d.not_root;
    not_table = λ i lt used eq.
        d.not_table i lt (present_before i lt used) (sym (ap table_of (kept i lt)) ∙ eq);
  }

  -- Where the second levels are spared too, every translation is.
  pub spared-translate :
      (v : ℕ)
      → (IsUsed h.memory root (vpn1 v)
          → SamePage h.memory g.memory (table_of (entry h.memory root (vpn1 v))))
      → translate root g.memory v ≡ translate root h.memory v
  spared-translate v second =
      translate-ext root v h.memory g.memory (kept (vpn1 v) (vpn-lt _))
        (λ used. entry_kept h.memory g.memory _ (vpn0 v) (second used) (vpn-lt _))
