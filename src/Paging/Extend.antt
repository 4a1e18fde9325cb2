-- ===== src/Paging/Extend.antt =====
-- kernel/process.c: what `map_page` leaves alone.
use Prim.Native.Nat.{bit_or}
use risc_v_os.Base.{
  ℕ, ◌+◌, ◌%◌, ◌^◌, ◌≤◌, ◌<◌, ◌≡◌, ◌≢◌, ◌⊎◌, inl, inr, refl, sym, ap, ◌∙◌, true, if◌then◌else◌, ok,
  panic, Result, Result-cases, Bool-cases, subst, ok-injective, ◌>>=◌,
}
use risc_v_os.Allocator.{Heap, alloc_pages, page_size}
use risc_v_os.Paging.{
  Process, load32, store32, page_v, slot, is_invalid, ppn, vpn1, vpn0, ensure_table, make_table,
  map_page, write_leaf,
}
use risc_v_os.Paging.Root.{
  make_table-done, make_table-failed, ensure_table-missing, ensure_table-Ensured,
}
use risc_v_os.Paging.Mapping.{vpn-lt, onward, map_page-ensured}
use risc_v_os.Paging.Tree.{
  entry, IsUsed, IsTree, IsData, fresh_page, fresh-ne-held, fresh-SamePage, fresh_zero, entry_kept,
}
use risc_v_os.Paging.Keeps.{Keeps, Keeps-trans, Keeps-weaken, fresh-Keeps, fresh-IsData, leaf-Keeps}
use risc_v_os.Paging.Frame.{linked-IsTree, linked-IsData, linked-below, linked-translate}

abbrev pub AnyAddress : ℕ → Type 0
AnyAddress _ = Unit

-- The address lies in another page of the address space.
abbrev pub OtherPage : ℕ → ℕ → Type 0
OtherPage vaddr v = (vpn1 v ≢ vpn1 vaddr) ⊎ (vpn0 v ≢ vpn0 vaddr)

make_table-Keeps :
    (lo hi root vpn p idx : ℕ) (h g : Heap)
    → IsTree lo hi root h
    → vpn < 1024
    → is_invalid (entry h.memory root vpn) ≡ true
    → alloc_pages 1 h ≡ ok (p, idx, g)
    → Keeps lo hi root AnyAddress h
        (record g { memory = store32 g.memory (slot root vpn) (bit_or (ppn p) page_v) })
make_table-Keeps lo hi root vpn p idx h g t lt unused e = record {
  tree = linked-IsTree lo hi root p vpn g tree unlinked small lt missing zeros;
  pages = λ q d.
      let (d', same) = fresh.pages q d in
      let (d'', same') =
        linked-IsData lo hi root p vpn g tree unlinked small lt missing zeros q d'
          (fresh-ne-held lo hi p idx h g t.rooted.owned e q d.is_held) in
      (d'', λ x above below. same' x above below ∙ same x above below);
  low = λ x below.
      linked-below lo hi root p vpn g tree unlinked small lt missing zeros x below
      ∙ fresh.low x below;
  translations = λ v s.
      linked-translate lo hi root p vpn g tree unlinked small lt missing zeros v
      ∙ fresh.translations v s;
}
  where
    fresh : Keeps lo hi root AnyAddress h g
    fresh = fresh-Keeps lo hi root p idx h g g.memory t e (λ _ _. refl)

    tree : IsTree lo hi root g
    tree = fresh.tree

    unlinked : IsData root p g
    unlinked = fresh-IsData lo hi root p idx h g g.memory t e (λ _ _. refl)

    small : p < 2 ^ 32
    small = (fresh_page lo hi p idx h g t.rooted.owned e).1

    zeros : (x : ℕ) → p ≤ x → x < p + page_size → g.memory x ≡ 0
    zeros = fresh_zero lo hi p idx h g t.rooted.owned e

    missing : is_invalid (entry g.memory root vpn) ≡ true
    missing =
        ap is_invalid (
          entry_kept h.memory g.memory root vpn
            (fresh-SamePage lo hi p idx h g t.rooted.owned e root t.rooted.aligned
              (fresh-ne-held lo hi p idx h g t.rooted.owned e root t.rooted.root_held))
            lt)
        ∙ unused

ensure_table-Keeps :
    (lo hi vpn : ℕ) (proc proc' : Process) (h h' : Heap)
    → IsTree lo hi proc.page_table h
    → vpn < 1024
    → ensure_table vpn proc h ≡ ok (proc', h')
    → Keeps lo hi proc.page_table AnyAddress h h'
unfolding ensure_table
ensure_table-Keeps lo hi vpn proc proc' h h' t lt e =
    elim (Bool-cases (is_invalid (load32 h.memory (slot proc.page_table vpn)))) [
      | inr valid ↦
          subst (λ (r : Process × Heap). Keeps lo hi proc.page_table AnyAddress h r.1)
            (ok-injective
              (sym (ap (λ b. if b then make_table vpn proc h else ok (proc, h)) valid) ∙ e))
            (record {
              tree = t;
              pages = λ q d. (d, λ _ _ _. refl);
              low = λ _ _. refl;
              translations = λ _ _. refl;
            })
      | inl missing ↦ elim (Result-cases (alloc_pages 1 h)) [
        | inr (why, failed) ↦
            let bad : ◌≡◌ {A = Result (Process × Heap)} (panic why) (ok (proc', h')) =
              sym
                (ensure_table-missing vpn proc h missing ∙ make_table-failed vpn proc h why failed)
              ∙ e in
            cc
        | inl ((p, idx, g), done) ↦
            subst (λ (r : Process × Heap). Keeps lo hi proc.page_table AnyAddress h r.1)
              (ok-injective (
                sym (
                  ensure_table-missing vpn proc h missing ∙ make_table-done vpn p idx proc h g done)
                ∙ e))
              (make_table-Keeps lo hi proc.page_table vpn p idx h g t lt missing done)
      ]
    ]

write_leaf-Keeps :
    (lo hi vaddr paddr flags : ℕ) (proc : Process) (h : Heap)
    → IsTree lo hi proc.page_table h
    → IsUsed h.memory proc.page_table (vpn1 vaddr)
    → Keeps lo hi proc.page_table (OtherPage vaddr) h (write_leaf vaddr paddr flags proc h)
unfolding write_leaf
write_leaf-Keeps lo hi vaddr paddr flags proc h t used =
    leaf-Keeps lo hi proc.page_table vaddr (bit_or (bit_or (ppn paddr) flags) page_v) h t used

-- `map_page` with an aligned address and an aligned page, where it returns, changes the translation
-- of no address in another page, keeps every page that the allocator has handed out for anything but
-- the table, with its bytes, and all memory below the allocator's; the table stays sound, its second
-- levels pages of their own.
pub map_page-Keeps :
    (lo hi vaddr paddr flags : ℕ) (proc proc' : Process) (h h' : Heap)
    → IsTree lo hi proc.page_table h
    → vaddr % page_size ≡ 0
    → paddr % page_size ≡ 0
    → map_page vaddr paddr flags proc h ≡ ok (proc', h')
    → Keeps lo hi proc.page_table (OtherPage vaddr) h h'
map_page-Keeps lo hi vaddr paddr flags proc proc' h h' t av ap' e =
    elim (Result-cases (ensure_table (vpn1 vaddr) proc h)) [
      | inr (why, failed) ↦
          let bad : ◌≡◌ {A = Result (Process × Heap)} (panic why) (ok (proc', h')) =
            sym (
              map_page-ensured vaddr paddr flags proc h av ap'
              ∙ ap (λ m. m >>= onward vaddr paddr flags) failed)
            ∙ e in
          cc
      | inl ((q, g), done) ↦
          let ensured =
            ensure_table-Ensured lo hi (vpn1 vaddr) proc q h g t.rooted (vpn-lt _) done in
          let before = ensure_table-Keeps lo hi (vpn1 vaddr) proc q h g t (vpn-lt _) done in
          subst (λ (r : Process × Heap). Keeps lo hi proc.page_table (OtherPage vaddr) h r.1)
            (ok-injective (
              sym (
                map_page-ensured vaddr paddr flags proc h av ap'
                ∙ ap (λ m. m >>= onward vaddr paddr flags) done)
              ∙ e))
            (Keeps-trans lo hi proc.page_table (OtherPage vaddr) h g
              (write_leaf vaddr paddr flags q g)
              (Keeps-weaken lo hi proc.page_table AnyAddress (OtherPage vaddr) h g (λ _ _. tt)
                before)
              (subst (λ r. Keeps lo hi r (OtherPage vaddr) g (write_leaf vaddr paddr flags q g))
                ensured.same_root
                (write_leaf-Keeps lo hi vaddr paddr flags q g
                  (subst (λ r. IsTree lo hi r g) (sym ensured.same_root) before.tree)
                  (subst (λ r. IsUsed g.memory r (vpn1 vaddr)) (sym ensured.same_root)
                    ensured.valid))))
    ]
