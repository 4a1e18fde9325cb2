-- ===== src/Paging/Keeps.antt =====
-- kernel/process.c: what the steps of `map_page` leave alone.
use risc_v_os.Base.{
  ℕ, ◌+◌, ◌%◌, ◌≤◌, ◌<◌, ◌≡◌, ◌≢◌, ◌⊎◌, inl, inr, sym, ap, ◌∙◌, arith, ◌==◌, ok, Bool-cases, ==→eq,
}
use risc_v_os.Memory.{Memory}
use risc_v_os.Allocator.{Heap, alloc_pages, page_size}
use risc_v_os.Allocator.Ownership.{holders}
use risc_v_os.Allocator.Reach.{IsOwned}
use risc_v_os.Paging.{load32, store32, slot, is_invalid, table_of, vpn1, vpn0}
use risc_v_os.Paging.Words.{load32-store32_apart, store32_elsewhere}
use risc_v_os.Paging.Mapping.{translate, vpn-lt}
use risc_v_os.Paging.Tree.{
  SamePage, entry, IsUsed, IsTree, IsData, fresh_page, fresh-ne-held, held_still, fresh-SamePage,
  below_kept, fresh-IsOwned, entry_kept, translate-ext, spared-IsTree, spared-IsData,
  spared-translate,
}

-- A step that keeps the table sound, the pages of data and their bytes, the memory below the
-- allocator's, and the translation of every spared address.
pub record Keeps (lo hi root : ℕ) (IsSpared : ℕ → Type 0) (h g : Heap) : Type 0 where
  pub tree : IsTree lo hi root g
  pub pages : (p : ℕ) → IsData root p h → IsData root p g × SamePage h.memory g.memory p
  pub low : (x : ℕ) → x < lo → g.memory x ≡ h.memory x
  pub translations : (v : ℕ) → IsSpared v → translate root g.memory v ≡ translate root h.memory v

pub Keeps-trans :
    (lo hi root : ℕ) (IsSpared : ℕ → Type 0) (h g k : Heap)
    → Keeps lo hi root IsSpared h g
    → Keeps lo hi root IsSpared g k
    → Keeps lo hi root IsSpared h k
Keeps-trans lo hi root IsSpared h g k a b = record {
  tree = b.tree;
  pages = λ p d.
      let (d', same) = a.pages p d in
      let (d'', same') = b.pages p d' in
      (d'', λ x above below. same' x above below ∙ same x above below);
  low = λ x below. b.low x below ∙ a.low x below;
  translations = λ v s. b.translations v s ∙ a.translations v s;
}

pub Keeps-weaken :
    (lo hi root : ℕ) (S T : ℕ → Type 0) (h g : Heap)
    → ((v : ℕ) → T v → S v)
    → Keeps lo hi root S h g
    → Keeps lo hi root T h g
Keeps-weaken lo hi root S T h g fewer k = record {
  tree = k.tree;
  pages = k.pages;
  low = k.low;
  translations = λ v s. k.translations v (fewer v s);
}

-- Two pages share no byte, nor a word of one with the other.
pub word_elsewhere :
    (q t j v : ℕ) (m : Memory)
    → q % page_size ≡ 0
    → t % page_size ≡ 0
    → t ≢ q
    → j < 1024
    → SamePage m (store32 m (slot t j) v) q
word_elsewhere q t j v m aq at ne lt x above below =
    store32_elsewhere m (slot t j) v x (ground arith)

pub lo-le-held : (lo hi q : ℕ) (h : Heap) → IsOwned lo hi h → 0 < holders q h.regions → lo ≤ q
lo-le-held lo hi q h o is_held = ground (arith, o.owner q)

-- A new page, with whatever is then written in it.
module _ (lo hi root p idx : ℕ) (h g : Heap) (m : Memory) (t : IsTree lo hi root h)
    (e : alloc_pages 1 h ≡ ok (p, idx, g))
    (filled : (x : ℕ) → (x < p) ⊎ (p + page_size ≤ x) → m x ≡ g.memory x) where
  abbrev pub filled_heap : Heap
  filled_heap = record g { memory = m }

  o : IsOwned lo hi h
  o = t.rooted.owned

  others : (q : ℕ) → q % page_size ≡ 0 → 0 < holders q h.regions → SamePage h.memory m q
  others q aligned is_held x above below =
      let facts = fresh_page lo hi p idx h g o e in
      let ne = fresh-ne-held lo hi p idx h g o e q is_held in
      filled x (ground arith) ∙ fresh-SamePage lo hi p idx h g o e q aligned ne x above below

  pub fresh-Keeps : Keeps lo hi root (λ _. Unit {0}) h filled_heap
  fresh-Keeps = record {
    tree =
        spared-IsTree lo hi root h filled_heap sparing (held_still lo hi p idx h g o e)
          (let w = fresh-IsOwned lo hi p idx h g o e in record { valid = w.valid; owner = w.owner })
          t;
    pages = λ q d. (
      spared-IsData lo hi root h filled_heap sparing (held_still lo hi p idx h g o e) q d,
      others q d.aligned d.is_held,
    );
    low = λ x below.
        let facts = fresh_page lo hi p idx h g o e in
        filled x (omega arith) ∙ below_kept lo hi p idx h g o e x below;
    translations = λ v _.
        spared-translate lo hi root h filled_heap sparing (held_still lo hi p idx h g o e) v
          (λ used. others _ (omega arith) (t.tables_held (vpn1 v) (vpn-lt _) used));
  }
    where
      sparing : SamePage h.memory m root
      sparing = others root t.rooted.aligned t.rooted.root_held

  pub fresh-IsData : IsData root p filled_heap
  fresh-IsData =
      let facts = fresh_page lo hi p idx h g o e in
      record {
        aligned = facts.0;
        is_held = facts.3;
        not_root = fresh-ne-held lo hi p idx h g o e root t.rooted.root_held;
        not_table = λ i lt used eq.
            let same =
              entry_kept h.memory m root i (others root t.rooted.aligned t.rooted.root_held) lt in
            fresh-ne-held lo hi p idx h g o e (table_of (entry h.memory root i))
              (t.tables_held i lt (sym (ap is_invalid same) ∙ used)) (sym eq ∙ ap table_of same);
      }

-- Storing a leaf where the first level leads spares every address of another page.
module _ (lo hi root vaddr value : ℕ) (h : Heap) (t : IsTree lo hi root h)
    (used : IsUsed h.memory root (vpn1 vaddr)) where
  abbrev pub leaf_table : ℕ
  leaf_table = table_of (entry h.memory root (vpn1 vaddr))

  abbrev pub after_leaf : Heap
  after_leaf = record h { memory = store32 h.memory (slot leaf_table (vpn0 vaddr)) value }

  elsewhere : (q : ℕ) → q % page_size ≡ 0 → leaf_table ≢ q → SamePage h.memory after_leaf.memory q
  elsewhere q aligned ne =
      word_elsewhere q leaf_table (vpn0 vaddr) value h.memory aligned (omega arith) ne (vpn-lt _)

  sparing : SamePage h.memory after_leaf.memory root
  sparing = elsewhere root t.rooted.aligned (t.rooted.apart (vpn1 vaddr) (vpn-lt _) used)

  pub leaf-Keeps :
      Keeps lo hi root (λ v. (vpn1 v ≢ vpn1 vaddr) ⊎ (vpn0 v ≢ vpn0 vaddr)) h after_leaf
  leaf-Keeps = record {
    tree =
        spared-IsTree lo hi root h after_leaf sparing (λ q held. held)
          (record { valid = t.rooted.owned.valid; owner = t.rooted.owned.owner }) t;
    pages = λ q d. (
      spared-IsData lo hi root h after_leaf sparing (λ q' held. held) q d,
      elsewhere q d.aligned (d.not_table (vpn1 vaddr) (vpn-lt _) used),
    );
    low = λ x below.
        let ge =
          lo-le-held lo hi leaf_table h t.rooted.owned
            (t.tables_held (vpn1 vaddr) (vpn-lt _) used) in
        store32_elsewhere h.memory (slot leaf_table (vpn0 vaddr)) value x (omega arith);
    translations = λ v spared.
        translate-ext root v h.memory after_leaf.memory
          (entry_kept h.memory after_leaf.memory root (vpn1 v) sparing (vpn-lt _))
          (λ used_v. elim (Bool-cases (vpn1 v == vpn1 vaddr)) [
            | inr other ↦
                entry_kept h.memory after_leaf.memory _ (vpn0 v)
                  (elsewhere _ (omega arith) (
                    t.distinct (vpn1 vaddr) (vpn1 v) (vpn-lt _) (vpn-lt _) (ground arith) used
                      used_v))
                  (vpn-lt _)
            | inl same ↦
                let at = ==→eq (vpn1 v) (vpn1 vaddr) same in
                ap
                  (λ i. load32 after_leaf.memory (slot (table_of (entry h.memory root i)) (vpn0 v)))
                  at
                ∙ load32-store32_apart h.memory (slot leaf_table (vpn0 vaddr))
                    (slot leaf_table (vpn0 v)) value (ground (arith, spared))
                ∙ sym (
                    ap (λ i. load32 h.memory (slot (table_of (entry h.memory root i)) (vpn0 v))) at)
          ]);
  }
