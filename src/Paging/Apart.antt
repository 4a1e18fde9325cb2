-- ===== src/Paging/Apart.antt =====
-- kernel/process.c: the page tables of two processes.
use risc_v_os.Base.{ℕ, ◌%◌, ◌<◌, ◌≡◌, sym, ap, ◌∙◌, arith, ok, subst}
use risc_v_os.Allocator.{Heap, page_size}
use risc_v_os.Paging.{Process, is_invalid, table_of, vpn1, vpn0, map_page}
use risc_v_os.Paging.Mapping.{translate, vpn-lt}
use risc_v_os.Paging.Tree.{entry, IsUsed, IsTree, IsData, entry_kept, translate-ext}
use risc_v_os.Paging.Keeps.{Keeps}
use risc_v_os.Paging.Extend.{OtherPage, map_page-Keeps}

-- No page of the table at `other` is a page of the table at `root`.
pub record IsApart (root other : ℕ) (h : Heap) : Type 0 where
  pub first_level : IsData root other h
  pub second_level :
      (i : ℕ)
      → i < 1024
      → IsUsed h.memory other i
      → IsData root (table_of (entry h.memory other i)) h

pub IsApart-sym :
    (lo hi root other : ℕ) (h : Heap)
    → IsTree lo hi root h
    → IsApart root other h
    → IsApart other root h
IsApart-sym lo hi root other h t a = record {
  first_level = record {
    aligned = t.rooted.aligned;
    is_held = t.rooted.root_held;
    not_root = λ e. a.first_level.not_root (sym e);
    not_table = λ i lt used. (a.second_level i lt used).not_root;
  };
  second_level = λ j lt used. record {
    aligned = omega arith;
    is_held = t.tables_held j lt used;
    not_root = a.first_level.not_table j lt used;
    not_table = λ i below in_use e. (a.second_level i below in_use).not_table j lt used (sym e);
  };
}

module _ (lo hi root other : ℕ) (Spared : ℕ → Type 0) (h g : Heap) (k : Keeps lo hi root Spared h g)
    (t : IsTree lo hi other h) (a : IsApart root other h) where
  same : (i : ℕ) → i < 1024 → entry g.memory other i ≡ entry h.memory other i
  same i lt = entry_kept h.memory g.memory other i (k.pages other a.first_level).1 lt

  was_present : (i : ℕ) → i < 1024 → IsUsed g.memory other i → IsUsed h.memory other i
  was_present i lt used = sym (ap is_invalid (same i lt)) ∙ used

  second :
      (i : ℕ)
      → i < 1024
      → IsUsed g.memory other i
      → IsData root (table_of (entry g.memory other i)) g
  second i lt used =
      subst (λ w. IsData root (table_of w) g) (sym (same i lt))
        (k.pages _ (a.second_level i lt (was_present i lt used))).0

  pub extended-IsApart : IsApart root other g
  extended-IsApart = record { first_level = (k.pages other a.first_level).0; second_level = second }

  pub apart-IsTree : IsTree lo hi other g
  apart-IsTree = record {
    rooted = record {
      owned = k.tree.rooted.owned;
      root_held = (k.pages other a.first_level).0.is_held;
      aligned = t.rooted.aligned;
      apart = λ i lt used e.
          t.rooted.apart i lt (was_present i lt used) (sym (ap table_of (same i lt)) ∙ e);
    };
    tables_held = λ i lt used. (second i lt used).is_held;
    distinct = λ i j li lj ne ui uj e.
        t.distinct i j li lj ne (was_present i li ui) (was_present j lj uj)
          (sym (ap table_of (same i li)) ∙ e ∙ ap table_of (same j lj));
  }

  pub apart-translate : (v : ℕ) → translate other g.memory v ≡ translate other h.memory v
  apart-translate v = translate-ext other v h.memory g.memory (same (vpn1 v) (vpn-lt _)) (λ used.
      entry_kept h.memory g.memory _ (vpn0 v)
        (k.pages _ (a.second_level (vpn1 v) (vpn-lt _) used)).1 (vpn-lt _))

-- Where the tables of two processes share no page, a `map_page` that returns for the one, at an
-- aligned address and for an aligned page, changes the translation of no address for the other, whose
-- table stays sound; and the two tables share no page after it either.
pub map_page-isolated :
    (lo hi vaddr paddr flags other : ℕ) (proc proc' : Process) (h h' : Heap)
    → IsTree lo hi proc.page_table h
    → IsTree lo hi other h
    → IsApart proc.page_table other h
    → vaddr % page_size ≡ 0
    → paddr % page_size ≡ 0
    → map_page vaddr paddr flags proc h ≡ ok (proc', h')
    → ((v : ℕ) → translate other h'.memory v ≡ translate other h.memory v)
      × IsTree lo hi other h'
      × IsApart proc.page_table other h'
      × IsApart other proc.page_table h'
map_page-isolated lo hi vaddr paddr flags other proc proc' h h' t o a av ap' e =
    let k = map_page-Keeps lo hi vaddr paddr flags proc proc' h h' t av ap' e in
    let root = proc.page_table in
    let apart = extended-IsApart lo hi root other (OtherPage vaddr) h h' k o a in
    (
      apart-translate lo hi root other (OtherPage vaddr) h h' k o a,
      apart-IsTree lo hi root other (OtherPage vaddr) h h' k o a,
      apart,
      IsApart-sym lo hi root other h' k.tree apart,
    )
