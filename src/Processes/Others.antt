-- ===== src/Processes/Others.antt =====
-- kernel/process.c: the processes that `create_process` leaves alone.
use risc_v_os.Base.{
  ℕ, ◌+◌, ◌%◌, ◌<◌, ◌≡◌, true, false, get_or-set_self, inr, refl, sym, ap, ◌∙◌, arith, ok, subst,
}
use risc_v_os.Memory.{Memory}
use risc_v_os.Allocator.{Heap, page_size}
use risc_v_os.Allocator.Reach.{IsOwned}
use risc_v_os.Paging.{Process, is_invalid, vpn1}
use risc_v_os.Allocator.Ownership.{holders}
use risc_v_os.Paging.Mapping.{translate, vpn-lt}
use risc_v_os.Paging.Tree.{
  IsTree, SamePage, spared-IsTree, spared-translate, IsData, held_still, fresh-ne-held, entry,
  entry_kept, fresh-SamePage,
}
use risc_v_os.Paging.Keeps.{Keeps, fresh-Keeps, lo-le-held}
use risc_v_os.Paging.Extend.{AnyAddress}
use risc_v_os.Paging.Apart.{IsApart, apart-IsTree, extended-IsApart, apart-translate}
use risc_v_os.Paging.Fresh.{entry_zero}
use risc_v_os.Processes.{Layout, Kernel, proc_at, no_process, create_process, proc_runnable}
use risc_v_os.Processes.Stack.{initial_stack_elsewhere}
use risc_v_os.Processes.Range.{Grown}
use risc_v_os.Processes.Create.{IsLaid, Built, Unmapped}
use risc_v_os.Processes.Steps.{Steps}
use risc_v_os.Processes.Made.{steps, stack, stacked, owned, whole, start}

module _ (lo hi image image_size i : ℕ) (ly : Layout) (k k' : Kernel)
    (laid : IsLaid lo image image_size ly) (o : IsOwned lo hi k.pool.heap)
    (e : create_process ly image image_size k ≡ ok (i, k')) (other : ℕ)
    (t : IsTree lo hi other k.pool.heap) where
  abbrev run : Steps ly image image_size i k k'
  run = steps lo hi image image_size i ly k k' laid o e

  abbrev pushed : ℕ × Memory
  pushed = stack lo hi image image_size i ly k k' laid o e

  abbrev before : Heap
  before = stacked lo hi image image_size i ly k k' laid o e

  sound : IsOwned lo hi before
  sound = owned lo hi image image_size i ly k k' laid o e

  grown :
      Built lo hi image image_size run.root ly k.pool.heap.memory run.built
      × Grown lo hi
          (Unmapped image_size ly)
          (start lo hi image image_size i ly k k' laid o e)
          run.proc
          run.fresh
          run.built
  grown = whole lo hi image image_size i ly k k' laid o e

  from_lo : (q : ℕ) → 0 < holders q k.pool.heap.regions → SamePage k.pool.heap.memory pushed.1 q
  from_lo q is_held x above below =
      let ge = lo-le-held lo hi q k.pool.heap o is_held in
      initial_stack_elsewhere ly i k.pool.heap.memory (laid.stacks i).0 x
        (inr (omega (arith, laid.stacks i)))

  IsTree-stacked : IsTree lo hi other before
  IsTree-stacked =
      spared-IsTree lo hi other k.pool.heap before (from_lo other t.rooted.root_held)
        (λ q held. held) sound t

  fresh_kept : Keeps lo hi other AnyAddress before run.fresh
  fresh_kept =
      fresh-Keeps lo hi other run.root run.region before run.fresh run.fresh.memory IsTree-stacked
        run.allocated (λ _ _. refl)

  -- A page that was held before the new table is no page of it.
  held-IsData :
      (q : ℕ) → q % page_size ≡ 0 → 0 < holders q k.pool.heap.regions → IsData run.root q run.fresh
  held-IsData q aligned is_held = record {
    aligned = aligned;
    is_held = held_still lo hi run.root run.region before run.fresh sound run.allocated q is_held;
    not_root = λ same.
        fresh-ne-held lo hi run.root run.region before run.fresh sound run.allocated q is_held
          (sym same);
    not_table = λ j lt used.
        let bad : true ≡ false =
          sym (
            ap is_invalid
              (entry_zero lo hi run.root run.region before run.fresh sound run.allocated j lt))
          ∙ used in
        absurd cc;
  }

  same_entry :
      (j : ℕ) → j < 1024 → entry run.fresh.memory other j ≡ entry k.pool.heap.memory other j
  same_entry j lt =
      entry_kept before.memory run.fresh.memory other j
        (fresh-SamePage lo hi run.root run.region before run.fresh sound run.allocated other
          t.rooted.aligned
          (fresh-ne-held lo hi run.root run.region before run.fresh sound run.allocated other
            t.rooted.root_held))
        lt
      ∙ entry_kept k.pool.heap.memory before.memory other j (from_lo other t.rooted.root_held) lt

  apart : IsApart run.root other run.fresh
  apart = record {
    first_level = held-IsData other t.rooted.aligned t.rooted.root_held;
    second_level = λ j lt used.
        held-IsData _ (omega arith) (
          rw (same_entry j lt) (t.tables_held j lt (sym (ap is_invalid (same_entry j lt)) ∙ used)));
  }

  -- Where the table of another process is sound, a `create_process` that returns leaves it sound,
  -- changes the translation of no address by it, and makes a table that shares no page with it.
  pub create_process-isolated :
      IsTree lo hi other k'.pool.heap
      × ((v : ℕ) → translate other k'.pool.heap.memory v ≡ translate other k.pool.heap.memory v)
      × IsApart (proc_at k'.procs i).page_table other k'.pool.heap
  create_process-isolated =
      let keeps = grown.1.keeps in
      let tree =
        apart-IsTree lo hi run.root other (Unmapped image_size ly) run.fresh run.built keeps
          fresh_kept.tree apart in
      let apart' =
        extended-IsApart lo hi run.root other (Unmapped image_size ly) run.fresh run.built keeps
          fresh_kept.tree apart in
      let same : (v : ℕ)
          → translate other run.built.memory v ≡ translate other k.pool.heap.memory v =
        λ v.
          apart-translate lo hi run.root other (Unmapped image_size ly) run.fresh run.built keeps
            fresh_kept.tree apart v
          ∙ fresh_kept.translations v tt
          ∙ spared-translate lo hi other k.pool.heap before (from_lo other t.rooted.root_held)
              (λ q held. held) v (λ used. from_lo _ (t.tables_held (vpn1 v) (vpn-lt _) used)) in
      subst
        (λ (g : Kernel).
          IsTree lo hi other g.pool.heap
          × ((v : ℕ) → translate other g.pool.heap.memory v ≡ translate other k.pool.heap.memory v)
          × IsApart (proc_at g.procs i).page_table other g.pool.heap)
        (sym run.result)
        (
          tree,
          same,
          subst (λ r. IsApart r other run.built)
              (sym (
                ap (λ (p : Process). p.page_table)
                  (get_or-set_self k.procs i
                    (record run.proc { pid = i + 1; state = proc_runnable; sp = pushed.0 })
                    no_process run.unused.0)
                ∙ grown.1.same_root))
              apart',
        )
