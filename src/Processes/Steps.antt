-- ===== src/Processes/Steps.antt =====
-- kernel/process.c: the steps of a `create_process` that returns.
use risc_v_os.Base.{
  ℕ, ◌+◌, ◌≡◌, inl, inr, refl, sym, ap, ◌∙◌, ok, panic, subst, some, Option-cases, Result, returned,
  ok-injective, set, find_index, Found, find_index-Found, no_free_process_slots,
}
use risc_v_os.Allocator.{Heap, alloc_pages}
use risc_v_os.Paging.{Process, keep_region}
use risc_v_os.Processes.{
  Layout, Kernel, proc_at, no_process, is_unused, initial_stack, cleared, build_space, create_in,
  create_found, create_process, proc_runnable,
}

-- The steps of a `create_process` that returns.
pub record Steps (ly : Layout) (image image_size i : ℕ) (k k' : Kernel) : Type 0 where
  pub root : ℕ
  pub region : ℕ
  pub fresh : Heap
  pub built : Heap
  pub proc : Process
  pub allocated :
      alloc_pages 1 (record k.pool.heap { memory = (initial_stack ly i k.pool.heap.memory).1 })
      ≡ ok (root, region, fresh)
  pub building :
      build_space ly image image_size
        (keep_region region (record (cleared (proc_at k.procs i)) { page_table = root }))
        fresh
      ≡ ok (proc, built)
  pub result : k' ≡ record k {
    procs = set k.procs i (record proc {
      pid = i + 1;
      state = proc_runnable;
      sp = (initial_stack ly i k.pool.heap.memory).0;
    });
    pool = record k.pool { heap = built };
  }
  pub unused : Found is_unused k.procs no_process (some i)

pub create_process-Steps :
    (ly : Layout) (image image_size i : ℕ) (k k' : Kernel)
    → create_process ly image image_size k ≡ ok (i, k')
    → Steps ly image image_size i k k'
unfolding create_process create_found create_in
create_process-Steps ly image image_size i k k' e =
    elim (Option-cases (find_index is_unused k.procs)) [
      | inl missing ↦
          let bad : ◌≡◌ {A = Result (ℕ × Kernel)} (panic no_free_process_slots) (ok (i, k')) =
            sym (ap (λ o. create_found ly image image_size o k) missing) ∙ e in
          cc
      | inr (j, found) ↦
          let e' : create_in ly image image_size j k ≡ ok (i, k') =
            sym (ap (λ o. create_found ly image image_size o k) found) ∙ e in
          let ((root, region, g), first, rest) = returned (alloc_pages 1 _) _ _ e' in
          let ((proc, h), second, third) =
            returned (build_space ly image image_size _ g) _ _ rest in
          let same = ok-injective third in
          subst (λ (r : ℕ × Kernel). Steps ly image image_size r.0 k r.1) same
            (record {
              root = root;
              region = region;
              fresh = g;
              built = h;
              proc = proc;
              allocated = first;
              building = second;
              result = refl;
              unused =
                  subst (Found is_unused k.procs no_process) found
                    (find_index-Found is_unused k.procs no_process);
            })
    ]
