-- ===== src/Processes/Made.antt =====
-- kernel/process.c: the process that `create_process` makes.
use risc_v_os.Base.{
  ℕ, ◌+◌, ◌-◌, ◌*◌, ◌≤◌, ◌<◌, ◌≡◌, refl, sym, ap, ◌∙◌, arith, ok, subst, some, set, Found,
}
use risc_v_os.Memory.{Memory}
use risc_v_os.Allocator.{Heap}
use risc_v_os.Allocator.Reach.{IsOwned}
use risc_v_os.Paging.{Process, load32, keep_region}
use risc_v_os.Paging.Words.{load32-ext}
use risc_v_os.Paging.Tree.{below_kept}
use risc_v_os.Paging.Fresh.{alloc_pages-IsTree}
use risc_v_os.Processes.{
  Layout, Kernel, proc_at, no_process, is_unused, initial_stack, cleared, create_process,
  proc_runnable,
}
use risc_v_os.Processes.Stack.{
  initial_stack-sp, initial_stack_elsewhere, initial_stack-ra, initial_stack-saved,
}
use risc_v_os.Processes.Range.{Grown}
use risc_v_os.Processes.Create.{IsLaid, Built, build_space-Built, Unmapped}
use risc_v_os.Processes.Steps.{Steps, create_process-Steps}

-- The process in slot `i` as it is made, runnable under the number `i + 1`; its space; and the stack
-- that the first switch to it restores: user mode to enter, and zero registers. Nothing else of the
-- kernel's state has changed.
pub record Created (lo hi image image_size i : ℕ) (ly : Layout) (k k' : Kernel) : Type 0 where
  pub made : Process
  pub only_slot : k'.procs ≡ set k.procs i made
  pub first_unused : Found is_unused k.procs no_process (some i)
  pub pid : made.pid ≡ i + 1
  pub runnable : made.state ≡ proc_runnable
  pub space : Built lo hi image image_size made.page_table ly k.pool.heap.memory k'.pool.heap
  pub return_address : load32 k'.pool.heap.memory made.sp ≡ ly.user_entry
  pub registers : (j : ℕ) → j < 12 → load32 k'.pool.heap.memory (made.sp + 4 * (j + 1)) ≡ 0
  pub same_shm : k'.pool.shm ≡ k.pool.shm
  pub same_current : (k'.current_proc ≡ k.current_proc) × (k'.idle_proc ≡ k.idle_proc)

module _ (lo hi image image_size i : ℕ) (ly : Layout) (k k' : Kernel)
    (laid : IsLaid lo image image_size ly) (o : IsOwned lo hi k.pool.heap)
    (e : create_process ly image image_size k ≡ ok (i, k')) where
  pub steps : Steps ly image image_size i k k'
  steps = create_process-Steps ly image image_size i k k' e

  abbrev pub stack : ℕ × Memory
  stack = initial_stack ly i k.pool.heap.memory

  abbrev pub stacked : Heap
  stacked = record k.pool.heap { memory = stack.1 }

  pub owned : IsOwned lo hi stacked
  owned = record { valid = o.valid; owner = o.owner }

  abbrev pub start : Process
  start =
      keep_region steps.region (record (cleared (proc_at k.procs i)) { page_table = steps.root })

  below_fresh : (x : ℕ) → x < lo → steps.fresh.memory x ≡ stack.1 x
  below_fresh x under =
      below_kept lo hi steps.root steps.region stacked steps.fresh owned steps.allocated x under

  pub whole :
      Built lo hi image image_size steps.root ly k.pool.heap.memory steps.built
      × Grown lo hi (Unmapped image_size ly) start steps.proc steps.fresh steps.built
  whole =
      build_space-Built lo hi image image_size ly k.pool.heap.memory start steps.proc steps.fresh
        steps.built laid
        (alloc_pages-IsTree lo hi steps.root steps.region stacked steps.fresh owned steps.allocated)
        (λ n lt.
          below_fresh (image + n) (omega (arith, laid.image_below))
          ∙ initial_stack_elsewhere ly i k.pool.heap.memory (laid.stacks i).0 (image + n)
              (ground (arith, laid.stacks_apart i)))
        steps.building

  -- The words of the stack at the end are those that were pushed.
  word_kept : (a : ℕ) → a + 4 ≤ lo → load32 steps.built.memory a ≡ load32 stack.1 a
  word_kept a room =
      load32-ext stack.1 steps.built.memory a
        (λ x above below. whole.1.keeps.low x (omega arith) ∙ below_fresh x (omega arith))

  -- `create_process`, where it returns, has used the first unused slot, and the process in it is
  -- runnable under the number of the slot plus one. Its table maps the kernel's memory and the devices
  -- at their own addresses, and each byte of the image is found at its place from USER_BASE on, in a
  -- page of the user's that the process alone has. Its first switch finds a stack that leads to the
  -- entry of user mode. The layout is that of the two linker scripts, and the region table is sound.
  pub create_process-Created : Created lo hi image image_size i ly k k'
  create_process-Created =
      subst (Created lo hi image image_size i ly k) (sym steps.result) (record {
        made = record steps.proc { pid = i + 1; state = proc_runnable; sp = stack.0 };
        only_slot = refl;
        first_unused = steps.unused;
        pid = refl;
        runnable = refl;
        space =
            subst (λ r. Built lo hi image image_size r ly k.pool.heap.memory steps.built)
              (sym whole.1.same_root) whole.0;
        return_address =
            ap (load32 steps.built.memory)
              (initial_stack-sp ly i k.pool.heap.memory (laid.stacks i).0)
            ∙ word_kept (ly.stack_top i - 52) (omega (arith, laid.stacks i))
            ∙ initial_stack-ra ly i k.pool.heap.memory (laid.stacks i).0 laid.entry_word;
        registers = λ j lt.
            ap (load32 steps.built.memory) (
              let z : stack.0 + 4 * (j + 1) ≡ ly.stack_top i - 4 * (11 - j + 1) = omega (
                arith,
                initial_stack-sp ly i k.pool.heap.memory (laid.stacks i).0,
                laid.stacks i,
              ) in
              z)
            ∙ word_kept (ly.stack_top i - 4 * (11 - j + 1)) (omega (arith, laid.stacks i))
            ∙ initial_stack-saved ly i k.pool.heap.memory (laid.stacks i).0 (11 - j) (omega arith)
                laid.entry_word;
        same_shm = refl;
        same_current = (refl, refl);
      })
