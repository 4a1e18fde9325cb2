-- ===== src/Processes/Outcome.antt =====
-- kernel/process.c: every outcome of `create_process`.
use risc_v_os.Base.{
  ℕ, ◌<◌, ◌≤◌, ◌≡◌, ◌⊎◌, inl, inr, ◌∙◌, ap, ok, panic, Result-cases, Panic, out_of_memory,
  no_free_process_slots, length, false,
}
use risc_v_os.Allocator.Reach.{IsOwned}
use risc_v_os.Paging.Mapping.{translate}
use risc_v_os.Paging.Tree.{IsTree}
use risc_v_os.Paging.Apart.{IsApart}
use risc_v_os.Processes.{Layout, Kernel, proc_at, is_unused, create_process, proc_region_max}
use risc_v_os.Processes.Create.{IsLaid}
use risc_v_os.Processes.Made.{Created, create_process-Created}
use risc_v_os.Processes.Fit.{RegionsFit, create_process-fits}
use risc_v_os.Processes.Others.{create_process-isolated}
use risc_v_os.Processes.Failure.{create_process_panics}

module _ (lo hi image image_size : ℕ) (ly : Layout) (k : Kernel)
    (laid : IsLaid lo image image_size ly) (o : IsOwned lo hi k.pool.heap) where
  -- What `create_process` answers where it makes no process.
  abbrev pub Refused : Type 0
  Refused =
      (create_process ly image image_size k ≡ panic no_free_process_slots)
        × ((j : ℕ) → j < length k.procs → is_unused (proc_at k.procs j) ≡ false)
      ⊎ (create_process ly image image_size k ≡ panic out_of_memory)

  refused : (why : Panic) → create_process ly image image_size k ≡ panic why → Refused
  refused why e = elim (create_process_panics lo hi image image_size ly k why laid o e) [
    | inl (slots, full) ↦ inl (e ∙ ap panic slots, full)
    | inr memory ↦ inr (e ∙ ap panic memory)
  ]

  -- Under the layout of the two linker scripts, with a sound region table, and with an image so small
  -- that the regions of the process are at most 64, `create_process` uses the first unused slot: the
  -- process in it is runnable under the number of the slot plus one and records no region past its
  -- array. Its table maps the kernel's memory, for the kernel to read, write and execute, and the five
  -- pages of the devices, for the kernel to read and write, at their own addresses; and each byte of
  -- the image stands at its place from USER_BASE on, in a page for the user to read, write and execute
  -- that is no part of the table. Its first switch finds a stack that leads to the entry of user mode.
  -- It panics only where no slot is unused, or for want of memory.
  pub create_process_lem :
      RegionsFit image_size ly
      → ((i : ℕ) × (k' : Kernel) × (create_process ly image image_size k ≡ ok (i, k'))
          × Created lo hi image image_size i ly k k'
          × ((proc_at k'.procs i).current_idx ≤ proc_region_max))
        ⊎ Refused
  create_process_lem fit = elim (Result-cases (create_process ly image image_size k)) [
    | inl ((i, k'), e) ↦ inl (
      i,
      k',
      e,
      create_process-Created lo hi image image_size i ly k k' laid o e,
      create_process-fits lo hi image image_size i ly k k' laid o fit e,
    )
    | inr (why, e) ↦ inr (refused why e)
  ]

  -- Where the table of another process is sound, `create_process` leaves it sound, changes the
  -- translation of no address by it, and makes a table that shares no page with it; or it panics.
  pub create_process_isolates :
      (other : ℕ)
      → IsTree lo hi other k.pool.heap
      → ((i : ℕ) × (k' : Kernel) × (create_process ly image image_size k ≡ ok (i, k'))
          × IsTree lo hi other k'.pool.heap
          × ((v : ℕ) → translate other k'.pool.heap.memory v ≡ translate other k.pool.heap.memory v)
          × IsApart (proc_at k'.procs i).page_table other k'.pool.heap)
        ⊎ Refused
  create_process_isolates other t = elim (Result-cases (create_process ly image image_size k)) [
    | inl ((i, k'), e) ↦
        let (sound, same, apart) =
          create_process-isolated lo hi image image_size i ly k k' laid o e other t in
        inl (i, k', e, sound, same, apart)
    | inr (why, e) ↦ inr (refused why e)
  ]
