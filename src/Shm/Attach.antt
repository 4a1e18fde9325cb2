-- ===== src/Shm/Attach.antt =====
-- kernel/shm.c: what attaching and detaching do to the process and to the object.
use risc_v_os.Base.{
  ℕ, ◌+◌, ◌-◌, ◌*◌, ◌/◌, ◌%◌, ◌^◌, ◌<◌, ◌≡◌, ◌⊎◌, refl, sym, ap, ◌∙◌, true, false, not, ◌&&◌,
  Option, none, some, List, arith, ◌==◌, get_or, set, length, find_index, find_index-some,
  get_or-set_self, ok, panic, Panic, inl, inr,
}
use risc_v_os.Base.Word.{add32, sub32}
use risc_v_os.Allocator.{Heap, alloc_pages, page_size}
use risc_v_os.Paging.{Process, ShmMapping, unmap_page}
use risc_v_os.Paging.Root.{IsRooted}
use risc_v_os.Paging.Mapping.{translate, map_page_lem, unmap_page_lem}
use risc_v_os.Paging.Recorded.{map_page-record, unmap_page-regions}
use risc_v_os.Shm.{
  ShmObject, Pool, object, no_object, no_mapping, find_by_id, has_id, shm_user_base, shm_flags,
  referenced, with_table, not_positive, attach_at, attach_found, shm_attach, detach_found,
  drop_reference, shm_detach,
}

-- The address of a slot.
abbrev pub address : ℕ → ℕ
address slot = shm_user_base + slot * page_size

abbrev pub free_slot : Process → Option ℕ
free_slot proc = find_index (λ (m : ShmMapping). not m.used) proc.shm_mappings

-- What an attach leaves: the address leads to the object's page, for the user to read and write,
-- the slot holds the object and the address, the other slots what they held, and the object has one
-- reference more; the table of objects is otherwise the same.
pub record Attached (lo hi slot i id : ℕ) (s : Pool) (proc proc' : Process) (t : Pool)
    : Type 0 where
  pub rooted : IsRooted lo hi proc'.page_table t.heap
  pub leads :
      translate proc'.page_table t.heap.memory (address slot)
      ≡ some ((object s.shm.shm_table i).pa / page_size * 2 ^ 10 + 0x17)
  pub taken :
      proc'.shm_mappings
      ≡ set proc.shm_mappings slot (record { used = true; shm_id = id; vaddr = address slot })
  pub counted : (object t.shm.shm_table i).refcount ≡ add32 (object s.shm.shm_table i).refcount 1
  pub objects : t.shm ≡ record s.shm {
    shm_table = set s.shm.shm_table i (record (object s.shm.shm_table i) {
      refcount = add32 (object s.shm.shm_table i).refcount 1;
    });
  }

attach_at-lem :
    (lo hi slot i id : ℕ) (proc : Process) (s : Pool)
    → IsRooted lo hi proc.page_table s.heap
    → (object s.shm.shm_table i).pa % page_size ≡ 0
    → (object s.shm.shm_table i).pa < 2 ^ 32
    → i < length s.shm.shm_table
    → ((proc' : Process) × (t : Pool) × (attach_at id i slot proc s ≡ ok (address slot, proc', t))
        × Attached lo hi slot i id s proc proc' t)
      ⊎ ((why : Panic) × (attach_at id i slot proc s ≡ panic why)
          × (alloc_pages 1 s.heap ≡ panic why))
unfolding attach_at
attach_at-lem lo hi slot i id proc s r pa small lt =
    elim (map_page_lem lo hi (address slot) (object s.shm.shm_table i).pa shm_flags proc s.heap r
      (omega arith) pa small (omega arith) (omega arith)) [
        | inl (p, h, ran, m) ↦ inl (
          record p {
            shm_mappings =
                set p.shm_mappings slot (record { used = true; shm_id = id; vaddr = address slot });
          },
          record { shm = record s.shm { shm_table = referenced i s.shm.shm_table }; heap = h },
          rw ran refl,
          record {
            rooted = m.rooted;
            leads = m.mapped ∙ ap some (omega arith);
            taken =
                ap
                  (λ (ms : List ShmMapping).
                    set ms slot (record { used = true; shm_id = id; vaddr = address slot }))
                  (map_page-record (address slot) (object s.shm.shm_table i).pa shm_flags proc p
                    s.heap h (omega arith) pa ran).0;
            objects = refl;
            counted =
                ap (λ (o : ShmObject). o.refcount)
                  (get_or-set_self s.shm.shm_table i _ no_object lt);
          },
        )
        | inr (why, failed, oom) ↦ inr (why, rw failed refl, oom)
      ]

-- `shm_attach` with the identifier of an object, in a process with a free slot, maps the page of the
-- object at the address of the slot, readable and writable for the user, enters the object and the
-- address in the slot and in no other, and counts the reference, with the objects otherwise as they
-- were; its only panic is that of the allocator, for want of a page for the table.
pub shm_attach_lem :
    (lo hi slot i id : ℕ) (proc : Process) (s : Pool)
    → IsRooted lo hi proc.page_table s.heap
    → find_by_id id s.shm.shm_table ≡ some i
    → free_slot proc ≡ some slot
    → (object s.shm.shm_table i).pa % page_size ≡ 0
    → (object s.shm.shm_table i).pa < 2 ^ 32
    → ((proc' : Process) × (t : Pool) × (shm_attach id proc s ≡ ok (address slot, proc', t))
        × Attached lo hi slot i id s proc proc' t)
      ⊎ ((why : Panic) × (shm_attach id proc s ≡ panic why) × (alloc_pages 1 s.heap ≡ panic why))
unfolding shm_attach attach_found find_by_id
shm_attach_lem lo hi slot i id proc s r found room pa small =
    let at : shm_attach id proc s ≡ attach_at id i slot proc s =
      ap (λ f. attach_found id f (free_slot proc) proc s) found
      ∙ ap (λ f. attach_found id (some i) f proc s) room in
    let lt = (find_index-some (has_id id) s.shm.shm_table no_object i found).0 in
    elim (attach_at-lem lo hi slot i id proc s r pa small lt) [
      | inl (p, t, ran, a) ↦ inl (p, t, at ∙ ran, a)
      | inr (why, failed, oom) ↦ inr (why, at ∙ failed, oom)
    ]

abbrev pub slot_at : ℕ → Process → Option ℕ
slot_at vaddr proc = find_index (λ (m : ShmMapping). m.used && m.vaddr == vaddr) proc.shm_mappings

-- The table with one reference to an object less.
abbrev pub one_less : ℕ → List ShmObject → List ShmObject
one_less i t = set t i (record (object t i) { refcount = sub32 (object t i).refcount 1 })

drop_shared :
    (i : ℕ) (s : Pool)
    → 1 < (object s.shm.shm_table i).refcount
    → (object s.shm.shm_table i).refcount < 2 ^ 31
    → drop_reference (some i) s ≡ ok (with_table (one_less i s.shm.shm_table) s)
unfolding drop_reference
drop_shared i s more positive =
    let still : not_positive (sub32 (object s.shm.shm_table i).refcount 1) ≡ false = ground arith in
    rw still refl

detach_shared :
    (slot i : ℕ) (proc : Process) (s : Pool) (h : Heap)
    → unmap_page (get_or proc.shm_mappings slot no_mapping).vaddr proc s.heap ≡ ok h
    → drop_reference
        (find_by_id (get_or proc.shm_mappings slot no_mapping).shm_id s.shm.shm_table)
        (record s { heap = h })
      ≡ ok (with_table (one_less i s.shm.shm_table) (record s { heap = h }))
    → detach_found (some slot) proc s
      ≡ ok (
        0,
        record proc { shm_mappings = set proc.shm_mappings slot no_mapping },
        with_table (one_less i s.shm.shm_table) (record s { heap = h }),
      )
unfolding detach_found
detach_shared slot i proc s h unmapped dropped = rw unmapped (rw dropped refl)

-- `shm_detach` of an aligned address that the process has attached, where the object has further
-- references, takes the address out of the translation and empties its slot; the object counts one
-- reference less and is otherwise the same, as are the other objects, and no page is given back.
pub shm_detach_lem :
    (lo hi vaddr slot i : ℕ) (proc : Process) (s : Pool)
    → IsRooted lo hi proc.page_table s.heap
    → slot_at vaddr proc ≡ some slot
    → (get_or proc.shm_mappings slot no_mapping).vaddr % page_size ≡ 0
    → find_by_id (get_or proc.shm_mappings slot no_mapping).shm_id s.shm.shm_table ≡ some i
    → 1 < (object s.shm.shm_table i).refcount
    → (object s.shm.shm_table i).refcount < 2 ^ 31
    → (t : Pool) × (shm_detach vaddr proc s
        ≡ ok (0, record proc { shm_mappings = set proc.shm_mappings slot no_mapping }, t))
      × IsRooted lo hi proc.page_table t.heap
      × (translate proc.page_table t.heap.memory vaddr ≡ none)
      × ((object t.shm.shm_table i).refcount + 1 ≡ (object s.shm.shm_table i).refcount)
      × (t.shm ≡ record s.shm {
        shm_table = set s.shm.shm_table i (record (object s.shm.shm_table i) {
          refcount = (object s.shm.shm_table i).refcount - 1;
        });
      })
      × (t.heap.regions ≡ s.heap.regions)
unfolding shm_detach find_by_id
shm_detach_lem lo hi vaddr slot i proc s r found al owner more positive =
    let (h, unmapped, rooted, gone) =
      unmap_page_lem lo hi (get_or proc.shm_mappings slot no_mapping).vaddr proc s.heap r al in
    let lt =
      (find_index-some (has_id (get_or proc.shm_mappings slot no_mapping).shm_id) s.shm.shm_table
        no_object i owner).0 in
    let hit =
      (find_index-some (λ (m : ShmMapping). m.used && m.vaddr == vaddr) proc.shm_mappings no_mapping
        slot found).1 in
    let same : (get_or proc.shm_mappings slot no_mapping).vaddr ≡ vaddr = ground (arith, hit) in
    let dropped =
      ap (λ f. drop_reference f (record s { heap = h })) owner
      ∙ drop_shared i (record s { heap = h }) more positive in
    (
      with_table (one_less i s.shm.shm_table) (record s { heap = h }),
      ap (λ f. detach_found f proc s) found ∙ detach_shared slot i proc s h unmapped dropped,
      record {
        owned = rooted.owned;
        root_held = rooted.root_held;
        aligned = rooted.aligned;
        apart = rooted.apart;
      },
      sym (ap (translate proc.page_table h.memory) same) ∙ gone,
      ap (λ (o : ShmObject). o.refcount + 1) (get_or-set_self s.shm.shm_table i _ no_object lt)
          ∙ omega arith,
      ap
          (λ n. record s.shm {
            shm_table = set s.shm.shm_table i (record (object s.shm.shm_table i) { refcount = n });
          })
          (omega arith),
      unmap_page-regions (get_or proc.shm_mappings slot no_mapping).vaddr proc s.heap h unmapped,
    )
