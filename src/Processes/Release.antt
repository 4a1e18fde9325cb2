-- ===== src/Processes/Release.antt =====
-- kernel/process.c: what `release_process` gives back.
use risc_v_os.Base.{
  ==-ne, ℕ, zero, suc, ◌+◌, ◌<◌, ◌≡◌, ◌≢◌, refl, sym, ap, ◌∙◌, arith, true, false, none, some, List,
  [], ◌∷◌, All, All-get_or, Result, ok, ◌>>=◌, get_or, get_or-set_ne, get_or-set_self, set, sum,
  length, Bool, ◌==◌, if◌then◌else◌, replicate, subst,
}
use risc_v_os.Memory.{in_block}
use risc_v_os.Allocator.{Heap, Region, region, is_allocated, release_pages}
use risc_v_os.Allocator.Ownership.{IsValid, holding, held, holders, vacancies}
use risc_v_os.Allocator.Release.{release_pages-Released, Released}
use risc_v_os.Paging.{Process, ShmMapping}
use risc_v_os.Shm.{Pool, no_mapping, cleanup_from, shm_process_cleanup}
use risc_v_os.Processes.{
  Kernel, proc_at, no_process, release_regions, release_process, release_exited, yield, next_proc,
  proc_unused, proc_exited, proc_shm_max,
}
use risc_v_os.Processes.Schedule.{NextInTurn, running, next_proc-NextInTurn}

-- The regions that the loop finds in `rounds` entries from `i` on: it takes entry 0 for none.
abbrev pub unskipped : ℕ → ℕ → List ℕ → List ℕ
unskipped zero i regions = []
unskipped (suc rounds) i regions =
    let rest = unskipped rounds (i + 1) regions in
    if get_or regions i 0 == 0 then rest else get_or regions i 0 ∷ rest

-- Each index holds a block, and none is listed twice.
pub data AreHeld (h : Heap) : List ℕ → Type 0 where
  nothing : AreHeld h []
  also :
      {k : ℕ} {ks : List ℕ}
      → is_allocated (region h.regions k) ≡ true
      → All (λ j. k ≢ j) ks
      → AreHeld h ks
      → AreHeld h (k ∷ ks)

-- How many of the blocks under the indices span the byte at `a`.
abbrev pub spans : Heap → List ℕ → ℕ → ℕ
spans h ks a = sum (λ k. held a (region h.regions k)) ks

-- What giving the blocks under `ks` back leaves.
pub record GivenBack (limit : ℕ) (ks : List ℕ) (h g : Heap) : Type 0 where
  pub valid : IsValid limit g.regions
  pub to_vacant : (a : ℕ) → vacancies a g.regions ≡ vacancies a h.regions + spans h ks a
  pub from_holder : (a : ℕ) → holders a g.regions + spans h ks a ≡ holders a h.regions
  pub gone : All (λ k. holding (region g.regions k) ≡ none) ks
  pub others :
      (j : ℕ) → All (λ k. j ≢ k) ks → holding (region g.regions j) ≡ holding (region h.regions j)
  pub memory : g.memory ≡ h.memory

held_block :
    (a : ℕ) (r : Region) (p size : ℕ)
    → holding r ≡ some (p, size)
    → held a r ≡ (if in_block p size a then 1 else 0)
held_block a r p size e = ground arith

holding-held :
    (a : ℕ) (r s : Region)
    → holding r ≡ holding s
    → (held a r ≡ held a s) × (is_allocated r ≡ is_allocated s)
holding-held a r s same = ground arith

-- The indices of a list hold what they held.
abbrev SameUnder : List ℕ → Heap → Heap → Type 0
SameUnder ks h g = All (λ k. holding (region g.regions k) ≡ holding (region h.regions k)) ks

spans_same : (ks : List ℕ) (h g : Heap) → SameUnder ks h g → (a : ℕ) → spans g ks a ≡ spans h ks a
spans_same [] h g same a = refl
spans_same (k ∷ ks) h g same a = omega (
  arith,
  spans_same ks h g same.1 a,
  (holding-held a (region g.regions k) (region h.regions k) same.0).0,
)

kept-AreHeld : (h g : Heap) {ks : List ℕ} → AreHeld h ks → SameUnder ks h g → AreHeld g ks
kept-AreHeld h g nothing same = nothing
kept-AreHeld h g (also {k} own apart rest) same =
    also ((holding-held 0 (region g.regions k) (region h.regions k) same.0).1 ∙ own) apart
      (kept-AreHeld h g rest same.1)

others-SameUnder :
    (k : ℕ) (ks : List ℕ) (h g : Heap)
    → All (λ j. k ≢ j) ks
    → ((j : ℕ) → j ≢ k → holding (region g.regions j) ≡ holding (region h.regions j))
    → SameUnder ks h g
others-SameUnder k [] h g apart same = tt
others-SameUnder k (j ∷ ks) h g apart same =
    (same j (λ e. apart.0 (sym e)), others-SameUnder k ks h g apart.1 same)

unskipped-set :
    (rounds i j : ℕ) (regions : List ℕ)
    → i < j
    → unskipped rounds j (set regions i 0) ≡ unskipped rounds j regions
unskipped-set zero i j regions lt = refl
unskipped-set (suc rounds) i j regions lt =
    rw
      (
        unskipped-set rounds i (j + 1) regions (omega arith),
        get_or-set_ne regions i j 0 0 (λ e. omega arith),
      )
      refl

abbrev emptied : ℕ → Process → Process
emptied i proc = record proc { regions = set proc.regions i 0 }

module _ (limit : ℕ) where
  one_more :
      (k p size : ℕ) (ks : List ℕ) (h g f : Heap)
      → holding (region h.regions k) ≡ some (p, size)
      → All (λ j. k ≢ j) ks
      → Released limit p size k h g
      → GivenBack limit ks g f
      → GivenBack limit (k ∷ ks) h f
  one_more k p size ks h g f own apart one more =
      let same = others-SameUnder k ks h g apart one.others in
      let block : (a : ℕ) → held a (region h.regions k) ≡ (if in_block p size a then 1 else 0) =
        λ a. held_block a (region h.regions k) p size own in
      record {
        valid = more.valid;
        to_vacant = λ a.
            omega (arith, more.to_vacant a, one.to_vacant a, spans_same ks h g same a, block a);
        from_holder = λ a.
            omega (arith, more.from_holder a, one.from_holder a, spans_same ks h g same a, block a);
        gone = (more.others k apart ∙ one.index, more.gone);
        others = λ j away. more.others j away.1 ∙ one.others j away.0;
        memory = more.memory ∙ one.memory;
      }

  -- The loop returns, and has given back what it was to give back.
  abbrev pub Returns : Result (Process × Heap) → List ℕ → Process → Heap → Type 0
  Returns r ks proc h =
      (q : List ℕ) × (g : Heap) × (r ≡ ok (record proc { regions = q }, g)) × GivenBack limit ks h g

  -- One round of the loop, which goes on with `continue`.
  by_entry :
      (b : Bool) (i : ℕ) (rest : List ℕ) (proc : Process) (h : Heap)
      → (continue : Process → Heap → Result (Process × Heap)) → IsValid limit h.regions
      → ((g : Heap)
          → IsValid limit g.regions
          → AreHeld g rest
          → Returns (continue proc g) rest proc g
            × Returns (continue (emptied i proc) g) rest proc g)
      → AreHeld h (if b then rest else get_or proc.regions i 0 ∷ rest)
      → Returns
          (if b
            then continue proc h
            else release_pages (get_or proc.regions i 0) h >>= continue (emptied i proc))
          (if b then rest else get_or proc.regions i 0 ∷ rest)
          proc
          h
  by_entry true i rest proc h continue v goes_on all = (goes_on h v all).0
  by_entry false i rest proc h continue v goes_on (also own apart others) =
      let k = get_or proc.regions i 0 in
      let p = (region h.regions k).start in
      let size = (region h.regions k).size in
      let block : holding (region h.regions k) ≡ some (p, size) = rw own refl in
      let (g, e, one) = release_pages-Released limit p size k h v block in
      let still : AreHeld g rest =
        kept-AreHeld h g others (others-SameUnder k rest h g apart one.others) in
      let (q, f, done, more) = (goes_on g one.valid still).1 in
      (
        q,
        f,
        ap (λ r. r >>= continue (emptied i proc)) e ∙ done,
        one_more k p size rest h g f block apart one more,
      )

  pub release_regions_lem :
      (rounds i : ℕ) (proc : Process) (h : Heap)
      → IsValid limit h.regions
      → AreHeld h (unskipped rounds i proc.regions)
      → Returns (release_regions rounds i proc h) (unskipped rounds i proc.regions) proc h
  unfolding release_regions
  release_regions_lem zero i proc h v owned = (
    proc.regions,
    h,
    refl,
    record {
      valid = v;
      to_vacant = λ a. omega arith;
      from_holder = λ a. omega arith;
      gone = tt;
      others = λ j away. refl;
      memory = refl;
    },
  )
  release_regions_lem (suc rounds) i proc h v owned =
      let rest = unskipped rounds (i + 1) proc.regions in
      let left = unskipped-set rounds i (i + 1) proc.regions (omega arith) in
      by_entry (get_or proc.regions i 0 == 0) i rest proc h
        (λ p g. release_regions rounds (i + 1) p g) v
        (λ g valid all. (
          release_regions_lem rounds (i + 1) proc g valid all,
          subst (λ ks. Returns (release_regions rounds (i + 1) (emptied i proc) g) ks proc g) left
              (release_regions_lem rounds (i + 1) (emptied i proc) g valid
                (subst (AreHeld g) (sym left) all)),
        ))
        owned

-- The `rounds` entries of an array of regions from `i` on.
abbrev pub entries : ℕ → ℕ → List ℕ → List ℕ
entries zero i regions = []
entries (suc rounds) i regions = get_or regions i 0 ∷ entries rounds (i + 1) regions

-- All that a process records, up to `current_idx`.
abbrev pub recorded_by : Process → List ℕ
recorded_by proc = entries proc.current_idx 0 proc.regions

-- None of the regions has the index 0, which the loop would skip.
abbrev pub NoneSkipped : List ℕ → Type 0
NoneSkipped ks = All (λ k. k ≢ 0) ks

unskipped-entries :
    (rounds i : ℕ) (regions : List ℕ)
    → NoneSkipped (entries rounds i regions)
    → unskipped rounds i regions ≡ entries rounds i regions
unskipped-entries zero i regions h = refl
unskipped-entries (suc rounds) i regions h =
    rw (==-ne (get_or regions i 0) 0 h.0, unskipped-entries rounds (i + 1) regions h.1) refl

-- No mapping of shared memory is left to undo.
abbrev pub IsUnshared : Process → Type 0
IsUnshared proc = All (λ (m : ShmMapping). m.used ≡ false) proc.shm_mappings

-- The slot of a process that is gone; `q` is what its array of regions still says.
abbrev pub vacated : List ℕ → Process → Process
vacated q proc = record proc {
  pid = 0;
  state = proc_unused;
  sp = 0;
  page_table = 0;
  regions = q;
  current_idx = 0;
  shm_mappings = replicate proc_shm_max no_mapping;
}

cleanup_from_unshared :
    (rounds i : ℕ) (proc : Process) (s : Pool)
    → IsUnshared proc
    → cleanup_from rounds i proc s ≡ ok (proc, s)
unfolding cleanup_from
cleanup_from_unshared zero i proc s alone = refl
cleanup_from_unshared (suc rounds) i proc s alone =
    let idle : (get_or proc.shm_mappings i no_mapping).used ≡ false =
      All-get_or (λ (m : ShmMapping). m.used ≡ false) proc.shm_mappings i no_mapping alone refl in
    rw idle (cleanup_from_unshared rounds (i + 1) proc s alone)

pub release_process_lem :
    (limit : ℕ) (proc : Process) (s : Pool)
    → IsUnshared proc
    → IsValid limit s.heap.regions
    → NoneSkipped (recorded_by proc)
    → AreHeld s.heap (recorded_by proc)
    → (q : List ℕ) × (g : Heap) × (release_process proc s
        ≡ ok (vacated q proc, record s { heap = g }))
      × GivenBack limit (recorded_by proc) s.heap g
unfolding release_process shm_process_cleanup
release_process_lem limit proc s alone v nonzero owned =
    let all = unskipped-entries proc.current_idx 0 proc.regions nonzero in
    let (q, g, e, back) =
      release_regions_lem limit proc.current_idx 0 proc s.heap v
        (subst (AreHeld s.heap) (sym all) owned) in
    (
      q,
      g,
      rw (cleanup_from_unshared 4 0 proc s alone, e) refl,
      subst (λ ks. GivenBack limit ks s.heap g) all back,
    )

-- A process that has exited, with no shared memory attached, records regions that are held, each once
-- and none under index 0. Its first call of `yield` returns and gives all of them back: each byte
-- under a recorded region passes from held to free and no other byte changes hands, no other region
-- and no byte of memory is touched, the slot of the process is unused, and the search for the next
-- process starts at slot 0.
pub yield_exited :
    (limit : ℕ) (k : Kernel)
    → (running k).state ≡ proc_exited
    → k.current_proc < length k.procs
    → IsUnshared (running k)
    → IsValid limit k.pool.heap.regions
    → NoneSkipped (recorded_by (running k))
    → AreHeld k.pool.heap (recorded_by (running k))
    → (q : List ℕ) × (g : Heap) × (r : ℕ) × (yield k
        ≡ ok (record k {
          procs = set k.procs k.current_proc (vacated q (running k));
          current_proc = r;
          pool = record k.pool { heap = g };
        }))
      × NextInTurn 0 (set k.procs k.current_proc (vacated q (running k))) k.idle_proc r
      × GivenBack limit (recorded_by (running k)) k.pool.heap g
unfolding yield release_exited
yield_exited limit k over slot alone v nonzero owned =
    let (q, g, e, back) = release_process_lem limit (running k) k.pool alone v nonzero owned in
    let procs = set k.procs k.current_proc (vacated q (running k)) in
    let j : Kernel = record k { procs = procs; pool = record k.pool { heap = g } } in
    let own : proc_at procs k.current_proc ≡ vacated q (running k) =
      get_or-set_self k.procs k.current_proc (vacated q (running k)) no_process slot in
    (
      q,
      g,
      next_proc j,
      rw (over, e) refl,
      subst (λ (p : Process). NextInTurn p.pid procs k.idle_proc (next_proc j)) own
          (next_proc-NextInTurn j),
      back,
    )
