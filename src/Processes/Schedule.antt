-- ===== src/Processes/Schedule.antt =====
-- kernel/process.c: which process `yield` runs next.
use risc_v_os.Base.{
  ℕ, zero, suc, ◌+◌, ◌-◌, ◌%◌, ◌≤◌, ◌<◌, ◌≡◌, ◌≢◌, ◌⊎◌, inl, inr, refl, sym, ap, ◌∙◌, true, false,
  arith, Bool-cases, Option, none, some, if◌then◌else◌, ok, List, ◌==◌, ==→eq, ltb, set, subst,
  Result, ◌>>=◌, ==-ne,
}
use risc_v_os.Paging.{Process}
use risc_v_os.Processes.{
  Kernel, procs_max, proc_at, proc_exited, can_run, next_from, or_idle, next_proc, release_exited,
  yield, release_process,
}

-- The slot `d` places after `start`, in the order of the array and around its end.
abbrev pub around : ℕ → ℕ → ℕ
around start d = (start + d) % procs_max

-- The nearest slot after `start` with a process that can run, or the idle one if there is none.
abbrev pub NextInTurn : ℕ → List Process → ℕ → ℕ → Type 0
NextInTurn start ps idle r =
    ((d : ℕ) × (d < procs_max)
      × (r ≡ around start d)
      × (can_run (proc_at ps r) ≡ true)
      × ((e : ℕ) → e < d → can_run (proc_at ps (around start e)) ≡ false))
    ⊎ (r ≡ idle) × ((j : ℕ) → j < procs_max → can_run (proc_at ps j) ≡ false)

-- What the loop answers, from round `i` on.
abbrev Answer : ℕ → ℕ → ℕ → List Process → Option ℕ → Type 0
Answer rounds i start ps none =
    (e : ℕ) → i ≤ e → e < i + rounds → can_run (proc_at ps (around start e)) ≡ false
Answer rounds i start ps (some r) =
    (d : ℕ) × (i ≤ d)
    × (d < i + rounds)
    × (r ≡ around start d)
    × (can_run (proc_at ps r) ≡ true)
    × ((e : ℕ) → i ≤ e → e < d → can_run (proc_at ps (around start e)) ≡ false)

module _ (start : ℕ) (ps : List Process) where
  later :
      (rounds i : ℕ) (o : Option ℕ)
      → can_run (proc_at ps (around start i)) ≡ false
      → Answer rounds (i + 1) start ps o
      → Answer (suc rounds) i start ps o
  later rounds i none now rest = λ e le lt. elim (Bool-cases (i == e)) [
    | inl same ↦ sym (ap (λ j. can_run (proc_at ps (around start j))) (==→eq i e same)) ∙ now
    | inr other ↦ rest e (ground arith) (omega arith)
  ]
  later rounds i (some r) now (d, le, lt, at, runs, before) = (
    d,
    omega arith,
    omega arith,
    at,
    runs,
    λ e le' lt'. elim (Bool-cases (i == e)) [
      | inl same ↦ sym (ap (λ j. can_run (proc_at ps (around start j))) (==→eq i e same)) ∙ now
      | inr other ↦ before e (ground arith) lt'
    ],
  )

  next_from-Answer : (rounds i : ℕ) → Answer rounds i start ps (next_from rounds i start ps)
  unfolding next_from
  next_from-Answer zero i = λ e le lt. absurd (omega arith)
  next_from-Answer (suc rounds) i = elim (Bool-cases (can_run (proc_at ps (around start i)))) [
    | inl now ↦
        subst (Answer (suc rounds) i start ps)
          (sym
            (ap (λ b. if b then some (around start i) else next_from rounds (i + 1) start ps) now))
          (i, omega arith, omega arith, refl, now, λ e le lt. absurd (omega arith))
    | inr not_now ↦
        subst (Answer (suc rounds) i start ps)
          (sym (
            ap (λ b. if b then some (around start i) else next_from rounds (i + 1) start ps)
              not_now))
          (later rounds i (next_from rounds (i + 1) start ps) not_now
            (next_from-Answer rounds (i + 1)))
  ]

  in_turn :
      (idle : ℕ) (o : Option ℕ)
      → Answer procs_max 0 start ps o
      → NextInTurn start ps idle (or_idle idle o)
  in_turn idle none nobody = inr (
    refl,
    λ j lt.
        let e = (j + 8 - start % 8) % 8 in
        let same : around start e ≡ j = omega arith in
        sym (ap (λ r. can_run (proc_at ps r)) same) ∙ nobody e (omega arith) (omega arith),
  )
  in_turn idle (some r) (d, le, lt, at, runs, before) =
      inl (d, lt, at, runs, λ e under. before e (omega arith) under)

pub next_proc-NextInTurn :
    (k : Kernel) → NextInTurn (proc_at k.procs k.current_proc).pid k.procs k.idle_proc (next_proc k)
unfolding next_proc
next_proc-NextInTurn k =
    let start = (proc_at k.procs k.current_proc).pid in
    in_turn start k.procs k.idle_proc _ (next_from-Answer start k.procs procs_max 0)

abbrev released : Kernel → Result Kernel
released k = do
  (p, t) ← release_process (proc_at k.procs k.current_proc) k.pool
  ok (record k { procs = set k.procs k.current_proc p; pool = t })

-- `yield` of a process that has not exited changes nothing but the process that runs: the first that
-- can run among the slots that follow it in the array, around its end and back to itself, and the
-- idle process only where none can run.
pub yield-NextInTurn :
    (k : Kernel)
    → (proc_at k.procs k.current_proc).state ≢ proc_exited
    → (r : ℕ) × (yield k ≡ ok (record k { current_proc = r }))
      × NextInTurn (proc_at k.procs k.current_proc).pid k.procs k.idle_proc r
unfolding yield release_exited
yield-NextInTurn k live = (
  next_proc k,
  ap
      (λ b.
        (if b then released k else ok k)
        >>= (λ (j : Kernel). ok (record j { current_proc = next_proc j })))
      (==-ne _ proc_exited live),
  next_proc-NextInTurn k,
)

-- A process that can run has the number of its slot, from one on.
abbrev pub IsNumbered : List Process → Type 0
IsNumbered ps = (j : ℕ) → j < procs_max → can_run (proc_at ps j) ≡ true → (proc_at ps j).pid ≡ j + 1

abbrev pub running : Kernel → Process
running k = proc_at k.procs k.current_proc

-- The states at successive calls of `yield`, none by a process that has exited, while the process in
-- slot `j` can run all along. What else happens to the table in between is open, but for the number
-- of the process that runs.
pub record IsRun (ks : ℕ → Kernel) (j : ℕ) : Type 0 where
  pub numbered : (n : ℕ) → IsNumbered (ks n).procs
  pub live : (n : ℕ) → (running (ks n)).state ≢ proc_exited
  pub ready : (n : ℕ) → can_run (proc_at (ks n).procs j) ≡ true
  pub follows :
      (n : ℕ) (g : Kernel) → yield (ks n) ≡ ok g → (ks (suc n)).current_proc ≡ g.current_proc
  pub same_pid :
      (n : ℕ) → (running (ks (suc n))).pid ≡ (proc_at (ks n).procs (ks (suc n)).current_proc).pid

-- How far slot `j` is from the one where the search starts.
abbrev distance : ℕ → ℕ → ℕ
distance start j = (j + procs_max - start % procs_max) % procs_max

module _ (ks : ℕ → Kernel) (j : ℕ) (lt : j < procs_max) (run : IsRun ks j) where
  turn :
      (n : ℕ)
      → ((ks (suc n)).current_proc ≡ j)
        ⊎ (distance (running (ks (suc n))).pid j < distance (running (ks n)).pid j)
  turn n =
      let start = (running (ks n)).pid in
      let (r, e, next) = yield-NextInTurn (ks n) (run.live n) in
      let to : (ks (suc n)).current_proc ≡ r = run.follows n _ e in
      elim next [
        | inr (_, nobody) ↦ let bad : true ≡ false = sym (run.ready n) ∙ nobody j lt in absurd cc
        | inl (d, small, at, runs, before) ↦
            let pid : (running (ks (suc n))).pid ≡ r + 1 =
              run.same_pid n
              ∙ ap (λ i. (proc_at (ks n).procs i).pid) to
              ∙ run.numbered n r (omega (arith, at)) runs in
            let near : d ≤ distance start j = elim (Bool-cases (ltb (distance start j) d)) [
              | inr not_before ↦ ground arith
              | inl is_before ↦
                  let back : around start (distance start j) ≡ j = omega arith in
                  let bad : true ≡ false =
                    sym (run.ready n)
                    ∙ sym (ap (λ i. can_run (proc_at (ks n).procs i)) back)
                    ∙ before (distance start j) (ground arith) in
                  absurd cc
            ] in
            elim (Bool-cases (d == distance start j)) [
              | inl same ↦ inl (to ∙ at ∙ ground arith)
              | inr other ↦ inr (ground (arith, pid))
            ]
      ]

  within :
      (bound n : ℕ)
      → distance (running (ks n)).pid j < bound
      → (m : ℕ) × (m < bound) × ((ks (suc (n + m))).current_proc ≡ j)
  within zero n near = absurd (omega arith)
  within (suc bound) n near = elim (turn n) [
    | inl now ↦ (
      0,
      omega arith,
      ap (λ i. (ks (suc i)).current_proc) (let z : n + 0 ≡ n = omega arith in z) ∙ now,
    )
    | inr nearer ↦
        let (m, small, then_runs) = within bound (suc n) (omega arith) in
        (
          suc m,
          omega arith,
          ap (λ i. (ks (suc i)).current_proc) (let z : n + suc m ≡ suc n + m = omega arith in z)
              ∙ then_runs,
        )
  ]

  -- Every process that can run is run by one of any eight successive calls of `yield` during which no
  -- process exits.
  pub yield_fair : (n : ℕ) → (m : ℕ) × (m < procs_max) × ((ks (suc (n + m))).current_proc ≡ j)
  yield_fair n = within procs_max n (omega arith)
