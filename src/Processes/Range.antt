-- ===== src/Processes/Range.antt =====
-- kernel/process.c: the pages that `create_process` maps at their own addresses.
use risc_v_os.Base.{
  ℕ, zero, suc, ◌+◌, ◌*◌, ◌/◌, ◌%◌, ◌^◌, ◌≤◌, ◌<◌, ◌≡◌, ◌≢◌, ◌⊎◌, inl, inr, refl, sym, ap, ◌∙◌,
  arith, ok, subst, some, List, [], ◌∷◌, All, returned, ok-injective, Bool-cases, ◌==◌, ==→eq,
}
use risc_v_os.Memory.{Memory}
use risc_v_os.Allocator.{Heap, page_size}
use risc_v_os.Paging.{Process, map_page}
use risc_v_os.Paging.Mapping.{translate}
use risc_v_os.Paging.Tree.{IsTree}
use risc_v_os.Paging.Keeps.{Keeps, Keeps-trans, Keeps-weaken}
use risc_v_os.Paging.Extend.{OtherPage}
use risc_v_os.Paging.Step.{Extended, map_page-Extended, another-page}
use risc_v_os.Processes.{map_kernel, map_devices, kernel_flags, device_flags}

-- The address lies outside the memory from `first` to `last`.
abbrev pub Outside : ℕ → ℕ → ℕ → Type 0
Outside first last v = (v < 2 ^ 32) × ((v < first) ⊎ (last ≤ v))

-- The leaf of a page, with its low bits: 1 is valid, 2 readable, 4 writable, 8 executable, and 16 for
-- the user.
abbrev pub leaf_of : ℕ → ℕ → ℕ
leaf_of paddr bits = paddr / page_size * 2 ^ 10 + bits

-- A part of building the space of a process: the same table, and all addresses that satisfy `Spared`
-- are translated as before.
pub record Grown (lo hi : ℕ) (Spared : ℕ → Type 0) (proc proc' : Process) (h h' : Heap)
    : Type 0 where
  pub same_root : proc'.page_table ≡ proc.page_table
  pub keeps : Keeps lo hi proc.page_table Spared h h'

pub Grown-refl :
    (lo hi : ℕ) (Spared : ℕ → Type 0) (proc : Process) (h : Heap)
    → IsTree lo hi proc.page_table h
    → Grown lo hi Spared proc proc h h
Grown-refl lo hi Spared proc h t = record {
  same_root = refl;
  keeps = record {
    tree = t;
    pages = λ q d. (d, λ _ _ _. refl);
    low = λ _ _. refl;
    translations = λ _ _. refl;
  };
}

pub Grown-trans :
    (lo hi : ℕ) (S T U : ℕ → Type 0) (p q r : Process) (h g k : Heap)
    → ((v : ℕ) → U v → S v × T v)
    → Grown lo hi S p q h g
    → Grown lo hi T q r g k
    → Grown lo hi U p r h k
Grown-trans lo hi S T U p q r h g k both a b = record {
  same_root = b.same_root ∙ a.same_root;
  keeps =
      Keeps-trans lo hi p.page_table U h g k
        (Keeps-weaken lo hi p.page_table S U h g (λ v s. (both v s).0) a.keeps)
        (subst (λ root. Keeps lo hi root U g k) a.same_root
          (Keeps-weaken lo hi q.page_table T U g k (λ v s. (both v s).1) b.keeps));
}

pub Extended-Grown :
    (lo hi vaddr paddr flags : ℕ) (proc proc' : Process) (h h' : Heap)
    → Extended lo hi vaddr paddr flags proc proc' h h'
    → Grown lo hi (OtherPage vaddr) proc proc' h h'
Extended-Grown lo hi vaddr paddr flags proc proc' h h' x = record {
  same_root = x.same_root;
  keeps = x.keeps;
}

-- The kernel's memory is mapped at its own addresses, readable, writable and executable.
abbrev pub Kernel-mapped : ℕ → ℕ → ℕ → Memory → Type 0
Kernel-mapped root first last m =
    (v : ℕ) → first ≤ v → v < last → translate root m v ≡ some (leaf_of v 0xf)

pub map_kernel-Grown :
    (lo hi rounds paddr : ℕ) (proc proc' : Process) (h h' : Heap)
    → IsTree lo hi proc.page_table h
    → paddr % page_size ≡ 0
    → paddr + rounds * page_size < 2 ^ 32
    → map_kernel rounds paddr proc h ≡ ok (proc', h')
    → Grown lo hi (Outside paddr (paddr + rounds * page_size)) proc proc' h h'
      × Kernel-mapped proc.page_table paddr (paddr + rounds * page_size) h'.memory
unfolding map_kernel
map_kernel-Grown lo hi zero paddr proc proc' h h' t aligned room e =
    subst
      (λ (r : Process × Heap).
        Grown lo hi (Outside paddr (paddr + 0 * page_size)) proc r.0 h r.1
        × Kernel-mapped proc.page_table paddr (paddr + 0 * page_size) r.1.memory)
      (ok-injective e) (Grown-refl lo hi _ proc h t, λ v above below. absurd (omega arith))
map_kernel-Grown lo hi (suc rounds) paddr proc proc' h h' t aligned room e =
    let ((p, g), first, rest) = returned (map_page paddr paddr kernel_flags proc h) _ _ e in
    let x =
      map_page-Extended lo hi paddr paddr kernel_flags proc p h g t aligned aligned (omega arith)
        (omega arith) (omega arith) first in
    let next : (paddr + page_size) % 2 ^ 32 ≡ paddr + page_size = omega arith in
    let (grown, mapped) =
      map_kernel-Grown lo hi rounds (paddr + page_size) p proc' g h'
        (subst (λ r. IsTree lo hi r g) (sym x.same_root) x.keeps.tree) (omega arith) (omega arith)
        (sym (ap (λ a. map_kernel rounds a p g) next) ∙ rest) in
    (
      Grown-trans lo hi (OtherPage paddr)
          (Outside (paddr + page_size) (paddr + page_size + rounds * page_size)) _ proc p proc' h g
          h'
          (λ v (small, out).
            (another-page v paddr small (omega arith) (ground arith), (small, ground arith)))
          (Extended-Grown lo hi paddr paddr kernel_flags proc p h g x) grown,
      λ v above below. elim (Bool-cases (v / page_size == paddr / page_size)) [
        | inl same ↦
            let at : v / page_size ≡ paddr / page_size = ==→eq _ _ same in
            sym (ap (λ r. translate r h'.memory v) x.same_root)
            ∙ grown.keeps.translations v (omega arith, ground arith)
            ∙ ap (λ r. translate r g.memory v) x.same_root
            ∙ x.found v at
            ∙ ap some (omega arith)
        | inr other ↦
            sym (ap (λ r. translate r h'.memory v) x.same_root)
            ∙ mapped v (ground arith) (omega arith)
      ],
    )

-- The address lies in one of the pages, or in none of them.
abbrev pub InPages : List ℕ → ℕ → Type 0
InPages [] v = v ≢ v
InPages (d ∷ ds) v = (v / page_size ≡ d / page_size) ⊎ InPages ds v

abbrev pub OffPages : List ℕ → ℕ → Type 0
OffPages ds v = (v < 2 ^ 32) × All (λ d. v / page_size ≢ d / page_size) ds

in_or_off : (ds : List ℕ) (v : ℕ) → v < 2 ^ 32 → InPages ds v ⊎ OffPages ds v
in_or_off [] v small = inr (small, tt)
in_or_off (d ∷ ds) v small = elim (Bool-cases (v / page_size == d / page_size)) [
  | inl same ↦ inl (inl (==→eq _ _ same))
  | inr other ↦ elim (in_or_off ds v small) [
    | inl within ↦ inl (inr within)
    | inr (_, off) ↦ inr (small, (ground arith, off))
  ]
]

-- A page of a device: aligned, and a number of 32 bits.
abbrev pub IsDevice : ℕ → Type 0
IsDevice d = (d % page_size ≡ 0) × (d < 2 ^ 32)

-- The pages are mapped at their own addresses, readable and writable for the kernel alone.
abbrev pub Devices-mapped : ℕ → List ℕ → Memory → Type 0
Devices-mapped root ds m =
    (v : ℕ) → v < 2 ^ 32 → InPages ds v → translate root m v ≡ some (leaf_of v 0x7)

pub map_devices-Grown :
    (lo hi : ℕ) (ds : List ℕ) (proc proc' : Process) (h h' : Heap)
    → IsTree lo hi proc.page_table h
    → All IsDevice ds
    → map_devices ds proc h ≡ ok (proc', h')
    → Grown lo hi (OffPages ds) proc proc' h h' × Devices-mapped proc.page_table ds h'.memory
unfolding map_devices
map_devices-Grown lo hi [] proc proc' h h' t sound e =
    subst
      (λ (r : Process × Heap).
        Grown lo hi (OffPages []) proc r.0 h r.1 × Devices-mapped proc.page_table [] r.1.memory)
      (ok-injective e) (Grown-refl lo hi _ proc h t, λ v small within. absurd (within refl))
map_devices-Grown lo hi (d ∷ ds) proc proc' h h' t (device, sound) e =
    let ((p, g), first, rest) = returned (map_page d d device_flags proc h) _ _ e in
    let x =
      map_page-Extended lo hi d d device_flags proc p h g t device.0 device.0 device.1 (omega arith)
        (omega arith) first in
    let (grown, mapped) =
      map_devices-Grown lo hi ds p proc' g h'
        (subst (λ r. IsTree lo hi r g) (sym x.same_root) x.keeps.tree) sound rest in
    (
      Grown-trans lo hi (OtherPage d) (OffPages ds) (OffPages (d ∷ ds)) proc p proc' h g h'
          (λ v (small, (ne, off)). (another-page v d small device.1 ne, (small, off)))
          (Extended-Grown lo hi d d device_flags proc p h g x) grown,
      λ v small within.
          sym (ap (λ r. translate r h'.memory v) x.same_root) ∙ elim (in_or_off ds v small) [
            | inl later ↦ mapped v small later
            | inr off ↦ elim within [
              | inl at ↦
                  grown.keeps.translations v off
                  ∙ ap (λ r. translate r g.memory v) x.same_root
                  ∙ x.found v at
                  ∙ ap some (omega arith)
              | inr later ↦ mapped v small later
            ]
          ],
    )
