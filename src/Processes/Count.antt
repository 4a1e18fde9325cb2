-- ===== src/Processes/Count.antt =====
-- kernel/process.c: how many regions `create_process` records.
use risc_v_os.Base.{
  ℕ, zero, suc, ◌+◌, ◌-◌, ◌*◌, ◌/◌, ◌%◌, ◌^◌, ◌≤◌, ◌<◌, ◌≡◌, inl, inr, refl, sym, ap, ◌∙◌, arith,
  false, ok, subst, some, none, Option, List, [], ◌∷◌, All, length, returned, ok-injective,
  Bool-cases, ◌==◌, ==→eq,
}
use Prim.Native.Nat.{bit_and}
use risc_v_os.Allocator.{Heap, page_size}
use risc_v_os.Paging.{Process, load32, slot, is_invalid, map_page, vpn1}
use risc_v_os.Paging.Mapping.{translate}
use risc_v_os.Paging.Recorded.{one_table, map_page-record}
use risc_v_os.Paging.Tree.{IsTree}
use risc_v_os.Paging.Step.{map_page-Extended}
use risc_v_os.Processes.{map_kernel, map_devices, kernel_flags, device_flags}
use risc_v_os.Processes.Range.{IsDevice}

-- The second level for the 4 MB in which `v` lies is there.
abbrev pub HasTable : ℕ → Heap → ℕ → Type 0
HasTable root h v = is_invalid (load32 h.memory (slot root (vpn1 v))) ≡ false

pub mapped-HasTable :
    (root v entry : ℕ) (h : Heap) → translate root h.memory v ≡ some entry → HasTable root h v
mapped-HasTable root v entry h e =
    elim (Bool-cases (is_invalid (load32 h.memory (slot root (vpn1 v))))) [
      | inr there ↦ there
      | inl missing ↦
          let bad : ◌≡◌ {A = Option ℕ} none (some entry) = sym (rw missing refl) ∙ e in cc
    ]

pub one_table-bound :
    (v : ℕ) (proc : Process) (h : Heap) → one_table v proc h ≤ proc.current_idx + 1
one_table-bound v proc h = ground arith

one_table-present :
    (v w : ℕ) (proc : Process) (h : Heap)
    → HasTable proc.page_table h w
    → v / 2 ^ 22 ≡ w / 2 ^ 22
    → one_table v proc h ≡ proc.current_idx
one_table-present v w proc h there same =
    let at : vpn1 v ≡ vpn1 w = ap (λ x. bit_and x 0x3ff) same in rw (at, there) refl

-- A page more, where the page before it in the address space has its table.
pub one_table-next :
    (v w : ℕ) (proc : Process) (h : Heap)
    → HasTable proc.page_table h w
    → w / 2 ^ 22 ≤ v / 2 ^ 22
    → one_table v proc h ≤ proc.current_idx + (v / 2 ^ 22 - w / 2 ^ 22)
one_table-next v w proc h there le = elim (Bool-cases (v / 2 ^ 22 == w / 2 ^ 22)) [
  | inl same ↦ omega (arith, one_table-present v w proc h there (==→eq _ _ same))
  | inr other ↦ omega (arith, one_table-bound v proc h, apart other)
]
  where
    apart : (v / 2 ^ 22 == w / 2 ^ 22) ≡ false → w / 2 ^ 22 + 1 ≤ v / 2 ^ 22
    apart other = ground arith

-- The number of stretches of 4 MB that begin behind `first` and up to `last`.
abbrev pub further : ℕ → ℕ → ℕ
further first last = last / 2 ^ 22 - first / 2 ^ 22

map_kernel-further :
    (lo hi rounds paddr w : ℕ) (proc proc' : Process) (h h' : Heap)
    → IsTree lo hi proc.page_table h
    → paddr % page_size ≡ 0
    → paddr + rounds * page_size < 2 ^ 32
    → HasTable proc.page_table h w
    → w ≤ paddr
    → map_kernel rounds paddr proc h ≡ ok (proc', h')
    → proc'.current_idx ≤ proc.current_idx + further w (paddr + rounds * page_size)
unfolding map_kernel
map_kernel-further lo hi zero paddr w proc proc' h h' t aligned room there le e =
    let same : proc.current_idx ≡ proc'.current_idx =
      ap (λ (r : Process × Heap). r.0.current_idx) (ok-injective e) in
    omega arith
map_kernel-further lo hi (suc rounds) paddr w proc proc' h h' t aligned room there le e =
    let ((p, g), first, rest) = returned (map_page paddr paddr kernel_flags proc h) _ _ e in
    let x =
      map_page-Extended lo hi paddr paddr kernel_flags proc p h g t aligned aligned (omega arith)
        (omega arith) (omega arith) first in
    let next : (paddr + page_size) % 2 ^ 32 ≡ paddr + page_size = omega arith in
    let count : p.current_idx ≡ one_table paddr proc h =
      (map_page-record paddr paddr kernel_flags proc p h g aligned aligned first).1 in
    let before = one_table-next paddr w proc h there (omega arith) in
    let after =
      map_kernel-further lo hi rounds (paddr + page_size) paddr p proc' g h'
        (subst (λ r. IsTree lo hi r g) (sym x.same_root) x.keeps.tree) (omega arith) (omega arith)
        (subst (λ r. HasTable r g paddr) (sym x.same_root)
          (mapped-HasTable proc.page_table paddr _ g (x.found paddr refl)))
        (omega arith) (sym (ap (λ a. map_kernel rounds a p g) next) ∙ rest) in
    omega (arith, count, before, after)

-- One table more, and one for each further stretch.
pub map_kernel-count :
    (lo hi rounds paddr : ℕ) (proc proc' : Process) (h h' : Heap)
    → IsTree lo hi proc.page_table h
    → paddr % page_size ≡ 0
    → paddr + rounds * page_size < 2 ^ 32
    → map_kernel rounds paddr proc h ≡ ok (proc', h')
    → proc'.current_idx ≤ proc.current_idx + 1 + further paddr (paddr + rounds * page_size)
unfolding map_kernel
map_kernel-count lo hi zero paddr proc proc' h h' t aligned room e =
    let same : proc.current_idx ≡ proc'.current_idx =
      ap (λ (r : Process × Heap). r.0.current_idx) (ok-injective e) in
    omega arith
map_kernel-count lo hi (suc rounds) paddr proc proc' h h' t aligned room e =
    let ((p, g), first, rest) = returned (map_page paddr paddr kernel_flags proc h) _ _ e in
    let x =
      map_page-Extended lo hi paddr paddr kernel_flags proc p h g t aligned aligned (omega arith)
        (omega arith) (omega arith) first in
    let next : (paddr + page_size) % 2 ^ 32 ≡ paddr + page_size = omega arith in
    let count : p.current_idx ≡ one_table paddr proc h =
      (map_page-record paddr paddr kernel_flags proc p h g aligned aligned first).1 in
    let after =
      map_kernel-further lo hi rounds (paddr + page_size) paddr p proc' g h'
        (subst (λ r. IsTree lo hi r g) (sym x.same_root) x.keeps.tree) (omega arith) (omega arith)
        (subst (λ r. HasTable r g paddr) (sym x.same_root)
          (mapped-HasTable proc.page_table paddr _ g (x.found paddr refl)))
        (omega arith) (sym (ap (λ a. map_kernel rounds a p g) next) ∙ rest) in
    omega (arith, count, one_table-bound paddr proc h, after)

pub map_devices-count :
    (ds : List ℕ) (proc proc' : Process) (h h' : Heap)
    → All IsDevice ds
    → map_devices ds proc h ≡ ok (proc', h')
    → proc'.current_idx ≤ proc.current_idx + length ds
unfolding map_devices
map_devices-count [] proc proc' h h' sound e =
    let same : proc.current_idx ≡ proc'.current_idx =
      ap (λ (r : Process × Heap). r.0.current_idx) (ok-injective e) in
    omega arith
map_devices-count (d ∷ ds) proc proc' h h' (device, sound) e =
    let ((p, g), first, rest) = returned (map_page d d device_flags proc h) _ _ e in
    let count : p.current_idx ≡ one_table d proc h =
      (map_page-record d d device_flags proc p h g device.0 device.0 first).1 in
    omega (arith, count, one_table-bound d proc h, map_devices-count ds p proc' g h' sound rest)
