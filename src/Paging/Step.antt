-- ===== src/Paging/Step.antt =====
-- kernel/process.c: all that one `map_page` does to the address space.
use Prim.Native.Nat.{bit_and}
use risc_v_os.Base.{
  ℕ, ◌+◌, ◌*◌, ◌/◌, ◌%◌, ◌^◌, ◌<◌, ◌≡◌, ◌≢◌, inl, inr, sym, ap, ◌∙◌, arith, ok, panic, subst,
  Bool-cases, ◌==◌, some, none, if◌then◌else◌, ok-injective, Result,
}
use risc_v_os.Base.Bits.{bit_and-mask}
use risc_v_os.Memory.{Memory}
use risc_v_os.Allocator.{Heap, page_size}
use risc_v_os.Paging.{Process, load32, slot, is_invalid, table_of, vpn1, vpn0, map_page}
use risc_v_os.Paging.Mapping.{translate, leaf, map_page_lem, Mapped}
use risc_v_os.Paging.Tree.{IsTree}
use risc_v_os.Paging.Keeps.{Keeps}
use risc_v_os.Paging.Extend.{OtherPage, map_page-Keeps}

-- The machine translates the addresses of one page alike.
pub translate-page :
    (root v w : ℕ) (m : Memory)
    → v / page_size ≡ w / page_size
    → translate root m v ≡ translate root m w
translate-page root v w m e =
    ap
      (λ i.
        if is_invalid (load32 m (slot root i))
        then none
        else leaf (load32 m (slot (table_of (load32 m (slot root i))) (vpn0 v))))
      (let z : vpn1 v ≡ vpn1 w = ap (λ x. bit_and x 0x3ff) (omega arith) in z)
    ∙ ap
        (λ i.
          if is_invalid (load32 m (slot root (vpn1 w)))
          then none
          else leaf (load32 m (slot (table_of (load32 m (slot root (vpn1 w)))) i)))
        (let z : vpn0 v ≡ vpn0 w = ap (λ x. bit_and x 0x3ff) e in z)

pub another-page :
    (v w : ℕ) → v < 2 ^ 32 → w < 2 ^ 32 → v / page_size ≢ w / page_size → OtherPage w v
another-page v w lv lw ne = elim (Bool-cases (vpn1 v == vpn1 w)) [
  | inr other ↦ inl (ground arith)
  | inl same ↦ inr (λ e. ne (
      ground (
        arith,
        bit_and-mask 10 (v / 2 ^ 22),
        bit_and-mask 10 (w / 2 ^ 22),
        bit_and-mask 10 (v / 2 ^ 12),
        bit_and-mask 10 (w / 2 ^ 12),
      )))
]

-- The page of `vaddr` is mapped, and all else is kept.
pub record Extended (lo hi vaddr paddr flags : ℕ) (proc proc' : Process) (h h' : Heap)
    : Type 0 where
  pub same_root : proc'.page_table ≡ proc.page_table
  pub keeps : Keeps lo hi proc.page_table (OtherPage vaddr) h h'
  pub found :
      (v : ℕ)
      → v / page_size ≡ vaddr / page_size
      → translate proc.page_table h'.memory v ≡ some (paddr / page_size * 2 ^ 10 + flags + 1)

pub map_page-Extended :
    (lo hi vaddr paddr flags : ℕ) (proc proc' : Process) (h h' : Heap)
    → IsTree lo hi proc.page_table h
    → vaddr % page_size ≡ 0
    → paddr % page_size ≡ 0
    → paddr < 2 ^ 32
    → flags < 2 ^ 10
    → flags % 2 ≡ 0
    → map_page vaddr paddr flags proc h ≡ ok (proc', h')
    → Extended lo hi vaddr paddr flags proc proc' h h'
map_page-Extended lo hi vaddr paddr flags proc proc' h h' t av ap' small lt even e =
    elim (map_page_lem lo hi vaddr paddr flags proc h t.rooted av ap' small lt even) [
      | inr (why, failed, _) ↦
          let bad : ◌≡◌ {A = Result (Process × Heap)} (panic why) (ok (proc', h')) =
            sym failed ∙ e in
          cc
      | inl (q, g, done, mapped) ↦
          let same : ◌≡◌ {A = Process × Heap} (q, g) (proc', h') = ok-injective (sym done ∙ e) in
          let m =
            subst (λ (r : Process × Heap). Mapped lo hi vaddr paddr flags proc r.0 r.1) same
              mapped in
          record {
            same_root = m.same_root;
            keeps = map_page-Keeps lo hi vaddr paddr flags proc proc' h h' t av ap' e;
            found = λ v at.
                translate-page proc.page_table v vaddr h'.memory at
                ∙ ap (λ r. translate r h'.memory vaddr) (sym m.same_root)
                ∙ m.mapped;
          }
    ]
