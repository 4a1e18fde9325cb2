-- ===== src/Processes/Image.antt =====
-- kernel/process.c: the pages of a program that `create_process` loads.
use risc_v_os.Base.{
  ℕ, zero, suc, ◌+◌, ◌-◌, ◌*◌, ◌%◌, ◌^◌, ◌≤◌, ◌<◌, ◌≡◌, ◌⊎◌, inl, inr, sym, ap, ◌∙◌, arith, ok,
  subst, some, returned, ok-injective, Bool-cases, ltb, true, if◌then◌else◌,
}
use risc_v_os.Memory.{Memory, memcpy, memcpy_lem, in_block}
use risc_v_os.Allocator.{Heap, alloc_pages, page_size}
use risc_v_os.Paging.{Process, map_page, keep_region}
use risc_v_os.Paging.Mapping.{translate}
use risc_v_os.Paging.Tree.{IsTree, IsData, fresh_page, below_kept}
use risc_v_os.Paging.Keeps.{Keeps, Keeps-trans, Keeps-weaken, fresh-Keeps, fresh-IsData}
use risc_v_os.Paging.Extend.{OtherPage, AnyAddress}
use risc_v_os.Paging.Step.{map_page-Extended, another-page}
use risc_v_os.Processes.{load_page, load_image, pages, user_base, user_flags, copy_size}
use risc_v_os.Processes.Range.{Grown, Grown-trans, Grown-refl, Outside, leaf_of}

-- The byte at offset `n` stands in a page that the allocator holds, valid for the user to read, write
-- and execute.
abbrev pub HasByte : ℕ → ℕ → ℕ → Heap → Type 0
HasByte root n byte h =
    (q : ℕ) × (translate root h.memory (user_base + n) ≡ some (leaf_of q 0x1f))
    × IsData root q h
    × (h.memory (q + n % page_size) ≡ byte)

pub HasByte-kept :
    (lo hi root n byte : ℕ) (S : ℕ → Type 0) (h g : Heap)
    → Keeps lo hi root S h g
    → S (user_base + n)
    → HasByte root n byte h
    → HasByte root n byte g
HasByte-kept lo hi root n byte S h g k s (q, found, d, at) =
    let (d', same) = k.pages q d in
    (
      q,
      k.translations (user_base + n) s ∙ found,
      d',
      same (q + n % page_size) (omega arith) (omega arith) ∙ at,
    )

module _ (lo hi image image_size off : ℕ) (m : Memory) where
  -- The bytes of the image from `off` to `last`.
  abbrev pub HasImage : ℕ → ℕ → Heap → Type 0
  HasImage root last h = (n : ℕ) → off ≤ n → n < last → HasByte root n (m (image + n)) h

  pub copied :
      (page idx : ℕ) (root : ℕ) (h g : Heap)
      → IsTree lo hi root h
      → alloc_pages 1 h ≡ ok (page, idx, g)
      → image + image_size ≤ lo
      → off < image_size
      → (x : ℕ)
      → memcpy g.memory page (image + off) (copy_size image_size off) x ≡ (
          if in_block page (copy_size image_size off) x
          then g.memory (image + off + (x - page))
          else g.memory x)
  copied page idx root h g t e below within x =
      let facts = fresh_page lo hi page idx h g t.rooted.owned e in
      memcpy_lem g.memory page (image + off) (copy_size image_size off) x (ground arith)

  -- The table with the page filled, before it is mapped.
  pub copied-IsTree :
      (page idx root : ℕ) (h g : Heap)
      → IsTree lo hi root h
      → alloc_pages 1 h ≡ ok (page, idx, g)
      → image + image_size ≤ lo
      → off < image_size
      → IsTree lo hi root
          (record g { memory = memcpy g.memory page (image + off) (copy_size image_size off) })
  copied-IsTree page idx root h g t first below within =
      (fresh-Keeps lo hi root page idx h g _ t first
        (λ x out. ground (arith, copied page idx root h g t first below within x))).tree

  pub load_page-Grown :
      (proc proc' : Process) (h h' : Heap)
      → IsTree lo hi proc.page_table h
      → ((x : ℕ) → x < lo → h.memory x ≡ m x)
      → image + image_size ≤ lo
      → off < image_size
      → off % page_size ≡ 0
      → user_base + image_size < 2 ^ 32
      → load_page image image_size off proc h ≡ ok (proc', h')
      → Grown lo hi (OtherPage (user_base + off)) proc proc' h h'
        × ((n : ℕ)
            → off ≤ n
            → n < off + page_size
            → n < image_size
            → HasByte proc.page_table n (m (image + n)) h')
  unfolding load_page
  load_page-Grown proc proc' h h' t low below within aligned room e =
      let ((page, idx, g), first, rest) = returned (alloc_pages 1 h) _ _ e in
      let root = proc.page_table in
      let size = copy_size image_size off in
      let filled = memcpy g.memory page (image + off) size in
      let facts = fresh_page lo hi page idx h g t.rooted.owned first in
      let bytes = copied page idx root h g t first below within in
      let outside : (x : ℕ) → (x < page) ⊎ (page + page_size ≤ x) → filled x ≡ g.memory x =
        λ x out. ground (arith, bytes x) in
      let keeps = fresh-Keeps lo hi root page idx h g filled t first outside in
      let d = fresh-IsData lo hi root page idx h g filled t first outside in
      let address : (user_base + off) % 2 ^ 32 ≡ user_base + off = omega arith in
      let x =
        map_page-Extended lo hi (user_base + off) page user_flags (keep_region idx proc) proc'
          (record g { memory = filled }) h' keeps.tree (omega arith) facts.0 facts.1 (omega arith)
          (omega arith)
          (sym (
              ap
                (λ a.
                  map_page a page user_flags (keep_region idx proc) (record g { memory = filled }))
                address)
            ∙ rest) in
      let (d', same) = x.keeps.pages page d in
      (
        record {
          same_root = x.same_root;
          keeps =
              Keeps-trans lo hi root (OtherPage (user_base + off)) h (record g { memory = filled })
                h'
                (Keeps-weaken lo hi root AnyAddress (OtherPage (user_base + off)) h
                  (record g { memory = filled }) (λ _ _. tt) keeps)
                x.keeps;
        },
        λ n above under inside. (
          page,
          x.found (user_base + n) (ground arith) ∙ ap some (omega arith),
          d',
          same (page + n % page_size) (omega arith) (omega arith)
              ∙ bytes (page + n % page_size)
              ∙ ap
                  (λ b.
                    if b
                    then g.memory (image + off + (page + n % page_size - page))
                    else g.memory (page + n % page_size))
                  (let z : in_block page size (page + n % page_size) ≡ true = ground arith in z)
              ∙ ap g.memory (
                  let z : image + off + (page + n % page_size - page) ≡ image + n = omega arith in
                  z)
              ∙ below_kept lo hi page idx h g t.rooted.owned first (image + n) (omega arith)
              ∙ low (image + n) (omega arith),
        ),
      )

pub load_image-Grown :
    (lo hi image image_size rounds off : ℕ) (m : Memory) (proc proc' : Process) (h h' : Heap)
    → IsTree lo hi proc.page_table h
    → ((x : ℕ) → x < lo → h.memory x ≡ m x)
    → image + image_size ≤ lo
    → off % page_size ≡ 0
    → user_base + image_size + page_size < 2 ^ 32
    → rounds ≡ pages (image_size - off)
    → load_image rounds off image image_size proc h ≡ ok (proc', h')
    → Grown lo hi (Outside (user_base + off) (user_base + off + rounds * page_size)) proc proc' h h'
      × HasImage lo hi image image_size off m proc.page_table image_size h'
unfolding load_image
load_image-Grown lo hi image image_size zero off m proc proc' h h' t low below aligned room count
      e =
    subst
      (λ (r : Process × Heap).
        Grown lo hi (Outside (user_base + off) (user_base + off + 0 * page_size)) proc r.0 h r.1
        × HasImage lo hi image image_size off m proc.page_table image_size r.1)
      (ok-injective e) (Grown-refl lo hi _ proc h t, λ n above under. absurd (omega arith))
load_image-Grown lo hi image image_size (suc rounds) off m proc proc' h h' t low below aligned room
      count e =
    let ((p, g), first, rest) = returned (load_page image image_size off proc h) _ _ e in
    let root = proc.page_table in
    let (now, here) =
      load_page-Grown lo hi image image_size off m proc p h g t low below (omega arith) aligned
        (omega arith) first in
    let next : (off + page_size) % 2 ^ 32 ≡ off + page_size = omega arith in
    let (later, rest_here) =
      load_image-Grown lo hi image image_size rounds (off + page_size) m p proc' g h'
        (subst (λ r. IsTree lo hi r g) (sym now.same_root) now.keeps.tree)
        (λ x under. now.keeps.low x under ∙ low x under) below (omega arith) room (omega arith)
        (sym (ap (λ a. load_image rounds a image image_size p g) next) ∙ rest) in
    (
      Grown-trans lo hi (OtherPage (user_base + off))
          (Outside (user_base + (off + page_size))
            (user_base + (off + page_size) + rounds * page_size))
          _ proc p proc' h g h'
          (λ v (small, out). (
            another-page v (user_base + off) small (omega arith) (ground arith),
            (small, ground arith),
          ))
          now later,
      λ n above under. elim (Bool-cases (ltb n (off + page_size))) [
        | inl soon ↦
            subst (λ r. HasByte r n (m (image + n)) h') now.same_root
              (HasByte-kept lo hi p.page_table n (m (image + n)) _ g h' later.keeps
                (omega arith, ground arith)
                (subst (λ r. HasByte r n (m (image + n)) g) (sym now.same_root)
                  (here n above (ground arith) under)))
        | inr after ↦
            subst (λ r. HasByte r n (m (image + n)) h') now.same_root
              (rest_here n (ground arith) under)
      ],
    )
