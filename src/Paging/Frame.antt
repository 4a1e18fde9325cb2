-- ===== src/Paging/Frame.antt =====
-- kernel/process.c: an empty second level, linked into the page table.
use Prim.Native.Nat.{bit_or}
use risc_v_os.Base.{
  ℕ, ◌+◌, ◌%◌, ◌^◌, ◌≤◌, ◌<◌, ◌≡◌, ◌≢◌, ◌⊎◌, inl, inr, refl, sym, ap, ◌∙◌, true, false, Bool, arith,
  if◌then◌else◌, ◌==◌, Bool-cases, none, ==→eq, subst,
}
use risc_v_os.Allocator.{Heap, page_size}
use risc_v_os.Allocator.Ownership.{holders}
use risc_v_os.Paging.{load32, store32, page_v, slot, is_invalid, table_of, ppn, vpn1, vpn0}
use risc_v_os.Paging.Words.{load32-store32, load32-store32_apart, load32-ext, store32_elsewhere}
use risc_v_os.Paging.Root.{pointer-eq, written}
use risc_v_os.Paging.Mapping.{translate, leaf, vpn-lt}
use risc_v_os.Paging.Tree.{SamePage, entry, IsTree, IsData, entry_kept, translate-ext}
use risc_v_os.Paging.Keeps.{word_elsewhere, lo-le-held}

-- Where the first level leads nowhere, it is made to lead to a page of zeros.
module _ (lo hi root p vpn : ℕ) (g : Heap) (t : IsTree lo hi root g) (d : IsData root p g)
    (small : p < 2 ^ 32) (lt : vpn < 1024) (unused : is_invalid (entry g.memory root vpn) ≡ true)
    (zeros : (x : ℕ) → p ≤ x → x < p + page_size → g.memory x ≡ 0) where
  abbrev pub pointer : ℕ
  pointer = bit_or (ppn p) page_v

  abbrev pub linked : Heap
  linked = record g { memory = store32 g.memory (slot root vpn) pointer }

  leads : entry linked.memory root vpn ≡ pointer
  leads = load32-store32 g.memory (slot root vpn) pointer (omega (arith, pointer-eq p small))

  pointer_page : table_of pointer ≡ p
  pointer_page = omega (arith, pointer-eq p small, d.aligned)

  others : (i : ℕ) → i ≢ vpn → entry linked.memory root i ≡ entry g.memory root i
  others i ne = load32-store32_apart g.memory (slot root vpn) (slot root i) pointer (ground arith)

  -- An entry is the new one, or it is as it was.
  entries :
      (i : ℕ)
      → (table_of (entry linked.memory root i) ≡ p) × (i ≡ vpn)
        ⊎ (entry linked.memory root i ≡ entry g.memory root i) × (i ≢ vpn)
  entries i = elim (Bool-cases (i == vpn)) [
    | inl same ↦
        let at = ==→eq i vpn same in
        inl (
          ap (λ j. table_of (entry linked.memory root j)) at ∙ ap table_of leads ∙ pointer_page,
          at,
        )
    | inr other ↦ let ne : i ≢ vpn = ground arith in inr (others i ne, ne)
  ]

  elsewhere : (q : ℕ) → q % page_size ≡ 0 → root ≢ q → SamePage g.memory linked.memory q
  elsewhere q aligned ne = word_elsewhere q root vpn pointer g.memory aligned t.rooted.aligned ne lt

  pub linked-IsTree : IsTree lo hi root linked
  linked-IsTree = record {
    rooted = written lo hi root g linked.memory t.rooted (λ i _. elim (entries i) [
      | inl (new, _) ↦ inr (λ e. d.not_root (sym new ∙ e))
      | inr (old, _) ↦ inl old
    ]);
    tables_held = λ i below used. elim (entries i) [
      | inl (new, _) ↦ subst (λ q. 0 < holders q g.regions) (sym new) d.is_held
      | inr (old, _) ↦
          subst (λ w. 0 < holders (table_of w) g.regions) (sym old)
            (t.tables_held i below (sym (ap is_invalid old) ∙ used))
    ];
    distinct = λ i j li lj ne ui uj eq. elim (entries i) [
      | inl (new, at) ↦ elim (entries j) [
        | inl (_, at') ↦ ne (at ∙ sym at')
        | inr (old, _) ↦
            d.not_table j lj (sym (ap is_invalid old) ∙ uj) (sym (ap table_of old) ∙ sym eq ∙ new)
      ]
      | inr (old, _) ↦ elim (entries j) [
        | inl (new, _) ↦
            d.not_table i li (sym (ap is_invalid old) ∙ ui) (sym (ap table_of old) ∙ eq ∙ new)
        | inr (old', _) ↦
            t.distinct i j li lj ne (sym (ap is_invalid old) ∙ ui) (sym (ap is_invalid old') ∙ uj)
              (sym (ap table_of old) ∙ eq ∙ ap table_of old')
      ]
    ];
  }

  pub linked-IsData :
      (q : ℕ) → IsData root q g → p ≢ q → IsData root q linked × SamePage g.memory linked.memory q
  linked-IsData q e ne = (
    record {
      aligned = e.aligned;
      is_held = e.is_held;
      not_root = e.not_root;
      not_table = λ i li used eq. elim (entries i) [
        | inl (new, _) ↦ ne (sym new ∙ eq)
        | inr (old, _) ↦
            e.not_table i li (sym (ap is_invalid old) ∙ used) (sym (ap table_of old) ∙ eq)
      ];
    },
    elsewhere q e.aligned (λ eq. e.not_root (sym eq)),
  )

  pub linked-below : (x : ℕ) → x < lo → linked.memory x ≡ g.memory x
  linked-below x below =
      let ge = lo-le-held lo hi root g t.rooted.owned t.rooted.root_held in
      store32_elsewhere g.memory (slot root vpn) pointer x (omega arith)

  zero_entry : (i : ℕ) → i < 1024 → load32 linked.memory (slot p i) ≡ 0
  unfolding load32
  zero_entry i below =
      load32-ext (λ _. 0) linked.memory (slot p i)
        (λ x above under.
          elsewhere p d.aligned (λ eq. d.not_root (sym eq)) x (omega arith) (omega arith)
          ∙ zeros x (omega arith) (omega arith))
      ∙ zero_word
    where
      zero_word : load32 (λ _. 0) (slot p i) ≡ 0
      zero_word = refl

  -- The new table is empty, as the missing one was.
  pub linked-translate : (v : ℕ) → translate root linked.memory v ≡ translate root g.memory v
  linked-translate v = elim (entries (vpn1 v)) [
    | inl (new, at) ↦
        through (is_invalid (entry linked.memory root (vpn1 v)))
          (ap (λ q. load32 linked.memory (slot q (vpn0 v))) new ∙ zero_entry (vpn0 v) (vpn-lt _))
        ∙ sym (
            ap
              (λ b.
                if b
                then none
                else leaf
                    (load32 g.memory (slot (table_of (entry g.memory root (vpn1 v))) (vpn0 v))))
              (ap (λ i. is_invalid (entry g.memory root i)) at ∙ unused))
    | inr (old, ne) ↦ translate-ext root v g.memory linked.memory old (λ used.
        entry_kept g.memory linked.memory _ (vpn0 v)
          (elsewhere _ (omega arith) (λ eq. t.rooted.apart (vpn1 v) (vpn-lt _) used (sym eq)))
          (vpn-lt _))
  ]
    where
      through : (b : Bool) {w : ℕ} → w ≡ 0 → (if b then none else leaf w) ≡ none
      through true z = refl
      through false z = ap leaf z
