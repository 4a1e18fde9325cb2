-- ===== src/Allocator/Merge.antt =====
-- kernel/allocator.c: merging joins free regions and changes nothing else.
use risc_v_os.Base.{
  ℕ, ◌+◌, ◌≡◌, refl, sym, ap, ◌∙◌, ◌^◌, none, Bool, true, List, arith, ◌==◌, length-set, All-set,
  All-get_or, sum-set-set, set, get_or-set_ne, get_or-set_self, get_or-set_view, ==→eq,
  count_up_keeps, Bool-cases, inl, inr, ◌≢◌, ◌<◌,
}
use risc_v_os.Base.Word.{add32}
use risc_v_os.Allocator.{
  Region, region, blank, is_free, max_regions, merge_pair, merge_into, merge_free_regions,
}
use risc_v_os.Allocator.Ownership.{
  vacant, held, vacancies, holders, holding, Fits, IsValid, blank-Fits, free-lt-length,
}

-- Two tables that give each byte to the same owner.
pub record SameOwners (before after : List Region) : Type 0 where
  pub vacancy : (a : ℕ) → vacancies a after ≡ vacancies a before
  pub holder : (a : ℕ) → holders a after ≡ holders a before
  pub index : (k : ℕ) → holding (region after k) ≡ holding (region before k)

SameOwners-refl : (rs : List Region) → SameOwners rs rs
SameOwners-refl rs = record { vacancy = λ a. refl; holder = λ a. refl; index = λ k. refl }

SameOwners-trans : {rs ss ts : List Region} → SameOwners rs ss → SameOwners ss ts → SameOwners rs ts
SameOwners-trans h k = record {
  vacancy = λ a. k.vacancy a ∙ h.vacancy a;
  holder = λ a. k.holder a ∙ h.holder a;
  index = λ i. k.index i ∙ h.index i;
}

-- The table after region `j` has been joined to region `i`.
abbrev joined : ℕ → ℕ → List Region → List Region
joined i j rs =
    set (set rs i (record (region rs i) { size = add32 (region rs i).size (region rs j).size })) j
      blank

-- A free region and the free region right behind it span what the joined region spans.
vacant-join :
    (limit a : ℕ) (r t : Region)
    → Fits limit r
    → Fits limit t
    → limit < 2 ^ 32
    → is_free r ≡ true
    → is_free t ≡ true
    → add32 r.start r.size ≡ t.start
    → vacant a (record r { size = add32 r.size t.size }) ≡ vacant a r + vacant a t
vacant-join limit a r t fr ft room h k meet = ground arith

held-free : (a : ℕ) (r : Region) → is_free r ≡ true → held a r ≡ 0
held-free a r h = ground arith

holding-free : (r : Region) → is_free r ≡ true → holding r ≡ none
holding-free r h = ground arith

module _ (limit : ℕ) (rs : List Region) (i j : ℕ) (v : IsValid limit rs) (ne : i ≢ j)
    (fi : is_free (region rs i) ≡ true) (fj : is_free (region rs j) ≡ true)
    (meet : add32 (region rs i).start (region rs i).size ≡ (region rs j).start) where
  abbrev bigger : Region
  bigger = record (region rs i) { size = add32 (region rs i).size (region rs j).size }

  at_i : Fits limit (region rs i)
  at_i = All-get_or (Fits limit) rs i blank v.fits (blank-Fits limit)

  at_j : Fits limit (region rs j)
  at_j = All-get_or (Fits limit) rs j blank v.fits (blank-Fits limit)

  joined-IsValid : IsValid limit (joined i j rs)
  joined-IsValid = record {
    slots = omega (arith, v.slots, length-set rs i, length-set (set rs i _) j blank);
    room = v.room;
    fits =
        All-set (Fits limit) _ j blank
          (All-set (Fits limit) rs i _ v.fits (omega (arith, at_i, at_j, v.room, meet)))
          (blank-Fits limit);
  }

  joined-SameOwners : SameOwners rs (joined i j rs)
  joined-SameOwners = record {
    vacancy = λ a. omega (
      arith,
      sum-set-set (vacant a) rs i j bigger blank blank ne (free-lt-length rs i fi)
          (free-lt-length rs j fj),
      vacant-join limit a (region rs i) (region rs j) at_i at_j v.room fi fj meet,
    );
    holder = λ a. omega (
      arith,
      sum-set-set (held a) rs i j bigger blank blank ne (free-lt-length rs i fi)
          (free-lt-length rs j fj),
      held-free a (region rs i) fi,
      held-free a bigger fi,
      held-free a (region rs j) fj,
    );
    index = λ k.
        get_or-set_view holding (set rs i bigger) j k blank blank
          (sym (ap holding (get_or-set_ne rs i j bigger blank ne) ∙ holding-free (region rs j) fj))
        ∙ get_or-set_view holding rs i k bigger blank
            (holding-free bigger fi ∙ sym (holding-free (region rs i) fi));
  }

  joined-free : is_free (region (joined i j rs) i) ≡ true
  joined-free =
      ap is_free (
        get_or-set_ne (set rs i bigger) j i blank blank (λ e. ne (sym e))
        ∙ get_or-set_self rs i bigger blank (free-lt-length rs i fi))
      ∙ fi

-- What the loops of `merge_free_regions` keep, from one pass of the body to the next.
record Kept (limit : ℕ) (before after : List Region) : Type 0 where
  valid : IsValid limit after
  owners : SameOwners before after

record KeptFree (limit i : ℕ) (before after : List Region) : Type 0 where
  kept : Kept limit before after
  free_i : is_free (region after i) ≡ true

merge_pair-KeptFree :
    (limit i : ℕ) (before : List Region) (j : ℕ) (rs : List Region)
    → KeptFree limit i before rs
    → KeptFree limit i before (merge_pair i j rs)
unfolding merge_pair
merge_pair-KeptFree limit i before j rs h = elim (Bool-cases (i == j)) [
  | inl same ↦ rw same h
  | inr ne ↦ rw ne (elim (Bool-cases (is_free (region rs j))) [
    | inr taken ↦ rw taken h
    | inl fj ↦ rw fj (elim (Bool-cases meets) [
      | inr apart ↦ rw apart h
      | inl meet ↦ rw meet (join fj (==→eq _ _ meet) (ground arith))
    ])
  ])
]
  where
    meets : Bool
    meets = add32 (region rs i).start (region rs i).size == (region rs j).start

    join :
        is_free (region rs j) ≡ true
        → add32 (region rs i).start (region rs i).size ≡ (region rs j).start
        → i ≢ j
        → KeptFree limit i before (joined i j rs)
    join fj meet ne = record {
      kept = record {
        valid = joined-IsValid limit rs i j h.kept.valid ne h.free_i fj meet;
        owners =
            SameOwners-trans h.kept.owners
              (joined-SameOwners limit rs i j h.kept.valid ne h.free_i fj meet);
      };
      free_i = joined-free limit rs i j h.kept.valid ne h.free_i fj meet;
    }

merge_into-Kept :
    (limit : ℕ) (before : List Region) (i : ℕ) (rs : List Region)
    → Kept limit before rs
    → Kept limit before (merge_into i rs)
unfolding merge_into
merge_into-Kept limit before i rs h = elim (Bool-cases (is_free (region rs i))) [
  | inr taken ↦ rw taken h
  | inl fi ↦
      rw fi
        (count_up_keeps (merge_pair i) (KeptFree limit i before)
          (merge_pair-KeptFree limit i before) 0 max_regions rs
          (record { kept = h; free_i = fi })).kept
]

merge_free_regions-Kept :
    (limit : ℕ) (rs : List Region) → IsValid limit rs → Kept limit rs (merge_free_regions rs)
unfolding merge_free_regions
merge_free_regions-Kept limit rs v =
    count_up_keeps merge_into (Kept limit rs) (merge_into-Kept limit rs) 0 max_regions rs
      (record { valid = v; owners = SameOwners-refl rs })

-- Merging keeps the table well formed.
pub merge_free_regions-IsValid :
    (limit : ℕ) (rs : List Region) → IsValid limit rs → IsValid limit (merge_free_regions rs)
merge_free_regions-IsValid limit rs v = (merge_free_regions-Kept limit rs v).valid

-- Merging gives no byte to another owner: every address is spanned by as many free and as many
-- allocated regions as before, and every index holds the block that it held.
pub merge_free_regions-SameOwners :
    (limit : ℕ) (rs : List Region) → IsValid limit rs → SameOwners rs (merge_free_regions rs)
merge_free_regions-SameOwners limit rs v = (merge_free_regions-Kept limit rs v).owners
