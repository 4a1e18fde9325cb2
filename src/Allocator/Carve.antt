-- ===== src/Allocator/Carve.antt =====
-- kernel/allocator.c: cutting an allocated region off a free one.
use risc_v_os.Base.{
  ℕ, ◌+◌, ◌%◌, ◌^◌, ◌≤◌, ◌<◌, ◌≡◌, sym, ap, ◌∙◌, true, ◌&&◌, some, none, List, arith, ◌==◌, leb,
  if◌then◌else◌, length, length-set, All-set, All-get_or, sum-set-set, set, get_or-set_ne,
  get_or-set_self, get_or-set_view, set-set_self, Bool-cases, inl, inr, ◌≢◌, find_index-some,
}
use risc_v_os.Base.Word.{add32, sub32}
use risc_v_os.Memory.{in_block}
use risc_v_os.Allocator.{
  Region, region, blank, unused, allocated, is_free, is_unused, page_size, carve,
  find_unused_region_slot, find_suitable_free_region,
}
use risc_v_os.Allocator.Ownership.{
  vacant, held, vacancies, holders, holding, Fits, IsValid, blank-Fits,
}

-- The new allocated region, and what is left of the free region `r`.
abbrev pub taken : Region → ℕ → Region
taken r required_size = record { start = r.start; size = required_size; state = allocated }

abbrev pub left : Region → ℕ → Region
left r required_size =
    if sub32 r.size required_size == 0
    then record r { start = 0; size = sub32 r.size required_size; state = unused }
    else record r { start = add32 r.start required_size; size = sub32 r.size required_size }

-- With two indices `carve` is two writes.
pub carve_lem :
    (f u q : ℕ) (rs : List Region)
    → u ≢ f
    → carve f u q rs ≡ set (set rs u (taken (region rs f) q)) f (left (region rs f) q)
unfolding carve
carve_lem f u q rs ne =
    rw (get_or-set_ne rs u f (taken (region rs f) q) blank ne)
      (elim (Bool-cases (sub32 (region rs f).size q == 0)) [
        | inl used_up ↦ rw used_up (set-set_self _ f _ _)
        | inr more ↦ rw more
      ])

module _ (limit q a : ℕ) (r : Region) (fits : Fits limit r) (room : limit < 2 ^ 32)
    (q_lt : q < 2 ^ 32) (enough : q ≤ r.size) (is : is_free r ≡ true) where
  vacant-left : vacant a (left r q) + (if in_block r.start q a then 1 else 0) ≡ vacant a r
  vacant-left = ground arith

  held-left : held a (left r q) ≡ 0
  held-left = ground arith

  holding-left : holding (left r q) ≡ none
  holding-left = ground arith

  left-Fits : q % page_size ≡ 0 → Fits limit (left r q)
  left-Fits al = ground arith

  taken-Fits : q % page_size ≡ 0 → Fits limit (taken r q)
  taken-Fits al = ground arith

unused-idle : (a : ℕ) (r : Region) → is_unused r ≡ true → (vacant a r ≡ 0) × (held a r ≡ 0)
unused-idle a r h = ground arith

free-not_held : (a : ℕ) (r : Region) → is_free r ≡ true → held a r ≡ 0
free-not_held a r h = ground arith

free-holding : (r : Region) → is_free r ≡ true → holding r ≡ none
free-holding r h = ground arith

-- The facts about the two indices that the searches of `alloc_region` find.
module _ (limit q f u : ℕ) (rs : List Region) (v : IsValid limit rs) (q_lt : q < 2 ^ 32)
    (aligned : q % page_size ≡ 0) (found_free : find_suitable_free_region q rs ≡ some f)
    (found_slot : find_unused_region_slot rs ≡ some u) where
  found_f : (f < length rs) × ((is_free (region rs f) && leb q (region rs f).size) ≡ true)
  unfolding find_suitable_free_region
  found_f = find_index-some (λ r. is_free r && leb q r.size) rs blank f found_free

  pub found_u : (u < length rs) × (is_unused (region rs u) ≡ true)
  unfolding find_unused_region_slot
  found_u = find_index-some is_unused rs blank u found_slot

  pub f-IsFree : is_free (region rs f) ≡ true
  f-IsFree = ground (arith, found_f)

  f-enough : q ≤ (region rs f).size
  f-enough = ground (arith, found_f)

  indices-ne : u ≢ f
  indices-ne e = ground (arith, ap (λ i. is_free (region rs i)) e, f-IsFree, found_u)

  f-Fits : Fits limit (region rs f)
  f-Fits = All-get_or (Fits limit) rs f blank v.fits (blank-Fits limit)

  pub carve-IsValid : IsValid limit (carve f u q rs)
  carve-IsValid = rw (carve_lem f u q rs indices-ne) record {
    slots = omega (arith, v.slots, length-set rs u, length-set (set rs u _) f);
    room = v.room;
    fits =
        All-set (Fits limit) _ f _
          (All-set (Fits limit) rs u _ v.fits
            (taken-Fits limit q 0 (region rs f) f-Fits v.room q_lt f-enough f-IsFree aligned))
          (left-Fits limit q 0 (region rs f) f-Fits v.room q_lt f-enough f-IsFree aligned);
  }

  -- The block leaves the free bytes and joins the allocated ones; no other byte moves.
  pub vacancies-carve :
      (a : ℕ)
      → vacancies a (carve f u q rs) + (if in_block (region rs f).start q a then 1 else 0)
        ≡ vacancies a rs
  vacancies-carve a = rw (carve_lem f u q rs indices-ne) (
      omega (
        arith,
        sum-set-set (vacant a) rs u f (taken (region rs f) q) (left (region rs f) q) blank
            indices-ne found_u.0 found_f.0,
        vacant-left limit q a (region rs f) f-Fits v.room q_lt f-enough f-IsFree,
        unused-idle a (region rs u) found_u.1,
      ))

  pub holders-carve :
      (a : ℕ)
      → holders a (carve f u q rs)
        ≡ holders a rs + (if in_block (region rs f).start q a then 1 else 0)
  holders-carve a = rw (carve_lem f u q rs indices-ne) (
      omega (
        arith,
        sum-set-set (held a) rs u f (taken (region rs f) q) (left (region rs f) q) blank indices-ne
            found_u.0 found_f.0,
        held-left limit q a (region rs f) f-Fits v.room q_lt f-enough f-IsFree,
        free-not_held a (region rs f) f-IsFree,
        unused-idle a (region rs u) found_u.1,
      ))

  pub region-carve_slot : region (carve f u q rs) u ≡ taken (region rs f) q
  region-carve_slot = rw (carve_lem f u q rs indices-ne) (
      get_or-set_ne (set rs u (taken (region rs f) q)) f u _ blank (λ e. indices-ne (sym e))
      ∙ get_or-set_self rs u _ blank found_u.0)

  pub holding-carve_other :
      (k : ℕ) → k ≢ u → holding (region (carve f u q rs) k) ≡ holding (region rs k)
  holding-carve_other k ne = rw (carve_lem f u q rs indices-ne) (
      get_or-set_view holding (set rs u (taken (region rs f) q)) f k _ blank (kept_f)
      ∙ ap holding (get_or-set_ne rs u k (taken (region rs f) q) blank (λ e. ne (sym e))))
    where
      kept_f :
          holding (left (region rs f) q) ≡ holding (region (set rs u (taken (region rs f) q)) f)
      kept_f =
          holding-left limit q 0 (region rs f) f-Fits v.room q_lt f-enough f-IsFree
          ∙ sym (
              ap holding (get_or-set_ne rs u f (taken (region rs f) q) blank indices-ne)
              ∙ free-holding (region rs f) f-IsFree)
