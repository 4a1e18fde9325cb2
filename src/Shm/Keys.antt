-- ===== src/Shm/Keys.antt =====
-- kernel/shm.c: keys and identifiers.
use risc_v_os.Base.{
  ℕ, ◌<◌, ◌≡◌, ◌≢◌, refl, sym, ap, ◌∙◌, Bool, true, false, not, none, some, List, arith,
  if◌then◌else◌, ◌⊎◌, set, length, find_index, find_index-some, find_index-none, find_index-eq,
  get_or-set_self, get_or-set_ne, length-set, Result, ok, panic, Result-cases, Option-cases,
  Bool-cases, inl, inr, subst,
}
use risc_v_os.Allocator.{alloc_pages}
use risc_v_os.Shm.{
  ShmObject, Pool, no_object, object, has_key, find_by_key, not_positive, minus_one, make_object,
  make_in, get_found, shm_get,
}

-- A new object is the one that its key finds.
find_by_key-set :
    (key i : ℕ) (t : List ShmObject) (o : ShmObject)
    → find_by_key key t ≡ none
    → i < length t
    → has_key key o ≡ true
    → find_by_key key (set t i o) ≡ some i
unfolding find_by_key
find_by_key-set key i t o absent lt hit =
    find_index-eq (has_key key) (set t i o) no_object i (omega (arith, length-set t i o))
      (ap (has_key key) (get_or-set_self t i o no_object lt) ∙ hit)
      (λ j below.
        ap (has_key key) (get_or-set_ne t i j o no_object (omega arith))
        ∙ find_index-none (has_key key) t no_object absent j (omega arith))

-- Where the key has an object, `shm_get` answers its identifier and changes nothing.
shm_get-present :
    (key i : ℕ) (s : Pool)
    → not_positive key ≡ false
    → find_by_key key s.shm.shm_table ≡ some i
    → shm_get key s ≡ ok ((object s.shm.shm_table i).id, s)
unfolding shm_get get_found
shm_get-present key i s pos found =
    ap (λ b. if b then ok (minus_one, s) else get_found key (find_by_key key s.shm.shm_table) s) pos
    ∙ ap (λ f. get_found key f s) found

-- What `shm_get` may answer: no, with nothing changed; the object that the key then finds; or the
-- allocator's panic.
abbrev pub Answer : ℕ → Pool → Result (ℕ × Pool) → Type 0
Answer key s (ok (id, t)) =
    ((id ≡ minus_one) × (t ≡ s))
    ⊎ ((not_positive key ≡ false)
        × ((i : ℕ) × (find_by_key key t.shm.shm_table ≡ some i)
            × ((object t.shm.shm_table i).id ≡ id)))
Answer key s (panic why) = alloc_pages 1 s.heap ≡ panic why

make_object-Answer :
    (key i : ℕ) (s : Pool)
    → not_positive key ≡ false
    → find_by_key key s.shm.shm_table ≡ none
    → i < length s.shm.shm_table
    → Answer key s (make_object key i s)
unfolding make_object
make_object-Answer key i s pos absent lt = elim (Result-cases (alloc_pages 1 s.heap)) [
  | inr (why, failed) ↦ rw failed failed
  | inl ((pa, region_idx, h), done) ↦
      let o : ShmObject = record {
        used = true;
        id = s.shm.next_shm_id;
        key = key;
        pa = pa;
        region_idx = region_idx;
        size = 4096;
        refcount = 0;
      } in
      rw done (
        inr (
          pos,
          (
            i,
            find_by_key-set key i s.shm.shm_table o absent lt (ground arith),
            ap (λ (x : ShmObject). x.id) (get_or-set_self s.shm.shm_table i o no_object lt),
          ),
        ))
]

get_found-Answer :
    (key : ℕ) (s : Pool)
    → not_positive key ≡ false
    → Answer key s (get_found key (find_by_key key s.shm.shm_table) s)
unfolding get_found make_in
get_found-Answer key s pos = elim (Option-cases (find_by_key key s.shm.shm_table)) [
  | inr (i, found) ↦
      subst (λ f. Answer key s (get_found key f s)) (sym found) (inr (pos, (i, found, refl)))
  | inl absent ↦
      subst (λ f. Answer key s (get_found key f s)) (sym absent)
        (elim (Option-cases (find_index (λ (o : ShmObject). not o.used) s.shm.shm_table)) [
          | inl full ↦ subst (λ f. Answer key s (make_in key f s)) (sym full) (inl (refl, refl))
          | inr (i, free) ↦
              subst (λ f. Answer key s (make_in key f s)) (sym free)
                (make_object-Answer key i s pos absent
                  (find_index-some (λ (o : ShmObject). not o.used) s.shm.shm_table no_object i
                    free).0)
        ])
]

-- Every call of `shm_get` answers -1 and changes nothing, or answers the identifier of the object
-- that its key then finds, or ends in the panic of the allocator.
pub shm_get-Answer : (key : ℕ) (s : Pool) → Answer key s (shm_get key s)
unfolding shm_get
shm_get-Answer key s = elim (Bool-cases (not_positive key)) [
  | inl refused ↦ subst (λ b. Answer key s (chosen b)) (sym refused) (inl (refl, refl))
  | inr pos ↦ subst (λ b. Answer key s (chosen b)) (sym pos) (get_found-Answer key s pos)
]
  where
    chosen : Bool → Result (ℕ × Pool)
    chosen b = if b then ok (minus_one, s) else get_found key (find_by_key key s.shm.shm_table) s

-- `shm_get` makes an object at most once: where it has answered an identifier for a key, the same
-- key is answered by the same identifier, and nothing more is allocated.
pub shm_get_again :
    (key id : ℕ) (s s' : Pool)
    → shm_get key s ≡ ok (id, s')
    → id ≢ minus_one
    → shm_get key s' ≡ ok (id, s')
shm_get_again key id s s' e ne = elim (subst (Answer key s) e (shm_get-Answer key s)) [
  | inl (refused, _) ↦ absurd (ne refused)
  | inr (pos, (i, found, same)) ↦ shm_get-present key i s' pos found ∙ ap (λ n. ok (n, s')) same
]
