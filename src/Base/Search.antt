-- ===== src/Base/Search.antt =====
-- The loop `for (i = 0; i < N; i++) if (test(a[i])) return i; return -1;` over an array.
use Prim.Native.Nat.{ℕ, zero, suc, ◌<◌}
use mathlib.Core.Path.{◌≡◌, refl, ap, subst}
use mathlib.Core.Bool.{Bool, true, false}
use mathlib.Core.List.{List, [], ◌∷◌}
use mathlib.Core.Logic.{inl, inr}
use mathlib.Core.Option.{Option, none, some}
use native.Mathlib.Omega.{arith}
use risc_v_os.Base.Tests.{Bool-cases, ltb, ltb→lt, if◌then◌else◌}
use risc_v_os.Base.Lists.{length, get_or, get_or-past}

abbrev pub next_index : Option ℕ → Option ℕ
next_index none = none
next_index (some i) = some (suc i)

module _ {ℓ} {A : Type ℓ} (p : A → Bool) where
  -- The first index that passes the test; `none` stands for the -1 or NULL of the source.
  unfoldable pub find_index : List A → Option ℕ
  find_index [] = none
  find_index (x ∷ xs) = if p x then some 0 else next_index (find_index xs)

  -- What the search may answer: the first element that passes, or that none does.
  abbrev pub Found : List A → A → Option ℕ → Type 0
  Found xs d none = (j : ℕ) → j < length xs → p (get_or xs j d) ≡ false
  Found xs d (some i) =
      (i < length xs) × (p (get_or xs i d) ≡ true) × ((j : ℕ) → j < i → p (get_or xs j d) ≡ false)

  Found-next :
      (x : A) (xs : List A) (d : A) (o : Option ℕ)
      → p x ≡ false
      → Found xs d o
      → Found (x ∷ xs) d (next_index o)
  Found-next x xs d none e h = none_of
    where
      none_of : (j : ℕ) → j < suc (length xs) → p (get_or (x ∷ xs) j d) ≡ false
      none_of zero lt = e
      none_of (suc j) lt = h j (omega arith)
  Found-next x xs d (some i) e h = (omega (arith, h.0), h.1, before)
    where
      before : (j : ℕ) → j < suc i → p (get_or (x ∷ xs) j d) ≡ false
      before zero lt = e
      before (suc j) lt = h.2 j (omega arith)

  pub find_index-Found : (xs : List A) (d : A) → Found xs d (find_index xs)
  unfolding find_index
  find_index-Found [] d = λ j lt. absurd (omega arith)
  find_index-Found (x ∷ xs) d = elim (Bool-cases (p x)) [
    | inl hit ↦ rw hit (omega arith, hit, λ j lt. absurd (omega arith))
    | inr miss ↦ rw miss (Found-next x xs d (find_index xs) miss (find_index-Found xs d))
  ]

  -- A hit lies in bounds and passes.
  pub find_index-some :
      (xs : List A) (d : A) (i : ℕ)
      → find_index xs ≡ some i
      → (i < length xs) × (p (get_or xs i d) ≡ true)
  find_index-some xs d i e =
      let h : Found xs d (some i) = subst (Found xs d) e (find_index-Found xs d) in (h.0, h.1)

  pub find_index-none :
      (xs : List A) (d : A)
      → find_index xs ≡ none
      → (j : ℕ) → j < length xs
      → p (get_or xs j d) ≡ false
  find_index-none xs d e = subst (Found xs d) e (find_index-Found xs d)

  pub find_index_first :
      (xs : List A) (d : A) (i j : ℕ) → find_index xs ≡ some i → j < i → p (get_or xs j d) ≡ false
  find_index_first xs d i j e lt =
      let h : Found xs d (some i) = subst (Found xs d) e (find_index-Found xs d) in h.2 j lt

  -- The search ends at an index that passes and is the first to.
  pub find_index-eq :
      (xs : List A) (d : A) (i : ℕ)
      → i < length xs
      → p (get_or xs i d) ≡ true
      → ((j : ℕ) → j < i → p (get_or xs j d) ≡ false)
      → find_index xs ≡ some i
  unfolding find_index
  find_index-eq [] d i lt hit before = absurd (omega arith)
  find_index-eq (x ∷ xs) d zero lt hit before = rw hit
  find_index-eq (x ∷ xs) d (suc i) lt hit before =
      rw (before 0 (omega arith)) (
        ap next_index (find_index-eq xs d i (omega arith) hit λ j le. before (suc j) (omega arith)))

  -- Two arrays of one length that pass at the same places are searched alike.
  pub find_index-ext :
      (xs ys : List A) (d : A)
      → length xs ≡ length ys
      → ((j : ℕ) → p (get_or xs j d) ≡ p (get_or ys j d))
      → find_index xs ≡ find_index ys
  unfolding find_index
  find_index-ext [] [] d e same = refl
  find_index-ext [] (y ∷ ys) d e same = absurd (omega arith)
  find_index-ext (x ∷ xs) [] d e same = absurd (omega arith)
  find_index-ext (x ∷ xs) (y ∷ ys) d e same = rw (same 0) (
      ap (λ o. if p y then some 0 else next_index o)
        (find_index-ext xs ys d (omega arith) λ j. same (suc j)))

  -- Where the default fails the test too, a failed search speaks of every index.
  pub find_index-none_at :
      (xs : List A) (d : A)
      → find_index xs ≡ none
      → p d ≡ false
      → (j : ℕ) → p (get_or xs j d) ≡ false
  find_index-none_at xs d e h j = elim (Bool-cases (ltb j (length xs))) [
    | inl inside ↦ find_index-none xs d e j (ltb→lt j (length xs) inside)
    | inr past ↦ rw (get_or-past xs j d (ground arith)) h
  ]
