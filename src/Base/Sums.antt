-- ===== src/Base/Sums.antt =====
-- Sums of a measure over an array, and how a write changes them.
use Prim.Native.Nat.{ℕ, zero, suc, ◌+◌, ◌<◌, ◌≤◌}
use mathlib.Core.Path.{◌≡◌, refl, ap}
use mathlib.Core.Logic.{◌≢◌}
use mathlib.Core.List.{List, [], ◌∷◌, map}
use native.Mathlib.Omega.{arith}
use risc_v_os.Base.Lists.{length, get_or, set, replicate, length-set, get_or-set_ne}

module _ {ℓ} {A : Type ℓ} (f : A → ℕ) where
  abbrev pub sum : List A → ℕ
  sum [] = 0
  sum (x ∷ xs) = f x + sum xs

  pub sum-set :
      (xs : List A) (i : ℕ) (v d : A)
      → i < length xs
      → sum (set xs i v) + f (get_or xs i d) ≡ sum xs + f v
  sum-set [] i v d h = absurd (omega arith)
  sum-set (x ∷ xs) zero v d h = omega arith
  sum-set (x ∷ xs) (suc i) v d h = omega (arith, sum-set xs i v d (omega arith))

  pub sum-replicate : (n : ℕ) (a : A) → f a ≡ 0 → sum (replicate n a) ≡ 0
  sum-replicate zero a h = refl
  sum-replicate (suc n) a h = omega (arith, sum-replicate n a h)

  pub le-sum : (xs : List A) (i : ℕ) (d : A) → i < length xs → f (get_or xs i d) ≤ sum xs
  le-sum [] i d h = absurd (omega arith)
  le-sum (x ∷ xs) zero d h = omega arith
  le-sum (x ∷ xs) (suc i) d h = omega (arith, le-sum xs i d (omega arith))

  pub sum-set-set :
      (xs : List A) (i j : ℕ) (v w d : A)
      → i ≢ j
      → i < length xs
      → j < length xs
      → sum (set (set xs i v) j w) + f (get_or xs i d) + f (get_or xs j d) ≡ sum xs + f v + f w
  sum-set-set xs i j v w d ne hi hj = ground (
    arith,
    sum-set (set xs i v) j w d,
    sum-set xs i v d hi,
    length-set xs i v,
    get_or-set_ne xs i j v d ne,
  )

module _ {ℓ} {A : Type ℓ} (f : A → ℕ) where
  -- Two different places count both.
  pub add-le-sum :
      (xs : List A) (i j : ℕ) (d : A)
      → i ≢ j
      → i < length xs
      → j < length xs
      → f (get_or xs i d) + f (get_or xs j d) ≤ sum f xs
  add-le-sum [] i j d ne hi hj = absurd (omega arith)
  add-le-sum (x ∷ xs) zero zero d ne hi hj = absurd (ne refl)
  add-le-sum (x ∷ xs) zero (suc j) d ne hi hj = omega (arith, le-sum f xs j d (omega arith))
  add-le-sum (x ∷ xs) (suc i) zero d ne hi hj = omega (arith, le-sum f xs i d (omega arith))
  add-le-sum (x ∷ xs) (suc i) (suc j) d ne hi hj =
      omega (arith, add-le-sum xs i j d (λ e. ne (ap suc e)) (omega arith) (omega arith))

  pub sum-map_const : (xs : List A) (a : A) → f a ≡ 0 → sum f (map (λ _. a) xs) ≡ 0
  sum-map_const [] a h = refl
  sum-map_const (x ∷ xs) a h = omega (arith, sum-map_const xs a h)
