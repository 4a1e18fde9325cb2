-- ===== src/Base/Failure.antt =====
-- Fallible kernel code. `PANIC` of include/kernel.h prints and then loops for ever, so a panic is
-- the end of the run: nothing after it is executed.
use mathlib.Core.Path.{◌≡◌, refl, ap}
use mathlib.Core.Logic.{◌⊎◌, inl, inr}

pub data Panic : Type 0 where
  out_of_memory invalid_region_index region_not_allocated : Panic
  unaligned_vaddr unaligned_paddr no_free_process_slots invalid_tar_header : Panic

pub data Result {ℓ} (A : Type ℓ) : Type ℓ where
  ok : A → Result A
  panic : Panic → Result A

infixl 5 ◌>>=◌
abbrev pub ◌>>=◌ {ℓ κ} : {A : Type ℓ} {B : Type κ} → Result A → (A → Result B) → Result B
ok a >>= f = f a
panic e >>= f = panic e

pub Result-cases {ℓ} :
    {A : Type ℓ} (m : Result A) → ((a : A) × (m ≡ ok a)) ⊎ ((e : Panic) × (m ≡ panic e))
Result-cases (ok a) = inl (a, refl)
Result-cases (panic e) = inr (e, refl)

pub ok-injective {ℓ} : {A : Type ℓ} {a b : A} → ok a ≡ ok b → a ≡ b
ok-injective {a = a} e = ap (λ m. elim m [ ok b ↦ b | panic _ ↦ a ]) e

pub panic-injective {ℓ} :
    {A : Type ℓ} {d e : Panic} → ◌≡◌ {A = Result A} (panic d) (panic e) → d ≡ e
panic-injective {d = d} p = ap (λ m. elim m [ ok _ ↦ d | panic c ↦ c ]) p

-- A chain that returns has returned at each link.
pub returned {ℓ κ} :
    {A : Type ℓ} {B : Type κ} (m : Result A) (f : A → Result B) (b : B)
    → (m >>= f) ≡ ok b
    → (a : A) × (m ≡ ok a) × (f a ≡ ok b)
returned (ok a) f b e = (a, refl, e)
returned (panic why) f b e = let bad : ◌≡◌ {A = Result _} (panic why) (ok b) = e in cc

-- A chain that panics does so at its first link or after it.
pub stopped {ℓ κ} :
    {A : Type ℓ} {B : Type κ} (m : Result A) (f : A → Result B) (why : Panic)
    → (m >>= f) ≡ panic why
    → (m ≡ panic why) ⊎ ((a : A) × (m ≡ ok a) × (f a ≡ panic why))
stopped (ok a) f why e = inr (a, refl, e)
stopped (panic d) f why e = inl (ap panic (panic-injective e))
