-- ===== src/Files/Octal.antt =====
-- kernel/filesystem.c: octal numbers in a header.
use risc_v_os.Base.{
  ℕ, zero, suc, ◌+◌, ◌-◌, ◌*◌, ◌/◌, ◌%◌, ◌^◌, ◌≤◌, ◌<◌, ◌≡◌, ◌⊎◌, inl, inr, refl, sym, ap, ◌∙◌,
  arith, true, ltb, if◌then◌else◌, Bool-cases,
}
use risc_v_os.Base.Word.{u32}
use risc_v_os.Memory.{Memory, store8}
use risc_v_os.Files.{octal_digits, oct2int_from, oct2int, is_octal}
use native.Mathlib.Nat.{pow-suc}

pub octal_digits_elsewhere :
    (n at value : ℕ) (m : Memory) (x : ℕ)
    → (x < at) ⊎ (at + n ≤ x)
    → octal_digits n at value m x ≡ m x
unfolding octal_digits
octal_digits_elsewhere zero at value m x out = refl
octal_digits_elsewhere (suc n) at value m x out =
    octal_digits_elsewhere n at (value / 8) (store8 m (at + n) (value % 8 + b'0')) x (ground arith)
    ∙ ground arith

-- Bytes from `at` on that are all digits.
abbrev pub AllOctal : ℕ → Memory → ℕ → Type 0
AllOctal n m at = (x : ℕ) → at ≤ x → x < at + n → is_octal (m x) ≡ true

octal_digits-AllOctal : (n at value : ℕ) (m : Memory) → AllOctal n (octal_digits n at value m) at
unfolding octal_digits
octal_digits-AllOctal zero at value m x above below = absurd (omega arith)
octal_digits-AllOctal (suc n) at value m x above below = elim (Bool-cases (ltb x (at + n))) [
  | inl front ↦
      octal_digits-AllOctal n at (value / 8) (store8 m (at + n) (value % 8 + b'0')) x above
        (ground arith)
  | inr last ↦
      ap is_octal (
        octal_digits_elsewhere n at (value / 8) (store8 m (at + n) (value % 8 + b'0')) x
          (ground arith))
      ∙ ground arith
]

oct2int_step :
    (n : ℕ) (m : Memory) (at dec : ℕ)
    → is_octal (m at) ≡ true
    → oct2int_from (suc n) m at dec ≡ oct2int_from n m (at + 1) (u32 (dec * 8 + (m at - b'0')))
unfolding oct2int_from
oct2int_step n m at dec e =
    ap (λ b. if b then oct2int_from n m (at + 1) (u32 (dec * 8 + (m at - b'0'))) else dec) e

-- The last digit is read after the others.
oct2int_last :
    (n : ℕ) (m : Memory) (at dec : ℕ)
    → AllOctal (suc n) m at
    → oct2int_from (suc n) m at dec ≡ u32 (oct2int_from n m at dec * 8 + (m (at + n) - b'0'))
unfolding oct2int_from
oct2int_last zero m at dec all =
    oct2int_step zero m at dec (all at (omega arith) (omega arith))
    ∙ ap (λ a. u32 (dec * 8 + (m a - b'0'))) (let z : at ≡ at + 0 = omega arith in z)
oct2int_last (suc n) m at dec all =
    oct2int_step (suc n) m at dec (all at (omega arith) (omega arith))
    ∙ oct2int_last n m (at + 1) (u32 (dec * 8 + (m at - b'0')))
        (λ x above below. all x (omega arith) (omega arith))
    ∙ ap (λ v. u32 (v * 8 + (m (at + 1 + n) - b'0')))
        (sym (oct2int_step n m at dec (all at (omega arith) (omega arith))))
    ∙ ap (λ a. u32 (oct2int_from (suc n) m at dec * 8 + (m a - b'0')))
        (let z : at + 1 + n ≡ at + suc n = omega arith in z)

-- `oct2int` reads back the number that was written, where it has that many digits and 32 bits.
pub oct2int-octal_digits :
    (n at value : ℕ) (m : Memory)
    → value < 8 ^ n
    → value < 2 ^ 32
    → oct2int (octal_digits n at value m) at n ≡ value
unfolding octal_digits oct2int_from
oct2int-octal_digits zero at value m small word = omega arith
oct2int-octal_digits (suc n) at value m small word =
    let here : store8 m (at + n) (value % 8 + b'0') (at + n) ≡ value % 8 + b'0' = ground arith in
    let rest = octal_digits n at (value / 8) (store8 m (at + n) (value % 8 + b'0')) in
    oct2int_last n rest at 0 (octal_digits-AllOctal (suc n) at value m)
    ∙ omega (
      arith,
      oct2int-octal_digits n at (value / 8) (store8 m (at + n) (value % 8 + b'0'))
          (omega (arith, pow-suc 8 n)) (omega arith),
      octal_digits_elsewhere n at (value / 8) (store8 m (at + n) (value % 8 + b'0')) (at + n)
          (inr (omega arith)),
    )

-- It depends on the bytes of the field alone.
pub oct2int-ext :
    (n : ℕ) (m k : Memory) (at dec : ℕ)
    → ((x : ℕ) → at ≤ x → x < at + n → k x ≡ m x)
    → oct2int_from n k at dec ≡ oct2int_from n m at dec
unfolding oct2int_from
oct2int-ext zero m k at dec same = refl
oct2int-ext (suc n) m k at dec same =
    ap (λ c. if is_octal c then oct2int_from n k (at + 1) (u32 (dec * 8 + (c - b'0'))) else dec)
      (same at (omega arith) (omega arith))
    ∙ ap (λ v. if is_octal (m at) then v else dec)
        (oct2int-ext n m k (at + 1) _ (λ x above below. same x (omega arith) (omega arith)))

pub octal_digits_small :
    (n at value : ℕ) (m : Memory) (x : ℕ) → m x < 256 → octal_digits n at value m x < 256
unfolding octal_digits
octal_digits_small zero at value m x small = small
octal_digits_small (suc n) at value m x small =
    octal_digits_small n at (value / 8) (store8 m (at + n) (value % 8 + b'0')) x (ground arith)
