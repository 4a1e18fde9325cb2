-- ===== src/Console/Hex.antt =====
-- kernel/common.c: `printPointer` prints eight hexadecimal digits.
use Prim.Native.Nat.{bit_and}
use native.Mathlib.Nat.{
  pow-suc, one-le-pow, div-add-mod, mod-lt, mod-eq_of_lt, add-mul-mod_self_right,
}
use risc_v_os.Base.{
  ℕ, zero, suc, ◌+◌, ◌-◌, ◌*◌, ◌/◌, ◌%◌, ◌^◌, ◌≤◌, ◌<◌, ◌≡◌, refl, ap, sym, ◌∙◌, List, [], ◌∷◌, leb,
  if◌then◌else◌, arith, length,
}
use risc_v_os.Base.Bits.{bit_and-mask}
use risc_v_os.Console.{pointer_digits, print_pointer}

abbrev pub hex_digit : ℕ → ℕ
hex_digit c = if leb b'a' c then c - b'a' + 10 else c - b'0'

abbrev pub hex_value : ℕ → List ℕ → ℕ
hex_value acc [] = acc
hex_value acc (c ∷ cs) = hex_value (acc * 16 + hex_digit c) cs

hex_digit_lem : (t : ℕ) → t < 16 → hex_digit (if leb 10 t then b'a' + t - 10 else b'0' + t) ≡ t
hex_digit_lem t h = ground arith

sixteens : (i : ℕ) → 2 ^ (i * 4) ≡ 16 ^ i
sixteens zero = refl
sixteens (suc i) = omega (
  arith,
  sixteens i,
  pow-suc 16 i,
  ap (λ t. 2 ^ t) four,
  pow-suc 2 (i * 4),
  pow-suc 2 (suc (i * 4)),
  pow-suc 2 (suc (suc (i * 4))),
  pow-suc 2 (suc (suc (suc (i * 4)))),
)
  where
    four : suc i * 4 ≡ suc (suc (suc (suc (i * 4))))
    four = omega arith

below : (q d r : ℕ) → d ≤ 15 → r < q → d * q + r < q * 16
below q d r h k = grind arith

nibble_mod : (q p : ℕ) → 0 < q → p / q % 16 * q + p % q ≡ p % (q * 16)
nibble_mod q p h =
    sym (mod-eq_of_lt (below q (p / q % 16) (p % q) (omega arith) (mod-lt p h)))
    ∙ sym (add-mul-mod_self_right (p / q % 16 * q + p % q) (p / q / 16) (q * 16))
    ∙ ap (λ t. t % (q * 16)) whole
  where
    parts : p / q ≡ 16 * (p / q / 16) + p / q % 16
    parts = omega arith

    whole : p / q % 16 * q + p % q + p / q / 16 * (q * 16) ≡ p
    whole = omega (arith, div-add-mod p q, ap (λ t. q * t) parts)

pointer_digits-value :
    (i p acc : ℕ) → hex_value acc (pointer_digits i p) ≡ acc * 16 ^ i + p % 16 ^ i
unfolding pointer_digits
pointer_digits-value zero p acc = omega arith
pointer_digits-value (suc i) p acc =
    ap (λ t. hex_value (acc * 16 + t) (pointer_digits i p)) digit
    ∙ pointer_digits-value i p (acc * 16 + p / 16 ^ i % 16)
    ∙ omega (
      arith,
      pow-suc 16 i,
      ap (λ t. acc * t) (pow-suc 16 i),
      nibble_mod (16 ^ i) p (one-le-pow i 16 (omega arith)),
      ap (λ t. p % t) (pow-suc 16 i),
    )
  where
    nibble : bit_and (p / 2 ^ (i * 4)) 0xf ≡ p / 16 ^ i % 16
    nibble = bit_and-mask 4 (p / 2 ^ (i * 4)) ∙ ap (λ t. p / t % 16) (sixteens i)

    digit :
        hex_digit (
          if leb 10 (bit_and (p / 2 ^ (i * 4)) 0xf)
          then b'a' + bit_and (p / 2 ^ (i * 4)) 0xf - 10
          else b'0' + bit_and (p / 2 ^ (i * 4)) 0xf)
        ≡ p / 16 ^ i % 16
    digit = hex_digit_lem (bit_and (p / 2 ^ (i * 4)) 0xf) (omega (arith, nibble)) ∙ nibble

length-pointer_digits : (i p : ℕ) → length (pointer_digits i p) ≡ i
unfolding pointer_digits
length-pointer_digits zero p = refl
length-pointer_digits (suc i) p = ap suc (length-pointer_digits i p)

-- The eight hexadecimal digits that are printed for a word read back as the word.
pub hex_value-print_pointer :
    (p : ℕ) → p < 2 ^ 32 → (hex_value 0 (print_pointer p) ≡ p) × (length (print_pointer p) ≡ 8)
unfolding print_pointer
hex_value-print_pointer p h = (omega (arith, pointer_digits-value 8 p 0), length-pointer_digits 8 p)
