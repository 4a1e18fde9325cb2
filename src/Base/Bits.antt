-- ===== src/Base/Bits.antt =====
-- Shifts and masks at variables: joining a shifted word to its low bits, and cutting low bits off.
use Prim.Native.Nat.{
  ℕ, zero, suc, ◌+◌, ◌-◌, ◌*◌, ◌/◌, ◌%◌, ◌^◌, ◌≤◌, ◌<◌, min, max, bit_and, bit_or, digits,
  bit_and-bitwise, bit_or-bitwise,
}
use native.Mathlib.Nat.{pow-suc, pow-succ', one-le-pow, zero-mod, zero-div, div-div-eq-div-mul}
use mathlib.Core.Path.{◌≡◌, refl, ap, sym, ◌∙◌}
use native.Mathlib.Omega.{arith}

-- The digit recursion behind the native operations, with room for `r` digits.
abbrev ors : ℕ → ℕ → ℕ → ℕ
ors r a b = digits (λ x. x) max r a b

abbrev ands : ℕ → ℕ → ℕ → ℕ
ands r a b = digits (λ x. zero) min r a b

ors-zero_left : (r b : ℕ) → ors r 0 b ≡ b
ors-zero_left zero b = refl
ors-zero_left (suc r) b = refl

ands-zero_left : (r b : ℕ) → ands r 0 b ≡ 0
ands-zero_left zero b = refl
ands-zero_left (suc r) b = refl

ors-suc : (r a b : ℕ) → ors (suc r) a b ≡ ors r (a / 2) (b / 2) * 2 + max (a % 2) (b % 2)
ors-suc r zero b = omega (arith, ors-zero_left r (b / 2))
ors-suc r (suc a) b = refl

ands-suc : (r a b : ℕ) → ands (suc r) a b ≡ ands r (a / 2) (b / 2) * 2 + min (a % 2) (b % 2)
ands-suc r zero b = omega (arith, ands-zero_left r (b / 2))
ands-suc r (suc a) b = refl

ors-zero_right : (r a : ℕ) → a ≤ r → ors r a 0 ≡ a
ors-zero_right zero zero h = refl
ors-zero_right zero (suc a) h = absurd (omega arith)
ors-zero_right (suc r) a h = omega (arith, ors-suc r a 0, ors-zero_right r (a / 2) (omega arith))

ands-zero_right : (r a : ℕ) → ands r a 0 ≡ 0
ands-zero_right zero a = refl
ands-zero_right (suc r) a = omega (arith, ands-suc r a 0, ands-zero_right r (a / 2))

ors-shift : (k r x a b : ℕ) → x ≡ a * 2 ^ k → x ≤ r → b < 2 ^ k → ors r x b ≡ x + b
ors-shift zero r x a b e h lt =
    let z : b ≡ 0 = omega arith in rw z (omega (arith, ors-zero_right r x h))
ors-shift (suc k) zero x a b e h lt = let z : x ≡ 0 = omega arith in rw z (omega arith)
ors-shift (suc k) (suc r) x a b e h lt = omega (
  arith,
  ors-suc r x b,
  ors-shift k r (x / 2) a (b / 2) (omega (arith, ap (λ t. a * t) (pow-suc 2 k))) (omega arith)
      (omega (arith, pow-suc 2 k)),
  ap (λ t. a * t) (pow-suc 2 k),
)

halves_mod : (p a : ℕ) → 0 < p → a / 2 % p * 2 + a % 2 ≡ a % (p * 2)
halves_mod p a h = grind arith

ands-mask : (k r a m : ℕ) → m ≡ 2 ^ k - 1 → a ≤ r → ands r a m ≡ a % 2 ^ k
ands-mask zero r a m e h = let z : m ≡ 0 = omega arith in rw z (omega (arith, ands-zero_right r a))
ands-mask (suc k) zero a m e h = let z : a ≡ 0 = omega arith in rw z (sym (zero-mod (2 ^ suc k)))
ands-mask (suc k) (suc r) a m e h = omega (
  arith,
  ands-suc r a m,
  ands-mask k r (a / 2) (m / 2) (omega (arith, pow-suc 2 k, one-le-pow k 2 (omega arith)))
      (omega arith),
  one-le-pow k 2 (omega arith),
  halves_mod (2 ^ k) a (one-le-pow k 2 (omega arith)),
  pow-suc 2 k,
  ap (λ t. a % t) (pow-suc 2 k),
)

-- (x << k) | b, for b below 2 ^ k.
pub bit_or-shift : (k a b : ℕ) → b < 2 ^ k → bit_or (a * 2 ^ k) b ≡ a * 2 ^ k + b
bit_or-shift k a b h =
    bit_or-bitwise (a * 2 ^ k) b ∙ ors-shift k (a * 2 ^ k) (a * 2 ^ k) a b refl (omega arith) h

-- x & (2 ^ k - 1).
pub bit_and-mask : (k a : ℕ) → bit_and a (2 ^ k - 1) ≡ a % 2 ^ k
bit_and-mask k a = bit_and-bitwise a (2 ^ k - 1) ∙ ands-mask k a a (2 ^ k - 1) refl (omega arith)

pub bit_or-low : (k x a b : ℕ) → x ≡ a * 2 ^ k → b < 2 ^ k → bit_or x b ≡ x + b
bit_or-low k x a b e h = bit_or-bitwise x b ∙ ors-shift k x x a b e (omega arith) h

ands-bit : (k r a m : ℕ) → m ≡ 2 ^ k → a ≤ r → ands r a m ≡ a / 2 ^ k % 2 * 2 ^ k
ands-bit zero zero a m e h = let z : a ≡ 0 = omega arith in rw z (omega (arith, ands-zero_left 0 m))
ands-bit zero (suc r) a m e h =
    omega
      (arith, ands-suc r a m, ands-zero_right r (a / 2), ap (λ t. ands r (a / 2) t) (half_one m e))
  where
    half_one : (m : ℕ) → m ≡ 2 ^ 0 → m / 2 ≡ 0
    half_one m e = omega arith
ands-bit (suc k) zero a m e h = let z : a ≡ 0 = omega arith in rw z (rw zero-div (omega arith))
ands-bit (suc k) (suc r) a m e h = omega (
  arith,
  ands-suc r a m,
  ands-bit k r (a / 2) (m / 2) (omega (arith, pow-suc 2 k)) (omega arith),
  pow-suc 2 k,
  ap (λ t. t % 2 * 2 ^ suc k) (halved k a),
  ap (λ t. (a / 2 / 2 ^ k % 2) * t) (pow-suc 2 k),
)
  where
    halved : (k a : ℕ) → a / 2 ^ suc k ≡ a / 2 / 2 ^ k
    halved k a = ap (λ t. a / t) (pow-succ' 2 k) ∙ sym (div-div-eq-div-mul a 2 (2 ^ k))

-- x & (1 << k).
pub bit_and-bit : (k a : ℕ) → bit_and a (2 ^ k) ≡ a / 2 ^ k % 2 * 2 ^ k
bit_and-bit k a = bit_and-bitwise a (2 ^ k) ∙ ands-bit k a a (2 ^ k) refl (omega arith)
