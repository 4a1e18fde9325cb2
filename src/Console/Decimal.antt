-- ===== src/Console/Decimal.antt =====
-- kernel/common.c: `printNum` prints the decimal numeral of its argument.
use native.Mathlib.Nat.{pow-suc, one-le-pow, div-add-mod, mod-lt}
use native.Mathlib.Numerals.{add-one}
use risc_v_os.Base.{
  ℕ, zero, suc, ◌+◌, ◌-◌, ◌*◌, ◌/◌, ◌%◌, ◌^◌, ◌≤◌, ◌<◌, ◌≡◌, refl, ap, ◌∙◌, some, List, [], ◌∷◌,
  leb, ◌==◌, if◌then◌else◌, arith, All, Bool-cases, ==-ne, leb→le, inl, inr, ◌≢◌, ◌⊎◌,
}
use risc_v_os.Console.{scale, emit, positive_digits, print_num}

-- The number that a numeral stands for, behind a prefix worth `acc`.
abbrev pub value : ℕ → List ℕ → ℕ
value acc [] = acc
value acc (c ∷ cs) = value (acc * 10 + (c - b'0')) cs

abbrev pub IsDigit : ℕ → Type 0
IsDigit c = (b'0' ≤ c) × (c ≤ b'9')

-- The `int` that the text stands for, as its bit pattern.
abbrev pub decode : List ℕ → ℕ
decode [] = 0
decode (c ∷ cs) = if c == b'-' then 2 ^ 32 - value 0 cs else value 0 (c ∷ cs)

module _ (k num m : ℕ) (em : m ≡ 10 ^ suc k / 10) (lt : num < 10 ^ suc k) where
  m_pow : m ≡ 10 ^ k
  m_pow = omega (arith, em, pow-suc 10 k)

  digit_small : num / m ≤ 9
  digit_small = grind (arith, div-add-mod num m, pow-suc 10 k, m_pow)

  rest_small : num % m < 10 ^ k
  rest_small =
      omega (arith, m_pow, mod-lt num {m = m} (omega (arith, m_pow, one-le-pow k 10 (omega arith))))

emit-value :
    (count num m acc : ℕ)
    → m ≡ 10 ^ count / 10
    → num < 10 ^ count
    → value acc (emit count num m) ≡ acc * 10 ^ count + num
unfolding emit
emit-value zero num m acc e h = omega arith
emit-value (suc k) num m acc e h =
    ap (λ d. value (acc * 10 + d) (emit k (num % m) (m / 10))) digit
    ∙ emit-value k (num % m) (m / 10) (acc * 10 + num / m) (omega (arith, m_pow k num m e h))
        (rest_small k num m e h)
    ∙ omega (
      arith,
      div-add-mod num m,
      ap (λ t. t * (num / m)) (m_pow k num m e h),
      ap (λ t. acc * t) (pow-suc 10 k),
    )
  where
    digit : b'0' + num / m - b'0' ≡ num / m
    digit = omega arith

emit-IsDigit :
    (count num m : ℕ) → m ≡ 10 ^ count / 10 → num < 10 ^ count → All IsDigit (emit count num m)
unfolding emit
emit-IsDigit zero num m e h = tt
emit-IsDigit (suc k) num m e h = (
  (omega arith, omega (arith, digit_small k num m e h)),
  emit-IsDigit k (num % m) (m / 10) (omega (arith, m_pow k num m e h)) (rest_small k num m e h),
)

-- What `scale` finds: the power of ten of the first digit.
record Scaled (num : ℕ) (found : ℕ × ℕ) : Type 0 where
  power : found.0 * 10 ≡ 10 ^ found.1
  reached : found.0 ≤ num
  enough : num < 10 ^ found.1

scale-Scaled :
    (fuel num magnitude count : ℕ)
    → magnitude * 10 ≡ 10 ^ count
    → magnitude ≤ num
    → num < 10 ^ (count + fuel)
    → Scaled num (scale fuel num magnitude count)
unfolding scale
scale-Scaled zero num magnitude count e le h = record {
  power = e;
  reached = le;
  enough = let z : count + 0 ≡ count = omega arith in rw z at h;
}
scale-Scaled (suc fuel) num magnitude count e le h = elim (Bool-cases (leb magnitude (num / 10))) [
  | inl more ↦ rw more (
      scale-Scaled fuel num (magnitude * 10) (count + 1)
        (omega (arith, e, ap (λ t. 10 ^ t) (add-one count), pow-suc 10 count)) (ground arith)
        (let z : count + 1 + fuel ≡ count + suc fuel = omega arith in rw z h))
  | inr last ↦ rw last (record { power = e; reached = le; enough = ground arith })
]

positive_digits-value :
    (num : ℕ)
    → 1 ≤ num
    → num < 2 ^ 32
    → (value 0 (positive_digits num) ≡ num) × All IsDigit (positive_digits num)
positive_digits-value num le h = (
  omega (
    arith,
    emit-value (scale 10 num 1 1).1 num (scale 10 num 1 1).0 0 (omega (arith, s.power)) s.enough,
  ),
  emit-IsDigit (scale 10 num 1 1).1 num (scale 10 num 1 1).0 (omega (arith, s.power)) s.enough,
)
  where
    s : Scaled num (scale 10 num 1 1)
    s = scale-Scaled 10 num 1 1 (omega arith) le (omega arith)

first-not_minus : (cs : List ℕ) → All IsDigit cs → decode cs ≡ value 0 cs
first-not_minus [] h = refl
first-not_minus (c ∷ cs) h = ground arith

-- A text of decimal digits alone, or one with a sign in front of them.
abbrev pub Natural : ℕ → List ℕ → Type 0
Natural w text = (w < 2 ^ 31) × All IsDigit text

abbrev pub Negative : ℕ → List ℕ → Type 0
Negative w text = (2 ^ 31 < w) × (ds : List ℕ) × (text ≡ b'-' ∷ ds) × All IsDigit ds

-- Every `int` but the least is printed, and its text reads back as it: decimal digits alone where it
-- is not negative, and a sign in front of decimal digits where it is.
pub decode-print_num :
    (w : ℕ)
    → w < 2 ^ 32
    → w ≢ 2 ^ 31
    → (text : List ℕ) × (print_num w ≡ some text)
      × (decode text ≡ w)
      × (Natural w text ⊎ Negative w text)
unfolding print_num
decode-print_num w h ne = elim (Bool-cases (w == 0)) [
  | inl zero? ↦ rw zero? (b'0' ∷ [], refl, ground arith, inl (ground arith, (omega arith, tt)))
  | inr some_digits ↦
      rw (some_digits, ==-ne w (2 ^ 31) ne)
        (elim (Bool-cases (leb (2 ^ 31) w)) [
          | inl negative ↦ rw negative (
            b'-' ∷ positive_digits (2 ^ 32 - w),
            refl,
            omega (
              arith,
              leb→le _ _ negative,
              (positive_digits-value (2 ^ 32 - w) (omega arith)
                  (omega (arith, leb→le _ _ negative))).0,
            ),
            inr (
              ground arith,
              positive_digits (2 ^ 32 - w),
              refl,
              (positive_digits-value (2 ^ 32 - w) (omega arith)
                  (omega (arith, leb→le _ _ negative))).1,
            ),
          )
          | inr natural ↦ rw natural (
            positive_digits w,
            refl,
            first-not_minus (positive_digits w) (positive_digits-value w (ground arith) h).1
                ∙ (positive_digits-value w (ground arith) h).0,
            inl (ground arith, (positive_digits-value w (ground arith) h).1),
          )
        ])
]
