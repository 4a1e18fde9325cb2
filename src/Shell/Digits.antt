-- ===== src/Shell/Digits.antt =====
-- user/shell.c: one number of an address.
use risc_v_os.Base.{
  ℕ, suc, ◌+◌, ◌-◌, ◌*◌, ◌≤◌, ◌≡◌, inl, inr, refl, sym, ap, ◌∙◌, arith, true, false, Option, none,
  some, List, [], ◌∷◌, ◌++◌, All, ltb, length, if◌then◌else◌, Bool-cases, subst,
}
use risc_v_os.Console.Decimal.{value, IsDigit}
use risc_v_os.Shell.{is_digit, parse_number}

-- The text does not go on with a digit.
abbrev pub Stops : List ℕ → Type 0
Stops [] = Unit
Stops (c ∷ text) = is_digit c ≡ false

value-le : (number : ℕ) (ds : List ℕ) → number ≤ value number ds
value-le number [] = omega arith
value-le number (c ∷ ds) = omega (arith, value-le (number * 10 + (c - b'0')) ds)

-- Digits in front of a text that stops them are read, where their value is at most 255.
pub parse_number-digits :
    (number digits : ℕ) (ds rest : List ℕ)
    → All IsDigit ds
    → Stops rest
    → value number ds ≤ 255
    → parse_number number digits (ds ++ rest) ≡ some (value number ds, digits + length ds, rest)
unfolding parse_number
parse_number-digits number digits [] [] all stops small =
    ap (λ d. some (number, d, [])) (let z : digits ≡ digits + 0 = omega arith in z)
parse_number-digits number digits [] (c ∷ rest) all stops small =
    ap
      (λ b.
        if b
        then (if ltb 255 (number * 10 + (c - b'0'))
            then none
            else parse_number (number * 10 + (c - b'0')) (suc digits) rest)
        else some (number, digits, c ∷ rest))
      stops
    ∙ ap (λ d. some (number, d, c ∷ rest)) (let z : digits ≡ digits + 0 = omega arith in z)
parse_number-digits number digits (c ∷ ds) rest (d, all) stops small =
    let next = number * 10 + (c - b'0') in
    let yes : is_digit c ≡ true = ground (arith, d) in
    let fits : ltb 255 next ≡ false = ground (arith, value-le next ds) in
    ap
      (λ b.
        if b
        then (if ltb 255 next then none else parse_number next (suc digits) (ds ++ rest))
        else some (number, digits, c ∷ (ds ++ rest)))
      yes
    ∙ ap (λ b. if b then none else parse_number next (suc digits) (ds ++ rest)) fits
    ∙ parse_number-digits next (suc digits) ds rest all stops small
    ∙ ap (λ k. some (value next ds, k, rest))
        (let z : suc digits + length ds ≡ digits + suc (length ds) = omega arith in z)

-- What a number that was read looks like.
pub record Number (number digits : ℕ) (text : List ℕ) (v k : ℕ) (rest : List ℕ) : Type 0 where
  pub ds : List ℕ
  pub text_is : text ≡ ds ++ rest
  pub all_digits : All IsDigit ds
  pub count : k ≡ digits + length ds
  pub value_is : v ≡ value number ds
  pub small : v ≤ 255
  pub stops : Stops rest

some-pair : {a b : ℕ × ℕ × List ℕ} → ◌≡◌ {A = Option (ℕ × ℕ × List ℕ)} (some a) (some b) → a ≡ b
some-pair {a = a} e = ap (λ o. elim o [ none ↦ a | some c ↦ c ]) e

pub parse_number-Number :
    (number digits : ℕ) (text : List ℕ) (v k : ℕ) (rest : List ℕ)
    → number ≤ 255
    → parse_number number digits text ≡ some (v, k, rest)
    → Number number digits text v k rest
unfolding parse_number
parse_number-Number number digits [] v k rest le e =
    subst (λ (t : ℕ × ℕ × List ℕ). Number number digits [] t.0 t.1 t.2) (some-pair e)
      (record {
        ds = [];
        text_is = refl;
        all_digits = tt;
        count = omega arith;
        value_is = refl;
        small = le;
        stops = tt;
      })
parse_number-Number number digits (c ∷ text) v k rest le e = elim (Bool-cases (is_digit c)) [
  | inr stop ↦
      subst (λ (t : ℕ × ℕ × List ℕ). Number number digits (c ∷ text) t.0 t.1 t.2)
        (some-pair (
          sym (
            ap
              (λ b.
                if b
                then (if ltb 255 next then none else further)
                else some (number, digits, c ∷ text))
              stop)
          ∙ e))
        (record {
          ds = [];
          text_is = refl;
          all_digits = tt;
          count = omega arith;
          value_is = refl;
          small = le;
          stops = stop;
        })
  | inl digit ↦ elim (Bool-cases (ltb 255 next)) [
    | inl big ↦
        let bad : ◌≡◌ {A = Option (ℕ × ℕ × List ℕ)} none (some (v, k, rest)) =
          sym (
            ap
              (λ b.
                if b
                then (if ltb 255 next then none else further)
                else some (number, digits, c ∷ text))
              digit
            ∙ ap (λ b. if b then none else further) big)
          ∙ e in
        absurd cc
    | inr fits ↦
        let n = parse_number-Number next (suc digits) text v k rest (ground arith) (
          sym (
            ap
              (λ b.
                if b
                then (if ltb 255 next then none else further)
                else some (number, digits, c ∷ text))
              digit
            ∙ ap (λ b. if b then none else further) fits)
          ∙ e) in
        record {
          ds = c ∷ n.ds;
          text_is = ap (λ t. c ∷ t) n.text_is;
          all_digits = (ground arith, n.all_digits);
          count = omega (arith, n.count);
          value_is = n.value_is;
          small = n.small;
          stops = n.stops;
        }
  ]
]
  where
    next : ℕ
    next = number * 10 + (c - b'0')

    further : Option (ℕ × ℕ × List ℕ)
    further = parse_number next (suc digits) text
