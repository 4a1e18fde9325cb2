-- ===== src/Shell/Address.antt =====
-- user/shell.c: `parse_ipv4` and the notation of addresses that it accepts.
use Prim.Native.Nat.{bit_or}
use risc_v_os.Base.{
  ℕ, suc, zero, ◌+◌, ◌*◌, ◌^◌, ◌≤◌, ◌<◌, ◌≡◌, ◌↔◌, inl, inr, refl, sym, ap, ◌∙◌, arith, Bool,
  Option, none, some, Option-cases, List, [], ◌∷◌, ◌++◌, All, length, if◌then◌else◌, Bool-cases,
  ◌==◌, ==-ne, ==→eq, subst, append-nil,
}
use risc_v_os.Base.Word.{u32}
use risc_v_os.Base.Bits.{bit_or-low}
use risc_v_os.Console.Decimal.{value, IsDigit}
use risc_v_os.Shell.{parse_number, after_dot, between, parse_parts, parse_ipv4}
use risc_v_os.Shell.Digits.{Stops, parse_number-digits, parse_number-Number}

-- A number of an address: one digit or more, leading zeros allowed, and at most 255.
pub record IsPart (ds : List ℕ) (n : ℕ) : Type 0 where
  pub some_digit : 0 < length ds
  pub all_digits : All IsDigit ds
  pub value_is : value 0 ds ≡ n
  pub small : n ≤ 255

-- The text is so many numbers with a dot between each two, and the address is theirs, behind the
-- number that stands in front, in base 256.
pub data Dotted : ℕ → ℕ → List ℕ → ℕ → Type 0 where
  last : {front : ℕ} {n : ℕ} {ds : List ℕ} → IsPart ds n → Dotted 1 front ds (front * 256 + n)
  more :
      {parts : ℕ} {front : ℕ} {n : ℕ} {ip : ℕ} {ds : List ℕ} {text : List ℕ}
      → IsPart ds n
      → Dotted (suc parts) (front * 256 + n) text ip
      → Dotted (suc (suc parts)) front (ds ++ (b'.' ∷ text)) ip

-- The number in front fits, with the parts that are to come.
bound : ℕ → ℕ
bound zero = 2 ^ 32
bound (suc zero) = 2 ^ 24
bound (suc (suc zero)) = 2 ^ 16
bound (suc (suc (suc zero))) = 2 ^ 8
bound (suc (suc (suc (suc zero)))) = 1
bound (suc (suc (suc (suc (suc parts))))) = 0

bound-step :
    (parts front n : ℕ) → front < bound (suc parts) → n ≤ 255 → front * 256 + n < bound parts
unfolding bound
bound-step zero front n lt small = omega arith
bound-step (suc zero) front n lt small = omega arith
bound-step (suc (suc zero)) front n lt small = omega arith
bound-step (suc (suc (suc zero))) front n lt small = omega arith
bound-step (suc (suc (suc (suc parts)))) front n lt small = absurd (omega arith)

bound-word : (parts front : ℕ) → front < bound (suc parts) → front < 2 ^ 24
unfolding bound
bound-word zero front lt = omega arith
bound-word (suc zero) front lt = omega arith
bound-word (suc (suc zero)) front lt = omega arith
bound-word (suc (suc (suc zero))) front lt = omega arith
bound-word (suc (suc (suc (suc parts)))) front lt = absurd (omega arith)

joined : (front n : ℕ) → front < 2 ^ 24 → n ≤ 255 → bit_or (u32 (front * 2 ^ 8)) n ≡ front * 256 + n
joined front n lt small =
    omega (arith, bit_or-low 8 (u32 (front * 2 ^ 8)) front n (omega arith) (omega arith))

abbrev go_on : ℕ → ℕ → Option (List ℕ) → Option ℕ
go_on parts front o = elim o [ none ↦ none | some behind ↦ parse_parts parts front behind ]

-- One part, read.
parse_step :
    (parts front n k : ℕ) (text rest : List ℕ)
    → front < bound (suc parts)
    → n ≤ 255
    → parse_number 0 0 text ≡ some (n, k, rest)
    → parse_parts (suc parts) front text
      ≡ (if k == 0 then none else go_on parts (front * 256 + n) (between parts rest))
unfolding parse_parts
parse_step parts front n k text rest lt small e =
    ap from_number e
    ∙ ap (λ v. if k == 0 then none else go_on parts v (between parts rest))
        (joined front n (bound-word parts front lt) small)
  where
    from_number : Option (ℕ × ℕ × List ℕ) → Option ℕ
    from_number o = elim o [
      | none ↦ none
      | some (number, digits, rest) ↦
          if digits == 0
          then none
          else go_on parts (bit_or (u32 (front * 2 ^ 8)) number) (between parts rest)
    ]

part_read :
    (parts front n : ℕ) (ds rest : List ℕ)
    → front < bound (suc parts)
    → IsPart ds n
    → Stops rest
    → parse_parts (suc parts) front (ds ++ rest)
      ≡ go_on parts (front * 256 + n) (between parts rest)
part_read parts front n ds rest lt p stops =
    let size = p.value_is in
    let bounded = p.small in
    let digit = p.some_digit in
    parse_step parts front n (0 + length ds) (ds ++ rest) rest lt p.small (
      parse_number-digits 0 0 ds rest p.all_digits stops (omega arith)
      ∙ ap (λ v. some (v, 0 + length ds, rest)) p.value_is)
    ∙ ap (λ b. if b then none else go_on parts (front * 256 + n) (between parts rest))
        (==-ne (0 + length ds) 0 (omega arith))

Dotted→parsed :
    (parts front : ℕ) (text : List ℕ) (ip : ℕ)
    → front < bound parts
    → Dotted parts front text ip
    → parse_parts parts front text ≡ some ip
unfolding parse_parts after_dot
Dotted→parsed zero front text ip lt d = elim d [ ]
Dotted→parsed (suc zero) front text ip lt (last {n = n} {ds = ds} p) =
    ap (parse_parts 1 front) (sym (append-nil ds)) ∙ part_read zero front n ds [] lt p tt
Dotted→parsed (suc (suc parts)) front text ip lt (more {n = n} {ds = ds} {text = rest} p d) =
    part_read (suc parts) front n ds (b'.' ∷ rest) lt p refl
    ∙ Dotted→parsed (suc parts) (front * 256 + n) rest ip
        (bound-step (suc parts) front n lt p.small) d

some-eq : {a b : ℕ} → ◌≡◌ {A = Option ℕ} (some a) (some b) → a ≡ b
some-eq {a = a} e = ap (λ o. elim o [ none ↦ a | some c ↦ c ]) e

-- The text behind the last part is empty.
last_part :
    (front n ip : ℕ) (ds rest : List ℕ)
    → IsPart ds n
    → parse_parts zero (front * 256 + n) rest ≡ some ip
    → Dotted 1 front (ds ++ rest) ip
unfolding parse_parts
last_part front n ip ds [] p e =
    subst (λ t. Dotted 1 front t ip) (sym (append-nil ds))
      (subst (λ v. Dotted 1 front ds v) (some-eq e) (last p))
last_part front n ip ds (c ∷ rest) p e =
    let bad : ◌≡◌ {A = Option ℕ} none (some ip) = e in absurd cc

none-some : {ip : ℕ} → ◌≡◌ {A = Option ℕ} none (some ip) → ⊥
none-some e = absurd cc

-- Behind another part stands a dot.
next_part :
    (parts front n ip : ℕ) (ds rest : List ℕ)
    → IsPart ds n
    → go_on (suc parts) (front * 256 + n) (after_dot rest) ≡ some ip
    → ((text : List ℕ)
        → parse_parts (suc parts) (front * 256 + n) text ≡ some ip
        → Dotted (suc parts) (front * 256 + n) text ip)
    → Dotted (suc (suc parts)) front (ds ++ rest) ip
unfolding after_dot
next_part parts front n ip ds [] p e step = absurd (none-some e)
next_part parts front n ip ds (c ∷ rest) p e step = elim (Bool-cases (c == b'.')) [
  | inr other ↦ absurd (
      none-some (
        sym (ap (λ b. go_on (suc parts) (front * 256 + n) (if b then some rest else none)) other)
        ∙ e))
  | inl dot ↦
      subst (λ d. Dotted (suc (suc parts)) front (ds ++ (d ∷ rest)) ip) (sym (==→eq c b'.' dot))
        (more p (
          step rest (
            sym (ap (λ b. go_on (suc parts) (front * 256 + n) (if b then some rest else none)) dot)
            ∙ e)))
]

-- The first part of a text that parses, and what is left to parse.
record First (parts front ip : ℕ) (text : List ℕ) : Type 0 where
  n : ℕ
  ds : List ℕ
  rest : List ℕ
  part : IsPart ds n
  text_is : text ≡ ds ++ rest
  goes_on : go_on parts (front * 256 + n) (between parts rest) ≡ some ip

leading_number :
    (parts front : ℕ) (text : List ℕ) (ip : ℕ)
    → front < bound (suc parts)
    → parse_parts (suc parts) front text ≡ some ip
    → First parts front ip text
unfolding parse_parts
leading_number parts front text ip lt e = elim (Option-cases (parse_number 0 0 text)) [
  | inl failed ↦ absurd (none-some (sym (rw (failed, parse_parts) refl) ∙ e))
  | inr ((n, k, rest), read) ↦
      let num = parse_number-Number 0 0 text n k rest (omega arith) read in
      let count = num.count in
      let e' = sym (parse_step parts front n k text rest lt num.small read) ∙ e in
      elim (Bool-cases (k == 0)) [
        | inl nothing ↦ absurd (none-some (sym (ap (tested n rest) nothing) ∙ e'))
        | inr digit ↦ record {
          n = n;
          ds = num.ds;
          rest = rest;
          part = record {
            some_digit = ground arith;
            all_digits = num.all_digits;
            value_is = sym num.value_is;
            small = num.small;
          };
          text_is = num.text_is;
          goes_on = sym (ap (tested n rest) digit) ∙ e';
        }
      ]
]
  where
    tested : ℕ → List ℕ → Bool → Option ℕ
    tested n rest b = if b then none else go_on parts (front * 256 + n) (between parts rest)

parsed→Dotted :
    (parts front : ℕ) (text : List ℕ) (ip : ℕ)
    → front < bound (suc parts)
    → parse_parts (suc parts) front text ≡ some ip
    → Dotted (suc parts) front text ip
parsed→Dotted zero front text ip lt e =
    let f = leading_number zero front text ip lt e in
    subst (λ t. Dotted 1 front t ip) (sym f.text_is)
      (last_part front f.n ip f.ds f.rest f.part f.goes_on)
parsed→Dotted (suc parts) front text ip lt e =
    let f = leading_number (suc parts) front text ip lt e in
    subst (λ t. Dotted (suc (suc parts)) front t ip) (sym f.text_is)
      (next_part parts front f.n ip f.ds f.rest f.part f.goes_on (λ t parsed.
        parsed→Dotted parts (front * 256 + f.n) t ip
          (bound-step (suc parts) front f.n lt f.part.small) parsed))

-- `parse_ipv4` accepts exactly the texts of four decimal numbers of at most 255 with a dot between each
-- two and nothing behind, and answers the address that they make, the first in the highest byte.
pub parse_ipv4-Dotted : (text : List ℕ) (ip : ℕ) → (parse_ipv4 text ≡ some ip) ↔ Dotted 4 0 text ip
unfolding parse_ipv4 bound
parse_ipv4-Dotted text ip =
    (parsed→Dotted 3 0 text ip (omega arith), Dotted→parsed 4 0 text ip (omega arith))
