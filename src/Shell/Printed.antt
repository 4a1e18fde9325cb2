-- ===== src/Shell/Printed.antt =====
-- user/shell.c against kernel/arp.c: an address as the kernel prints it is read by the shell.
use Prim.Native.Nat.{bit_and}
use risc_v_os.Base.{
  ℕ, ◌+◌, ◌-◌, ◌*◌, ◌/◌, ◌^◌, ◌<◌, ◌≡◌, refl, sym, ap, ◌∙◌, arith, Option, none, some, List, [],
  ◌∷◌, ◌++◌, All, length, if◌then◌else◌, ==-ne, append-nil, inl, inr,
}
use risc_v_os.Base.Bits.{bit_and-mask}
use risc_v_os.Console.{printf, print_num, directive, args_after}
use risc_v_os.Console.Decimal.{value, IsDigit, decode, decode-print_num}
use risc_v_os.Net.Stack.{print_ipv4}
use risc_v_os.Shell.{parse_ipv4}
use risc_v_os.Shell.Address.{IsPart, last, more, parse_ipv4-Dotted}

printed_number :
    (w : ℕ) (text : List ℕ)
    → print_num w ≡ some text
    → decode text ≡ w
    → All IsDigit text
    → w < 256
    → IsPart text w
unfolding print_num
printed_number w [] printed decoded digits small =
    let zero_text : print_num 0 ≡ some [] = ap print_num decoded ∙ printed in
    let bad : ◌≡◌ {A = ℕ} 1 0 =
      ap (λ (o : Option (List ℕ)). elim o [ none ↦ 0 | some t ↦ length t ]) zero_text in
    absurd (omega arith)
printed_number w (c ∷ text) printed decoded digits small = record {
  some_digit = omega arith;
  all_digits = digits;
  value_is =
      sym (
        ap (λ b. if b then 2 ^ 32 - value 0 text else value 0 (c ∷ text))
          (==-ne c b'-' (λ e. absurd (omega (arith, digits.0)))))
      ∙ decoded;
  small = omega arith;
}

-- The text of a number of eight bits.
printed-IsPart : (w : ℕ) → w < 256 → (text : List ℕ) × (print_num w ≡ some text) × IsPart text w
printed-IsPart w small =
    let (text, printed, decoded, digits) = decode-print_num w (omega arith) (omega arith) in
    (
      text,
      printed,
      elim digits [
        | inl (_, natural) ↦ printed_number w text printed decoded natural small
        | inr (large, _, _, _) ↦ absurd (omega arith)
      ],
    )

byte_of-lt : (x : ℕ) → bit_and x 0xff < 256
byte_of-lt x = omega (arith, bit_and-mask 8 x)

-- The shell's `parse_ipv4` reads every address as the kernel's `print_ipv4` prints it.
pub parse_ipv4-print_ipv4 : (ip : ℕ) → ip < 2 ^ 32 → parse_ipv4 (print_ipv4 ip) ≡ some ip
unfolding print_ipv4 printf directive args_after
parse_ipv4-print_ipv4 ip word =
    let (t1, p1, d1) = printed-IsPart (bit_and (ip / 2 ^ 24) 0xff) (byte_of-lt _) in
    let (t2, p2, d2) = printed-IsPart (bit_and (ip / 2 ^ 16) 0xff) (byte_of-lt _) in
    let (t3, p3, d3) = printed-IsPart (bit_and (ip / 2 ^ 8) 0xff) (byte_of-lt _) in
    let (t4, p4, d4) = printed-IsPart (bit_and ip 0xff) (byte_of-lt _) in
    let text : print_ipv4 ip ≡ t1 ++ (b'.' ∷ (t2 ++ (b'.' ∷ (t3 ++ (b'.' ∷ (t4 ++ [])))))) =
      rw (p1, p2, p3, p4) refl in
    let same : ((((0 * 256 + bit_and (ip / 2 ^ 24) 0xff) * 256 + bit_and (ip / 2 ^ 16) 0xff) * 256
              + bit_and (ip / 2 ^ 8) 0xff)
            * 256
          + bit_and ip 0xff)
        ≡ ip =
      omega (
        arith,
        bit_and-mask 8 (ip / 2 ^ 24),
        bit_and-mask 8 (ip / 2 ^ 16),
        bit_and-mask 8 (ip / 2 ^ 8),
        bit_and-mask 8 ip,
      ) in
    ap parse_ipv4
      (text ∙ ap (λ t. t1 ++ (b'.' ∷ (t2 ++ (b'.' ∷ (t3 ++ (b'.' ∷ t)))))) (append-nil t4))
    ∙ (parse_ipv4-Dotted _ _).1 (more d1 (more d2 (more d3 (last d4))))
    ∙ ap some same
