-- ===== src/Console.antt =====
-- The console output of kernel/common.c: the bytes that `printf` hands to `putchar`, in order.
pub mod Decimal
pub mod Hex
mod Tests
use Prim.Native.Nat.{bit_and}
use risc_v_os.Base.{
  ℕ, zero, suc, ◌+◌, ◌-◌, ◌*◌, ◌/◌, ◌%◌, ◌^◌, Option, none, some, List, [], ◌∷◌, ◌++◌, leb, ◌==◌,
  if◌then◌else◌, true, false,
}
use risc_v_os.Base.Word.{u8}

-- The most significant of the nibbles left first.
unfoldable pub pointer_digits : ℕ → ℕ → List ℕ
pointer_digits zero p = []
pointer_digits (suc i) p =
    let tmp = bit_and (p / 2 ^ (i * 4)) 0xf in
    (if leb 10 tmp then b'a' + tmp - 10 else b'0' + tmp) ∷ pointer_digits i p

unfoldable pub print_pointer : ℕ → List ℕ
print_pointer p = pointer_digits 8 p

-- `while (magnitude <= num / 10)`; a 32-bit number takes ten rounds at most.
unfoldable pub scale : ℕ → ℕ → ℕ → ℕ → ℕ × ℕ
scale zero num magnitude count = (magnitude, count)
scale (suc fuel) num magnitude count =
    let more = scale fuel num (magnitude * 10) (count + 1) in
    if leb magnitude (num / 10) then more else (magnitude, count)

-- `while (count--)`.
unfoldable pub emit : ℕ → ℕ → ℕ → List ℕ
emit zero num magnitude = []
emit (suc count) num magnitude =
    (b'0' + num / magnitude) ∷ emit count (num % magnitude) (magnitude / 10)

abbrev pub positive_digits : ℕ → List ℕ
positive_digits num = let (magnitude, count) = scale 10 num 1 1 in emit count num magnitude

-- The argument is the bit pattern of an `int`. The negation of the least `int` overflows, which C
-- leaves undefined: `none`.
unfoldable pub print_num : ℕ → Option (List ℕ)
print_num num =
    if num == 0
    then some (b'0' ∷ [])
    else if num == 2 ^ 31
    then none
    else if leb (2 ^ 31) num
    then some (b'-' ∷ positive_digits (2 ^ 32 - num))
    else some (positive_digits num)

-- What `va_arg` takes: a string, or a 32-bit word.
pub data Arg : Type 0 where
  string : List ℕ → Arg
  word : ℕ → Arg

abbrev pub after_text : Option (List ℕ) → Option (List ℕ) → Option (List ℕ)
after_text none rest = none
after_text (some text) none = none
after_text (some text) (some more) = some (text ++ more)

-- A directive's text. `none` stands for an argument that is missing or of another kind, and for
-- the overflow of `print_num`, all undefined in C.
unfoldable pub directive : ℕ → List Arg → Option (List ℕ)
directive d [] =
    if d == b's'
    then none
    else if d == b'd'
    then none
    else if d == b'x'
    then none
    else some (b'%' ∷ d ∷ [])
directive d (string s ∷ args) =
    if d == b's'
    then some s
    else if d == b'd'
    then none
    else if d == b'x'
    then none
    else some (b'%' ∷ d ∷ [])
directive d (word w ∷ args) =
    if d == b's'
    then none
    else if d == b'd'
    then print_num w
    else if d == b'x'
    then some (print_pointer w)
    else some (b'%' ∷ d ∷ [])

-- The arguments that a directive leaves.
unfoldable pub args_after : ℕ → List Arg → List Arg
args_after d [] = []
args_after d (a ∷ args) =
    if d == b's' then args else if d == b'd' then args else if d == b'x' then args else a ∷ args

-- The format stops at its end also right behind a `%`.
unfoldable pub printf : List ℕ → List Arg → Option (List ℕ)
printf [] args = some []
printf (c ∷ []) args = if c == b'%' then some [] else some (c ∷ [])
printf (c ∷ d ∷ fmt) args =
    let formatted = after_text (directive d args) (printf fmt (args_after d args)) in
    let plain = after_text (some (c ∷ [])) (printf (d ∷ fmt) args) in
    if c == b'%' then formatted else plain
