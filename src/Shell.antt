-- ===== src/Shell.antt =====
-- user/shell.c: the parser of addresses, the reader of a line, and the choice of a command. A string is
-- the list of its bytes before the zero.
pub mod Digits
pub mod Address
pub mod Printed
pub mod Commands
mod Tests
use Prim.Native.Nat.{bit_or}
use risc_v_os.Base.{
  ℕ, suc, zero, ◌+◌, ◌-◌, ◌*◌, ◌^◌, Bool, true, false, ◌&&◌, Option, none, some, List, [], ◌∷◌,
  ◌++◌, ◌==◌, ltb, leb, if◌then◌else◌, length,
}
use risc_v_os.Base.Word.{u32}
use risc_v_os.Memory.{array_of, strcmp}

unfoldable pub string_length : List ℕ → ℕ
string_length [] = 0
string_length (c ∷ s) = suc (string_length s)

unfoldable pub starts_with : List ℕ → List ℕ → Bool
starts_with s [] = true
starts_with [] (c ∷ prefix) = false
starts_with (d ∷ s) (c ∷ prefix) = let rest = starts_with s prefix in if d == c then rest else false

-- `*text >= '0' && *text <= '9'`
abbrev pub is_digit : ℕ → Bool
is_digit c = leb b'0' c && leb c b'9'

-- The inner loop: the number, its digits, and the text behind them.
unfoldable pub parse_number : ℕ → ℕ → List ℕ → Option (ℕ × ℕ × List ℕ)
parse_number number digits [] = some (number, digits, [])
parse_number number digits (c ∷ text) =
    let next = number * 10 + (c - b'0') in
    let rest = parse_number next (suc digits) text in
    if is_digit c then if ltb 255 next then none else rest else some (number, digits, c ∷ text)

-- `if (*text != '.') return false; text++;`
unfoldable pub after_dot : List ℕ → Option (List ℕ)
after_dot [] = none
after_dot (c ∷ text) = if c == b'.' then some text else none

-- A dot is between two parts, and not behind the last.
abbrev pub between : ℕ → List ℕ → Option (List ℕ)
between zero text = some text
between (suc parts) text = after_dot text

-- The outer loop, with the parts that are left.
unfoldable pub parse_parts : ℕ → ℕ → List ℕ → Option ℕ
parse_parts zero value [] = some value
parse_parts zero value (c ∷ text) = none
parse_parts (suc parts) value text = elim (parse_number 0 0 text) [
  | none ↦ none
  | some (number, digits, rest) ↦
      let next : Option ℕ = elim (between parts rest) [
        | none ↦ none
        | some behind ↦ parse_parts parts (bit_or (u32 (value * 2 ^ 8)) number) behind
      ] in
      if digits == 0 then none else next
]

unfoldable pub parse_ipv4 : List ℕ → Option ℕ
parse_ipv4 text = parse_parts 4 0 text

-- The line buffer, `char cmdline[128]`.
abbrev pub line_size : ℕ
line_size = 128

-- What the inner loop of `main` makes of the characters that come: a line, or "command line too long"
-- once 127 are in the buffer, with the characters that are left. `none` where they end before that.
pub data Input : Type 0 where
  line : List ℕ → List ℕ → Input
  too_long : List ℕ → Input

abbrev pub in_front : ℕ → Option Input → Option Input
in_front c none = none
in_front c (some (Input.line text rest)) = some (Input.line (c ∷ text) rest)
in_front c (some (Input.too_long rest)) = some (Input.too_long rest)

unfoldable pub read_line : ℕ → List ℕ → Option Input
read_line i [] = none
read_line i (ch ∷ chars) =
    let more = in_front ch (read_line (i + 1) chars) in
    if i == line_size - 1
    then some (Input.too_long chars)
    else if ch == 13
    then some (Input.line [] chars)
    else more

-- What a command line asks for.
pub data Command : Type 0 where
  hello exit_shell read_file write_file send_usage : Command
  send_message : List ℕ → Command
  arp_table ip_stats shm_table shm_test arp_usage : Command
  arp_address : ℕ → Command
  unknown : List ℕ → Command

-- `strcmp(cmdline, command) == 0`
abbrev pub is_command : List ℕ → List ℕ → Bool
is_command cmdline command = strcmp line_size (array_of cmdline) 0 (array_of command) 0 == 0

abbrev pub drop_text : ℕ → List ℕ → List ℕ
drop_text zero s = s
drop_text (suc n) [] = []
drop_text (suc n) (c ∷ s) = drop_text n s

abbrev pub arp_command : Option ℕ → Command
arp_command none = Command.arp_usage
arp_command (some ip) = Command.arp_address ip

-- The chain of tests in `main`.
unfoldable pub command_of : List ℕ → Command
command_of s =
    if is_command s (b'h' ∷ b'e' ∷ b'l' ∷ b'l' ∷ b'o' ∷ [])
    then Command.hello
    else if is_command s (b'e' ∷ b'x' ∷ b'i' ∷ b't' ∷ [])
    then Command.exit_shell
    else if is_command s (b'r' ∷ b'e' ∷ b'a' ∷ b'd' ∷ b'f' ∷ b'i' ∷ b'l' ∷ b'e' ∷ [])
    then Command.read_file
    else if is_command s (b'w' ∷ b'r' ∷ b'i' ∷ b't' ∷ b'e' ∷ b'f' ∷ b'i' ∷ b'l' ∷ b'e' ∷ [])
    then Command.write_file
    else if is_command s (b's' ∷ b'e' ∷ b'n' ∷ b'd' ∷ [])
    then Command.send_usage
    else if starts_with s (b's' ∷ b'e' ∷ b'n' ∷ b'd' ∷ b' ' ∷ [])
    then Command.send_message (drop_text 5 s)
    else if is_command s (b'a' ∷ b'r' ∷ b'p' ∷ [])
    then Command.arp_table
    else if is_command s (b'i' ∷ b'p' ∷ [])
    then Command.ip_stats
    else if is_command s (b's' ∷ b'h' ∷ b'm' ∷ [])
    then Command.shm_table
    else if is_command s (b's' ∷ b'h' ∷ b'm' ∷ b't' ∷ b'e' ∷ b's' ∷ b't' ∷ [])
    then Command.shm_test
    else if starts_with s (b'a' ∷ b'r' ∷ b'p' ∷ b' ' ∷ [])
    then arp_command (parse_ipv4 (drop_text 4 s))
    else Command.unknown s
