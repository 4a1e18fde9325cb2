-- ===== src/Shell/Commands.antt =====
-- user/shell.c: lines and commands.
use risc_v_os.Base.{
  ℕ, ◌+◌, ◌-◌, ◌^◌, ◌<◌, ◌≡◌, ◌≢◌, refl, ap, ◌∙◌, arith, true, some, List, [], ◌∷◌, ◌++◌, All,
  length, if◌then◌else◌, ◌==◌, ==-ne,
}
use risc_v_os.Memory.{strcmp}
use risc_v_os.Net.Stack.{print_ipv4}
use risc_v_os.Shell.{
  Input, Command, in_front, line_size, read_line, command_of, starts_with, parse_ipv4, arp_command,
}
use risc_v_os.Shell.Printed.{parse_ipv4-print_ipv4}

-- A line of fewer than 127 characters, none of them a carriage return, is read up to the return that
-- ends it.
pub read_line-return :
    (i : ℕ) (text rest : List ℕ)
    → All (λ c. c ≢ 13) text
    → i + length text < line_size - 1
    → read_line i (text ++ (13 ∷ rest)) ≡ some (Input.line text rest)
unfolding read_line
read_line-return i [] rest all room =
    ap (λ b. if b then some (Input.too_long rest) else some (Input.line [] rest))
      (==-ne i (line_size - 1) (λ e. absurd (omega arith)))
read_line-return i (c ∷ text) rest (ne, all) room =
    ap
      (λ b.
        if b
        then some (Input.too_long (text ++ (13 ∷ rest)))
        else if c == 13
        then some (Input.line [] (text ++ (13 ∷ rest)))
        else in_front c (read_line (i + 1) (text ++ (13 ∷ rest))))
      (==-ne i (line_size - 1) (λ e. absurd (omega arith)))
    ∙ ap
        (λ b.
          if b
          then some (Input.line [] (text ++ (13 ∷ rest)))
          else in_front c (read_line (i + 1) (text ++ (13 ∷ rest))))
        (==-ne c 13 ne)
    ∙ ap (in_front c) (read_line-return (i + 1) text rest all (omega arith))

-- The 128th character does not fit, whatever it is.
pub read_line-too_long :
    (i : ℕ) (text : List ℕ) (c : ℕ) (rest : List ℕ)
    → All (λ c. c ≢ 13) text
    → i + length text ≡ line_size - 1
    → read_line i (text ++ (c ∷ rest)) ≡ some (Input.too_long rest)
unfolding read_line
read_line-too_long i [] c rest all full =
    let end : (i == line_size - 1) ≡ true = ground arith in
    ap
      (λ b.
        if b
        then some (Input.too_long rest)
        else if c == 13
        then some (Input.line [] rest)
        else in_front c (read_line (i + 1) rest))
      end
read_line-too_long i (d ∷ text) c rest (ne, all) full =
    ap
      (λ b.
        if b
        then some (Input.too_long (text ++ (c ∷ rest)))
        else if d == 13
        then some (Input.line [] (text ++ (c ∷ rest)))
        else in_front d (read_line (i + 1) (text ++ (c ∷ rest))))
      (==-ne i (line_size - 1) (λ e. absurd (omega arith)))
    ∙ ap
        (λ b.
          if b
          then some (Input.line [] (text ++ (c ∷ rest)))
          else in_front d (read_line (i + 1) (text ++ (c ∷ rest))))
        (==-ne d 13 ne)
    ∙ ap (in_front d) (read_line-too_long (i + 1) text c rest all (omega arith))

-- The command "arp " with any text behind it asks for the address that the text stands for.
command_of-arp :
    (text : List ℕ) → command_of (b'a' ∷ b'r' ∷ b'p' ∷ b' ' ∷ text) ≡ arp_command (parse_ipv4 text)
unfolding command_of strcmp starts_with
command_of-arp text = refl

-- "arp " with an address as the kernel prints it is the command that asks for that address.
pub command_of-print_ipv4 :
    (ip : ℕ)
    → ip < 2 ^ 32
    → command_of (b'a' ∷ b'r' ∷ b'p' ∷ b' ' ∷ print_ipv4 ip) ≡ Command.arp_address ip
command_of-print_ipv4 ip word =
    command_of-arp (print_ipv4 ip) ∙ ap arp_command (parse_ipv4-print_ipv4 ip word)

-- "send " with a message behind it is the command that sends the message, whatever it is.
pub command_of-send :
    (text : List ℕ)
    → command_of (b's' ∷ b'e' ∷ b'n' ∷ b'd' ∷ b' ' ∷ text) ≡ Command.send_message text
unfolding command_of strcmp starts_with
command_of-send text = refl
