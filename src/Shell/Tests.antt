-- ===== src/Shell/Tests.antt =====
-- user/shell.c: instances.
use risc_v_os.Base.{ℕ, ◌≡◌, arith, some, List, [], ◌∷◌, ◌↔◌}
use risc_v_os.Net.Stack.{print_ipv4}
use risc_v_os.Shell.{parse_ipv4}
use risc_v_os.Shell.Address.{Dotted, parse_ipv4-Dotted}
use risc_v_os.Shell.Printed.{parse_ipv4-print_ipv4}

-- "10.0.2.15"
abbrev local : List ℕ
local = b'1' ∷ b'0' ∷ b'.' ∷ b'0' ∷ b'.' ∷ b'2' ∷ b'.' ∷ b'1' ∷ b'5' ∷ []

parse_ipv4-Dotted_example : (parse_ipv4 local ≡ some 0x0a00_020f) ↔ Dotted 4 0 local 0x0a00_020f
parse_ipv4-Dotted_example = parse_ipv4-Dotted local 0x0a00_020f

parse_ipv4-print_ipv4_example : parse_ipv4 (print_ipv4 0x0a00_020f) ≡ some 0x0a00_020f
parse_ipv4-print_ipv4_example = parse_ipv4-print_ipv4 0x0a00_020f (omega arith)
