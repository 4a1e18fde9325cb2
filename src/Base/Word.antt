-- ===== src/Base/Word.antt =====
-- Unsigned machine words: an n-bit value is a number below 2 ^ n, and every operation wraps.
use Prim.Native.Nat.{ℕ, ◌+◌, ◌-◌, ◌%◌, ◌^◌, ◌*◌}

abbrev pub u16 : ℕ → ℕ
u16 a = a % 2 ^ 16

abbrev pub u32 : ℕ → ℕ
u32 a = a % 2 ^ 32

abbrev pub u8 : ℕ → ℕ
u8 a = a % 2 ^ 8

abbrev pub add32 : ℕ → ℕ → ℕ
add32 a b = u32 (a + b)

abbrev pub mul32 : ℕ → ℕ → ℕ
mul32 a b = u32 (a * b)

abbrev pub sub32 : ℕ → ℕ → ℕ
sub32 a b = u32 (a + 2 ^ 32 - b)

abbrev pub sub16 : ℕ → ℕ → ℕ
sub16 a b = u16 (a + 2 ^ 16 - b)
