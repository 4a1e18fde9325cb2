-- ===== src/Net/Wire.antt =====
-- The byte order of kernel/arp.c and kernel/ipv4.c: big-endian fields of a packet.
use Prim.Native.Nat.{bit_and, bit_or}
use risc_v_os.Base.{ℕ, ◌+◌, ◌*◌, ◌/◌, ◌^◌, ◌<◌, ◌≡◌, ◌∙◌, List, [], ◌∷◌, ◌++◌, arith, get_or, All}
use risc_v_os.Base.Word.{u8, u16, u32}
use risc_v_os.Base.Bits.{bit_or-low, bit_or-shift, bit_and-mask}

-- The byte at an offset of a buffer.
abbrev pub byte : List ℕ → ℕ → ℕ
byte bytes i = get_or bytes i 0

-- `((uint16_t) bytes[0] << 8) | bytes[1]`
unfoldable pub read_be16 : List ℕ → ℕ
read_be16 bytes = u16 (bit_or (byte bytes 0 * 2 ^ 8) (byte bytes 1))

unfoldable pub write_be16 : ℕ → List ℕ
write_be16 number = u8 (number / 2 ^ 8) ∷ u8 (bit_and number 0xff) ∷ []

unfoldable pub read_ipv4 : List ℕ → ℕ
read_ipv4 ip =
    bit_or
      (bit_or (bit_or (u32 (byte ip 0 * 2 ^ 24)) (u32 (byte ip 1 * 2 ^ 16)))
        (u32 (byte ip 2 * 2 ^ 8)))
      (byte ip 3)

unfoldable pub write_ipv4 : ℕ → List ℕ
write_ipv4 ip = u8 (ip / 2 ^ 24) ∷ u8 (ip / 2 ^ 16) ∷ u8 (ip / 2 ^ 8) ∷ u8 ip ∷ []

-- A buffer of bytes.
abbrev pub Bytes : List ℕ → Type 0
Bytes = All (λ b. b < 256)

-- The field as a number, where the buffer holds bytes.
pub read_be16_lem :
    (a b : ℕ) (rest : List ℕ) → a < 256 → b < 256 → read_be16 (a ∷ b ∷ rest) ≡ a * 256 + b
unfolding read_be16
read_be16_lem a b rest ha hb = omega (arith, bit_or-shift 8 a b hb)

pub read_ipv4_lem :
    (a b c d : ℕ) (rest : List ℕ)
    → a < 256
    → b < 256
    → c < 256
    → d < 256
    → read_ipv4 (a ∷ b ∷ c ∷ d ∷ rest) ≡ ((a * 256 + b) * 256 + c) * 256 + d
unfolding read_ipv4
read_ipv4_lem a b c d rest ha hb hc hd = omega (arith, third)
  where
    two : ℕ
    two = bit_or (u32 (a * 2 ^ 24)) (u32 (b * 2 ^ 16))

    three : ℕ
    three = bit_or two (u32 (c * 2 ^ 8))

    first : two ≡ (a * 256 + b) * 2 ^ 16
    first =
        omega
          (arith, bit_or-low 24 (u32 (a * 2 ^ 24)) a (u32 (b * 2 ^ 16)) (omega arith) (omega arith))

    second : three ≡ ((a * 256 + b) * 256 + c) * 2 ^ 8
    second =
        omega (arith, first, bit_or-low 16 two (a * 256 + b) (u32 (c * 2 ^ 8)) first (omega arith))

    third : bit_or three d ≡ ((a * 256 + b) * 256 + c) * 256 + d
    third =
        omega (arith, second, bit_or-low 8 three ((a * 256 + b) * 256 + c) d second (omega arith))

pub write_be16-Bytes : (n : ℕ) → Bytes (write_be16 n)
unfolding write_be16
write_be16-Bytes n = omega arith

pub write_ipv4-Bytes : (ip : ℕ) → Bytes (write_ipv4 ip)
unfolding write_ipv4
write_ipv4-Bytes n = omega arith

-- A 16-bit field reads back as it was written, whatever follows it.
pub read_be16-write_be16 :
    (n : ℕ) (rest : List ℕ) → n < 2 ^ 16 → read_be16 (write_be16 n ++ rest) ≡ n
unfolding write_be16
read_be16-write_be16 n rest h =
    read_be16_lem _ _ rest (omega arith) (omega arith) ∙ omega (arith, bit_and-mask 8 n)

-- So does an address.
pub read_ipv4-write_ipv4 :
    (ip : ℕ) (rest : List ℕ) → ip < 2 ^ 32 → read_ipv4 (write_ipv4 ip ++ rest) ≡ ip
unfolding write_ipv4
read_ipv4-write_ipv4 ip rest h =
    read_ipv4_lem _ _ _ _ rest (omega arith) (omega arith) (omega arith) (omega arith) ∙ omega arith
