-- ===== src/Net/Ipv4/Checksum.antt =====
-- kernel/ipv4.c: `ipv4_checksum` against the Internet checksum of RFC 1071.
use Prim.Native.Nat.{bit_and, bit_or}
use risc_v_os.Base.{
  ℕ, ◌+◌, ◌*◌, ◌/◌, ◌%◌, ◌^◌, ◌≤◌, ◌<◌, ◌≡◌, refl, ap, ◌∙◌, ◌↔◌, List, [], ◌∷◌, arith, length,
}
use risc_v_os.Base.Word.{u16, add32}
use risc_v_os.Base.Bits.{bit_or-low, bit_and-mask}
use risc_v_os.Net.Wire.{Bytes}
use risc_v_os.Net.Ipv4.{word_sum, fold_carries, ipv4_checksum}

-- The sum of the big-endian 16-bit words, an odd last byte standing for the high half of a word.
abbrev pub word_total : List ℕ → ℕ
word_total [] = 0
word_total (a ∷ []) = a * 256
word_total (a ∷ b ∷ bytes) = a * 256 + b + word_total bytes

word_total-lt : (bytes : List ℕ) → Bytes bytes → word_total bytes ≤ length bytes * 2 ^ 16
word_total-lt [] h = omega arith
word_total-lt (a ∷ []) h = omega arith
word_total-lt (a ∷ b ∷ bytes) (ha, (hb, h)) = omega (arith, word_total-lt bytes h)

word_sum-eq :
    (sum : ℕ) (bytes : List ℕ)
    → Bytes bytes
    → sum + word_total bytes < 2 ^ 32
    → word_sum sum bytes ≡ sum + word_total bytes
unfolding word_sum
word_sum-eq sum [] h lt = omega arith
word_sum-eq sum (a ∷ []) h lt = omega arith
word_sum-eq sum (a ∷ b ∷ bytes) (ha, (hb, h)) lt =
    ap (λ t. word_sum t bytes) word
    ∙ word_sum-eq (sum + (a * 256 + b)) bytes h (omega arith)
    ∙ omega arith
  where
    word : add32 sum (bit_or (u16 a * 2 ^ 8) b) ≡ sum + (a * 256 + b)
    word = omega (arith, bit_or-low 8 (u16 a * 2 ^ 8) (u16 a) b refl hb)

-- One round keeps the residue modulo 65535, and only zero goes to zero.
fold_carries-lem :
    (sum : ℕ)
    → sum < 2 ^ 32
    → (fold_carries 2 sum < 2 ^ 16)
      × (fold_carries 2 sum % 65535 ≡ sum % 65535)
      × ((fold_carries 2 sum ≡ 0) ↔ (sum ≡ 0))
unfolding fold_carries
fold_carries-lem sum h =
    ground (arith, bit_and-mask 16 sum, bit_and-mask 16 (add32 (bit_and sum 0xffff) (sum / 2 ^ 16)))

module _ (bytes : List ℕ) (b : Bytes bytes) (len : length bytes < 2 ^ 16) where
  small : word_total bytes < 2 ^ 32
  small = omega (arith, word_total-lt bytes b)

  summed : word_sum 0 bytes ≡ word_total bytes
  summed = word_sum-eq 0 bytes b (omega (arith, small)) ∙ omega arith

  folded :
      (fold_carries 2 (word_sum 0 bytes) < 2 ^ 16)
      × (fold_carries 2 (word_sum 0 bytes) % 65535 ≡ word_total bytes % 65535)
      × ((fold_carries 2 (word_sum 0 bytes) ≡ 0) ↔ (word_total bytes ≡ 0))
  folded = rw summed (fold_carries-lem (word_total bytes) small)

  -- A checksum brings the sum of the words to a multiple of 65535, and is a 16-bit word.
  pub ipv4_checksum_completes :
      (ipv4_checksum bytes < 2 ^ 16) × ((word_total bytes + ipv4_checksum bytes) % 65535 ≡ 0)
  unfolding ipv4_checksum
  ipv4_checksum_completes = omega (arith, folded.0, folded.1)

  -- Over fewer than 65536 bytes the checksum is zero exactly if the sum of the 16-bit words is a
  -- positive multiple of 65535, which is what one's complement takes for zero.
  pub ipv4_checksum_verifies :
      (ipv4_checksum bytes ≡ 0) ↔ ((word_total bytes % 65535 ≡ 0) × (0 < word_total bytes))
  unfolding ipv4_checksum
  ipv4_checksum_verifies = (λ e. ground (arith, folded), λ e. ground (arith, folded))
