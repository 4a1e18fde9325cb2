-- ===== src/Memory/Blocks.antt =====
-- `memset` and `memcpy` of kernel/common.c: the byte loops, and what they leave in memory.
use risc_v_os.Base.{
  ℕ, zero, suc, ◌+◌, ◌-◌, ◌≤◌, ◌≡◌, ◌⊎◌, Bool, ◌&&◌, arith, ltb, leb, ◌==◌, if◌then◌else◌,
}

-- Memory gives a byte for each address.
abbrev pub Memory : Type 0
Memory = ℕ → ℕ

abbrev pub store8 : Memory → ℕ → ℕ → Memory
store8 m p v a = if p == a then v else m a

-- `while (n--) *d++ = c;`
unfoldable pub memset : Memory → ℕ → ℕ → ℕ → Memory
memset m d c zero = m
memset m d c (suc n) = memset (store8 m d c) (d + 1) c n

-- `while (n--) *d++ = *s++;`
unfoldable pub memcpy : Memory → ℕ → ℕ → ℕ → Memory
memcpy m d s zero = m
memcpy m d s (suc n) = memcpy (store8 m d (m s)) (d + 1) (s + 1) n

abbrev pub in_block : ℕ → ℕ → ℕ → Bool
in_block p n a = leb p a && ltb a (p + n)

pub memset_lem : (m : Memory) (d c n a : ℕ) → memset m d c n a ≡ (if in_block d n a then c else m a)
unfolding memset
memset_lem m d c zero a = ground arith
memset_lem m d c (suc n) a = ground (arith, memset_lem (store8 m d c) (d + 1) c n a)

-- The copy is the old source wherever the blocks do not overlap.
pub memcpy_lem :
    (m : Memory) (d s n a : ℕ)
    → (s + n ≤ d) ⊎ (d + n ≤ s)
    → memcpy m d s n a ≡ (if in_block d n a then m (s + (a - d)) else m a)
unfolding memcpy
memcpy_lem m d s zero a h = ground arith
memcpy_lem m d s (suc n) a h = ground (arith, memcpy_lem (store8 m d (m s)) (d + 1) (s + 1) n a)
