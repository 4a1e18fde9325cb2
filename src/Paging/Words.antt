-- ===== src/Paging/Words.antt =====
-- kernel/process.c: the words of a page table in memory.
use risc_v_os.Base.{ℕ, ◌+◌, ◌^◌, ◌≤◌, ◌<◌, ◌≡◌, ◌⊎◌, refl, arith}
use risc_v_os.Memory.{Memory}
use risc_v_os.Paging.{load32, store32}

pub load32-lt : (m : Memory) (a : ℕ) → load32 m a < 2 ^ 32
unfolding load32
load32-lt m a = omega arith

-- A word reads back as it was stored.
pub load32-store32 : (m : Memory) (a v : ℕ) → v < 2 ^ 32 → load32 (store32 m a v) a ≡ v
unfolding load32 store32
load32-store32 m a v h = ground arith

-- Storing a word leaves every word apart from it.
pub load32-store32_apart :
    (m : Memory) (a b v : ℕ) → (a + 4 ≤ b) ⊎ (b + 4 ≤ a) → load32 (store32 m a v) b ≡ load32 m b
unfolding load32 store32
load32-store32_apart m a b v h = ground arith

-- A word depends on its four bytes.
pub load32-ext :
    (m n : Memory) (a : ℕ) → ((x : ℕ) → a ≤ x → x < a + 4 → n x ≡ m x) → load32 n a ≡ load32 m a
unfolding load32
load32-ext m n a same =
    rw
      (
        same a (omega arith) (omega arith),
        same (a + 1) (omega arith) (omega arith),
        same (a + 2) (omega arith) (omega arith),
        same (a + 3) (omega arith) (omega arith),
      )
      refl

-- Storing a word leaves every byte that is not in it.
pub store32_elsewhere : (m : Memory) (a v x : ℕ) → (x < a) ⊎ (a + 4 ≤ x) → store32 m a v x ≡ m x
unfolding store32
store32_elsewhere m a v x h = ground arith
