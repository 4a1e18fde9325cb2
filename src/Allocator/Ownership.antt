-- ===== src/Allocator/Ownership.antt =====
-- kernel/allocator.c: who owns each byte of memory, and when the region table is well formed.
use risc_v_os.Base.{
  ℕ, ◌+◌, ◌%◌, ◌^◌, ◌≤◌, ◌<◌, ◌≡◌, true, Option, none, some, List, [], ◌∷◌, arith, if◌then◌else◌,
  zero, suc, length, All, sum,
}
use risc_v_os.Memory.{in_block}
use risc_v_os.Allocator.{Region, region, blank, is_free, is_allocated, max_regions, page_size}

-- Whether a region spans the byte at address `a`, as a count.
abbrev pub covers : ℕ → Region → ℕ
covers a r = if in_block r.start r.size a then 1 else 0

abbrev pub vacant : ℕ → Region → ℕ
vacant a r = if is_free r then covers a r else 0

abbrev pub held : ℕ → Region → ℕ
held a r = if is_allocated r then covers a r else 0

-- How many free and how many allocated regions span an address.
abbrev pub vacancies : ℕ → List Region → ℕ
vacancies a rs = sum (vacant a) rs

abbrev pub holders : ℕ → List Region → ℕ
holders a rs = sum (held a) rs

-- What the owner of an index holds: the block of an allocated region.
abbrev pub holding : Region → Option (ℕ × ℕ)
holding r = if is_allocated r then some (r.start, r.size) else none

-- A region is made of whole pages below the limit.
pub record Fits (limit : ℕ) (r : Region) : Type 0 where
  pub below : r.start + r.size ≤ limit
  pub start_aligned : r.start % page_size ≡ 0
  pub size_aligned : r.size % page_size ≡ 0

pub record IsValid (limit : ℕ) (rs : List Region) : Type 0 where
  pub slots : length rs ≡ max_regions
  pub room : limit < 2 ^ 32
  pub fits : All (Fits limit) rs

pub blank-Fits : (limit : ℕ) → Fits limit blank
blank-Fits limit = omega arith

pub free-lt-length : (rs : List Region) (i : ℕ) → is_free (region rs i) ≡ true → i < length rs
free-lt-length [] i h = absurd (ground arith)
free-lt-length (r ∷ rs) zero h = omega arith
free-lt-length (r ∷ rs) (suc i) h = omega (arith, free-lt-length rs i h)

pub allocated-lt-length :
    (rs : List Region) (i : ℕ) → is_allocated (region rs i) ≡ true → i < length rs
allocated-lt-length [] i h = absurd (ground arith)
allocated-lt-length (r ∷ rs) zero h = omega arith
allocated-lt-length (r ∷ rs) (suc i) h = omega (arith, allocated-lt-length rs i h)
