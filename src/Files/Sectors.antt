-- ===== src/Files/Sectors.antt =====
-- kernel/filesystem.c: the buffer of the archive, moved from and to the disk sector by sector.
use risc_v_os.Base.{
  ℕ, zero, suc, ◌+◌, ◌-◌, ◌*◌, ◌≤◌, ◌<◌, ◌≡◌, refl, ap, ◌∙◌, arith, if◌then◌else◌, true, false,
  Option, none, some, Bool,
}
use risc_v_os.Memory.{Memory, copy, copy_lem, in_block}
use risc_v_os.Files.{Disk, move_sectors, sector_size}

-- What the file system relies on: a disk of at least `capacity` sectors, which holds what it shows,
-- and whose states that satisfy `IsUp` answer every request.
pub record IsSectorStore {D : Type 0} (dev : Disk D) (IsUp : D → Type 0) (shows : D → Memory)
    (capacity : ℕ) : Type 0 where
  pub reads :
      (buf : Memory) (at sector : ℕ) (d : D)
      → IsUp d
      → sector < capacity
      → (e : D) × (b : Memory) × (dev.read_write_disk buf at sector false d ≡ some (e, b))
        × IsUp e
        × ((x : ℕ) → shows e x ≡ shows d x)
        × ((x : ℕ) → b x ≡ copy buf at (shows d) (sector * sector_size) sector_size x)
  pub writes :
      (buf : Memory) (at sector : ℕ) (d : D)
      → IsUp d
      → sector < capacity
      → (e : D) × (dev.read_write_disk buf at sector true d ≡ some (e, buf))
        × IsUp e
        × ((x : ℕ) → shows e x ≡ copy (shows d) (sector * sector_size) buf at sector_size x)

module _ {D : Type 0} (dev : Disk D) (IsUp : D → Type 0) (shows : D → Memory) (capacity : ℕ)
    (law : IsSectorStore dev IsUp shows capacity) where
  abbrev go_on : Bool → ℕ → ℕ → Option (D × Memory) → Option (D × Memory)
  go_on is_write rounds sector o = elim o [
    | none ↦ none
    | some (e, moved) ↦ move_sectors dev is_write rounds sector moved e
  ]

  pub read_sectors :
      (rounds sector : ℕ) (buf : Memory) (d : D)
      → IsUp d
      → sector + rounds ≤ capacity
      → (e : D) × (b : Memory) × (move_sectors dev false rounds sector buf d ≡ some (e, b))
        × IsUp e
        × ((x : ℕ) → shows e x ≡ shows d x)
        × ((x : ℕ)
            → b x ≡ (
                if in_block (sector * sector_size) (rounds * sector_size) x
                then shows d x
                else buf x))
  unfolding move_sectors
  read_sectors zero sector buf d up room = (d, buf, refl, up, λ _. refl, λ x. ground arith)
  read_sectors (suc rounds) sector buf d up room =
      let (e, b, moved, up', kept, bytes) =
        law.reads buf (sector * sector_size) sector d up (omega arith) in
      let (f, c, rest, up'', kept', bytes') =
        read_sectors rounds (sector + 1) b e up' (omega arith) in
      (
        f,
        c,
        ap (go_on false rounds (sector + 1)) moved ∙ rest,
        up'',
        λ x. kept' x ∙ kept x,
        λ x. ground (
          arith,
          bytes' x,
          kept x,
          bytes x,
          copy_lem buf (sector * sector_size) (shows d) (sector * sector_size) sector_size x,
          λ (le : sector * sector_size ≤ x).
              ap (shows d)
                (let z : sector * sector_size + (x - sector * sector_size) ≡ x = omega arith in z),
        ),
      )

  pub write_sectors :
      (rounds sector : ℕ) (buf : Memory) (d : D)
      → IsUp d
      → sector + rounds ≤ capacity
      → (e : D) × (move_sectors dev true rounds sector buf d ≡ some (e, buf))
        × IsUp e
        × ((x : ℕ)
            → shows e x ≡ (
                if in_block (sector * sector_size) (rounds * sector_size) x
                then buf x
                else shows d x))
  unfolding move_sectors
  write_sectors zero sector buf d up room = (d, refl, up, λ x. ground arith)
  write_sectors (suc rounds) sector buf d up room =
      let (e, moved, up', bytes) =
        law.writes buf (sector * sector_size) sector d up (omega arith) in
      let (f, rest, up'', bytes') = write_sectors rounds (sector + 1) buf e up' (omega arith) in
      (
        f,
        ap (go_on true rounds (sector + 1)) moved ∙ rest,
        up'',
        λ x. ground (
          arith,
          bytes' x,
          bytes x,
          copy_lem (shows d) (sector * sector_size) buf (sector * sector_size) sector_size x,
          λ (le : sector * sector_size ≤ x).
              ap buf
                (let z : sector * sector_size + (x - sector * sector_size) ≡ x = omega arith in z),
        ),
      )
