-- ===== src/Files.antt =====
-- kernel/filesystem.c: the files in memory, and the tar archive on the disk that holds them.
pub mod Octal
pub mod Entry
pub mod Written
pub mod Archive
pub mod Reading
pub mod Sectors
pub mod RoundTrip
pub mod Lookup
mod Tests
use risc_v_os.Base.{
  ℕ, suc, zero, ◌+◌, ◌-◌, ◌*◌, ◌/◌, ◌%◌, ◌<◌, ◌≡◌, Bool, true, false, not, ◌&&◌, Option, none, some,
  List, [], ◌∷◌, ◌==◌, leb, if◌then◌else◌, get_or, set, find_index, Result, ok, panic,
  invalid_tar_header,
}
use risc_v_os.Base.Word.{u32}
use risc_v_os.Memory.{Memory, store8, memset, array_of, copy, strcpy, strcmp}

abbrev pub files_max : ℕ
files_max = 2

abbrev pub sector_size : ℕ
sector_size = 512

-- `align_up(sizeof(struct file) * FILES_MAX, SECTOR_SIZE)`, for the 1132 bytes of a `struct file`.
abbrev pub disk_max_size : ℕ
disk_max_size = 2560

-- `name` has 100 bytes, and `data`, here `contents`, 1024.
pub record File : Type 0 where
  pub in_use : Bool
  pub name : Memory
  pub contents : Memory
  pub size : ℕ

pub record Fs : Type 0 where
  pub files : List File
  pub disk : Memory

-- The offsets of `struct tar_header`.
abbrev pub at_mode : ℕ
at_mode = 100

abbrev pub at_size : ℕ
at_size = 124

abbrev pub at_checksum : ℕ
at_checksum = 148

abbrev pub at_type : ℕ
at_type = 156

abbrev pub at_magic : ℕ
at_magic = 257

abbrev pub at_version : ℕ
at_version = 263

-- `sizeof(struct tar_header)`
abbrev pub header_size : ℕ
header_size = 512

abbrev pub ustar : List ℕ
ustar = b'u' ∷ b's' ∷ b't' ∷ b'a' ∷ b'r' ∷ 0 ∷ []

abbrev pub mode_text : List ℕ
mode_text = b'0' ∷ b'0' ∷ b'0' ∷ b'6' ∷ b'4' ∷ b'4' ∷ 0 ∷ []

abbrev pub version_text : List ℕ
version_text = b'0' ∷ b'0' ∷ 0 ∷ []

-- `align_up(sizeof(struct tar_header) + size, SECTOR_SIZE)`
abbrev pub entry_size : ℕ → ℕ
entry_size size = (header_size + size + (sector_size - 1)) / sector_size * sector_size

-- `oct[i] < '0' || oct[i] > '7'` ends the loop.
abbrev pub is_octal : ℕ → Bool
is_octal c = leb b'0' c && leb c b'7'

-- The loop of `oct2int`, with `dec` read so far.
unfoldable pub oct2int_from : ℕ → Memory → ℕ → ℕ → ℕ
oct2int_from zero m at dec = dec
oct2int_from (suc len) m at dec =
    let rest = oct2int_from len m (at + 1) (u32 (dec * 8 + (m at - b'0'))) in
    if is_octal (m at) then rest else dec

abbrev pub oct2int : Memory → ℕ → ℕ → ℕ
oct2int m at len = oct2int_from len m at 0

-- `for (i = n; i > 0; i--) { field[i - 1] = (value % 8) + '0'; value /= 8; }`
unfoldable pub octal_digits : ℕ → ℕ → ℕ → Memory → Memory
octal_digits zero at value m = m
octal_digits (suc n) at value m =
    octal_digits n at (value / 8) (store8 m (at + n) (value % 8 + b'0'))

-- The sum of `n` bytes.
unfoldable pub byte_sum : ℕ → Memory → ℕ → ℕ
byte_sum zero m at = 0
byte_sum (suc n) m at = m at + byte_sum n m (at + 1)

-- A name is copied to its zero, of at most the 100 bytes of its array.
abbrev pub name_size : ℕ
name_size = 100

-- The text fields of a header.
unfoldable pub write_texts : File → ℕ → Memory → Memory
write_texts file off m =
    store8
      (strcpy 3
        (strcpy 6
          (strcpy 7 (strcpy name_size (memset m off 0 header_size) off file.name 0) (off + at_mode)
            (array_of mode_text) 0)
          (off + at_magic) (array_of ustar) 0)
        (off + at_version) (array_of version_text) 0)
      (off + at_type) b'0'

unfoldable pub write_size : File → ℕ → Memory → Memory
write_size file off m = octal_digits 12 (off + at_size) file.size m

unfoldable pub write_checksum : ℕ → Memory → Memory
write_checksum off m = octal_digits 6 (off + at_checksum) (b' ' * 8 + byte_sum header_size m off) m

-- The body of the loop of `fs_flush`, for a file in use.
unfoldable pub write_entry : File → ℕ → Memory → Memory
write_entry file off m =
    copy (write_checksum off (write_size file off (write_texts file off m))) (off + header_size)
      file.contents 0 file.size

unfoldable pub write_entries : List File → ℕ → Memory → Memory
write_entries [] off m = m
write_entries (file ∷ files) off m =
    let written = write_entries files (off + entry_size file.size) (write_entry file off m) in
    let skipped = write_entries files off m in if file.in_use then written else skipped

-- The file that `fs_init` reads from the header at `off`, over what was in its slot.
unfoldable pub read_entry : Memory → ℕ → File → File
read_entry disk off file =
    let filesz = oct2int disk (off + at_size) 12 in
    record {
      in_use = true;
      name = strcpy name_size file.name 0 disk off;
      contents = copy file.contents 0 disk (off + header_size) filesz;
      size = filesz;
    }

abbrev pub no_file : File
no_file = record { in_use = false; name = λ _. 0; contents = λ _. 0; size = 0 }

-- The loop of `fs_init` from slot `i` on.
unfoldable pub read_entries : ℕ → ℕ → ℕ → Fs → Result Fs
read_entries zero i off s = ok s
read_entries (suc rounds) i off s =
    let file = read_entry s.disk off (get_or s.files i no_file) in
    let rest =
      read_entries rounds (i + 1) (off + entry_size file.size)
        (record s { files = set s.files i file }) in
    if s.disk off == 0
    then ok s
    else if strcmp 6 s.disk (off + at_magic) (array_of ustar) 0 == 0
    then rest
    else panic invalid_tar_header

-- What the file system asks of the disk, with states in `D`: to move one sector between the disk and
-- a buffer, as `read_write_disk` does. `none` is a wait that never ends.
pub record Disk (D : Type 0) : Type 0 where
  pub read_write_disk : Memory → ℕ → ℕ → Bool → D → Option (D × Memory)

-- The sectors of the buffer.
abbrev pub sectors : ℕ
sectors = disk_max_size / sector_size

module _ {D : Type 0} (dev : Disk D) where
  -- `for (sector ...) read_write_disk(&disk[sector * SECTOR_SIZE], sector, is_write);`
  unfoldable pub move_sectors : Bool → ℕ → ℕ → Memory → D → Option (D × Memory)
  move_sectors is_write zero sector buf d = some (d, buf)
  move_sectors is_write (suc rounds) sector buf d =
      elim (dev.read_write_disk buf (sector * sector_size) sector is_write d) [
        | none ↦ none
        | some (e, moved) ↦ move_sectors is_write rounds (sector + 1) moved e
      ]

  -- `fs_init` once the disk is read.
  unfoldable pub init_loaded : Fs → Option (D × Memory) → Option (D × Result Fs)
  init_loaded s none = none
  init_loaded s (some (d, buf)) = some (d, read_entries files_max 0 0 (record s { disk = buf }))

  unfoldable pub fs_init : D → Fs → Option (D × Result Fs)
  fs_init d s = init_loaded s (move_sectors false sectors 0 s.disk d)

  unfoldable pub flushed : Fs → Option (D × Memory) → Option (D × Fs)
  flushed s none = none
  flushed s (some (d, buf)) = some (d, record s { disk = buf })

  unfoldable pub fs_flush : D → Fs → Option (D × Fs)
  fs_flush d s =
      flushed s
        (move_sectors true sectors 0 (write_entries s.files 0 (memset s.disk 0 0 disk_max_size)) d)

-- The first file with the name, used or not, by its index.
unfoldable pub fs_lookup : ℕ → Memory → ℕ → Fs → Option ℕ
fs_lookup fuel m filename s =
    find_index (λ (f : File). strcmp fuel f.name 0 m filename == 0) s.files
