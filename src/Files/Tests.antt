-- ===== src/Files/Tests.antt =====
-- kernel/filesystem.c: instances on one file of three bytes, and on a disk that is an array.
use risc_v_os.Base.{ℕ, ◌*◌, ◌≡◌, ◌<◌, ◌⊎◌, refl, arith, true, none, some, [], ◌∷◌, if◌then◌else◌}
use risc_v_os.Memory.{Memory, copy, array_of, array_of-IsBytes, array_of-IsString, IsString}
use risc_v_os.Files.{File, Fs, Disk, no_file, sector_size, sectors, fs_lookup}
use risc_v_os.Files.Entry.{IsFile}
use risc_v_os.Files.Archive.{used_files}
use risc_v_os.Files.Sectors.{IsSectorStore}
use risc_v_os.Files.RoundTrip.{archive, archive_bounds}
use risc_v_os.Files.Lookup.{IsNamed, no_file-IsNamed, HasName, fs_lookup_lem}

abbrev hello : File
hello = record {
  in_use = true;
  name = array_of (b'h' ∷ b'i' ∷ 0 ∷ []);
  contents = array_of (1 ∷ 2 ∷ 3 ∷ []);
  size = 3;
}

hi-IsString : IsString (array_of (b'h' ∷ b'i' ∷ 0 ∷ [])) 0 2
hi-IsString = array_of-IsString (b'h' ∷ b'i' ∷ []) (omega arith)

hello-IsFile : IsFile hello
hello-IsFile = record {
  name_length = 2;
  named = hi-IsString;
  not_empty = omega arith;
  name_fits = omega arith;
  name_bytes = array_of-IsBytes (b'h' ∷ b'i' ∷ 0 ∷ []) (omega arith);
  data_fits = omega arith;
}

-- The second slot is free: it is the first that is flushed over.
abbrev files : Fs
files = record { files = no_file ∷ hello ∷ []; disk = λ _. 9 }

abbrev fresh : Fs
fresh = record { files = no_file ∷ no_file ∷ []; disk = λ _. 0 }

-- A disk that is an array of bytes.
abbrev plain : Disk Memory
plain = record {
  read_write_disk = λ buf at sector is_write d.
      if is_write
      then some (copy d (sector * sector_size) buf at sector_size, buf)
      else some (d, copy buf at d (sector * sector_size) sector_size);
}

abbrev AlwaysUp : Memory → Type 0
AlwaysUp _ = Unit

plain-IsSectorStore : IsSectorStore plain AlwaysUp (λ d. d) sectors
plain-IsSectorStore = record {
  reads = λ buf at sector d up lt.
      (d, copy buf at d (sector * sector_size) sector_size, refl, tt, λ _. refl, λ _. refl);
  writes = λ buf at sector d up lt.
      (copy d (sector * sector_size) buf at sector_size, refl, tt, λ _. refl);
}

archive_bounds_example : archive files 2560 ≡ 9
unfolding used_files
archive_bounds_example = archive_bounds files 2560 (hello-IsFile, tt) (omega arith) (omega arith)

files-IsNamed : IsNamed no_file × (IsNamed hello × Unit {0})
files-IsNamed = (
  no_file-IsNamed,
  (
    record {
      name_length = 2;
      named = hi-IsString;
      name_bytes = array_of-IsBytes (b'h' ∷ b'i' ∷ 0 ∷ []) (omega arith);
    },
    tt,
  ),
)

fs_lookup_lem_example :
    ((i : ℕ) × (fs_lookup 3 hello.name 0 files ≡ some i)
      × (i < 2)
      × HasName 3 0 2 hello.name files hi-IsString hello-IsFile.name_bytes
          (omega arith)
          files-IsNamed
          i
      × ((j : ℕ)
          → j < i
          → HasName 3 0 2 hello.name files hi-IsString hello-IsFile.name_bytes
              (omega arith)
              files-IsNamed
              j
          → ⊥))
    ⊎ (fs_lookup 3 hello.name 0 files ≡ none)
      × ((j : ℕ)
          → j < 2
          → HasName 3 0 2 hello.name files hi-IsString hello-IsFile.name_bytes
              (omega arith)
              files-IsNamed
              j
          → ⊥)
fs_lookup_lem_example =
    fs_lookup_lem 3 0 2 hello.name files hi-IsString hello-IsFile.name_bytes (omega arith)
      files-IsNamed
