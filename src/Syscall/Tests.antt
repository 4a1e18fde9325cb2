-- ===== src/Syscall/Tests.antt =====
-- kernel/syscall.c: instances on a process that writes three bytes to the file "hi".
use risc_v_os.Base.{
  ℕ, ◌+◌, ◌-◌, ◌*◌, ◌≡◌, refl, arith, true, some, [], ◌∷◌, ok, if◌then◌else◌, true, false,
  find_index, ◌<◌, get_or,
}
use risc_v_os.Memory.{Memory, copy, strcmp, in_block, array_of, array_of-IsBytes, array_of-IsString}
use risc_v_os.Files.{File, Fs, Disk, no_file, sector_size, sectors, fs_init, fs_lookup}
use risc_v_os.Files.Entry.{IsFile}
use risc_v_os.Files.Archive.{used_files}
use risc_v_os.Files.Reading.{Read}
use risc_v_os.Files.Sectors.{IsSectorStore}
use risc_v_os.Syscall.{Called, file_call}
use risc_v_os.Syscall.Persist.{rewritten, write_call_persists, read_call-write_call}

abbrev hello : File
hello = record {
  in_use = true;
  name = array_of (b'h' ∷ b'i' ∷ 0 ∷ []);
  contents = λ _. 0;
  size = 0;
}

abbrev files : Fs
files = record { files = no_file ∷ hello ∷ []; disk = λ _. 9 }

-- The name at 0, and three bytes at 8.
abbrev user : Memory
user = array_of (b'h' ∷ b'i' ∷ 0 ∷ 0 ∷ 0 ∷ 0 ∷ 0 ∷ 0 ∷ 1 ∷ 2 ∷ 3 ∷ [])

abbrev plain : Disk Memory
plain = record {
  read_write_disk = λ buf at sector is_write d.
      if is_write
      then some (copy d (sector * sector_size) buf at sector_size, buf)
      else some (d, copy buf at d (sector * sector_size) sector_size);
}

abbrev AlwaysUp : Memory → Type 0
AlwaysUp _ = Unit

plain-IsSectorStore : IsSectorStore plain AlwaysUp (λ d. d) sectors
plain-IsSectorStore = record {
  reads = λ buf at sector d up lt.
      (d, copy buf at d (sector * sector_size) sector_size, refl, tt, λ _. refl, λ _. refl);
  writes = λ buf at sector d up lt.
      (copy d (sector * sector_size) buf at sector_size, refl, tt, λ _. refl);
}

found : fs_lookup 3 user 0 files ≡ some 1
unfolding fs_lookup find_index strcmp
found = refl

written-IsFile : IsFile (rewritten user 8 3 hello)
written-IsFile = record {
  name_length = 2;
  named = array_of-IsString (b'h' ∷ b'i' ∷ []) (omega arith);
  not_empty = omega arith;
  name_fits = omega arith;
  name_bytes = array_of-IsBytes (b'h' ∷ b'i' ∷ 0 ∷ []) (omega arith);
  data_fits = omega arith;
}

write_call_persists_example :
    (c : Called Memory) × (file_call plain 3 true 0 8 3 user files (λ _. 5) ≡ some c)
    × (c.a0 ≡ 3)
    × (c.user ≡ user)
    × (c.fs.files ≡ no_file ∷ rewritten user 8 3 hello ∷ [])
    × (g : Memory) × (u : Fs) × (fs_init plain c.disk files ≡ some (g, ok u))
    × Read (rewritten user 8 3 hello ∷ []) 0 files u
    × (j : ℕ) × (j < 1)
    × (get_or (rewritten user 8 3 hello ∷ []) j no_file ≡ rewritten user 8 3 hello)
unfolding used_files
write_call_persists_example =
    write_call_persists plain 3 0 8 3 1 user files (λ _. 5) found (omega arith) AlwaysUp (λ d. d)
      plain-IsSectorStore tt refl (written-IsFile, tt) (omega arith) files refl refl (omega arith)

read_call-write_call_example :
    (c : Called Memory) × (file_call plain 3 true 0 8 3 user files (λ _. 5) ≡ some c)
    × (c.a0 ≡ 3)
    × (r : Called Memory) × (file_call plain 3 false 0 40 3 c.user c.fs c.disk ≡ some r)
    × (r.a0 ≡ 3)
    × ((x : ℕ) → r.user x ≡ (if in_block 40 3 x then user (8 + (x - 40)) else user x))
unfolding used_files
read_call-write_call_example =
    read_call-write_call plain 3 0 8 3 1 user files (λ _. 5) found (omega arith) AlwaysUp (λ d. d)
      plain-IsSectorStore tt refl (written-IsFile, tt) (omega arith) 40 (omega arith)
