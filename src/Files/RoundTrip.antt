-- ===== src/Files/RoundTrip.antt =====
-- kernel/filesystem.c: `fs_flush`, and `fs_init` after it.
use risc_v_os.Base.{
  ℕ, ◌+◌, ◌≤◌, ◌<◌, ◌≡◌, inl, inr, refl, ap, ◌∙◌, arith, Bool-cases, if◌then◌else◌, some, List, [],
  ◌∷◌, All, length, ltb, ok,
}
use risc_v_os.Memory.{Memory, memset, memset_lem}
use risc_v_os.Files.{
  File, Fs, Disk, files_max, disk_max_size, sectors, write_entries, fs_flush, flushed, fs_init,
  init_loaded,
}
use risc_v_os.Files.Entry.{IsFile}
use risc_v_os.Files.Archive.{
  used_files, archive_size, Archived-inside, write_all, write_entries-used, write_all_elsewhere,
  write_all-Archived,
}
use risc_v_os.Files.Reading.{Read, read_entries-Read}
use risc_v_os.Files.Sectors.{IsSectorStore, read_sectors, write_sectors}

-- The buffer that `fs_flush` fills.
abbrev pub archive : Fs → Memory
archive s = write_entries s.files 0 (memset s.disk 0 0 disk_max_size)

archive-used :
    (s : Fs) → archive s ≡ write_all (used_files s.files) 0 (memset s.disk 0 0 disk_max_size)
archive-used s = write_entries-used s.files 0 (memset s.disk 0 0 disk_max_size)

-- Where the entries of the files in use fit the 2560 bytes of `disk`, no byte behind it is written.
pub archive_bounds :
    (s : Fs) (x : ℕ)
    → All IsFile (used_files s.files)
    → archive_size (used_files s.files) ≤ disk_max_size
    → disk_max_size ≤ x
    → archive s x ≡ s.disk x
archive_bounds s x all fits beyond =
    ap (λ m. m x) (archive-used s)
    ∙ write_all_elsewhere (used_files s.files) 0 (memset s.disk 0 0 disk_max_size) x all
        (inr (omega arith))
    ∙ ground (arith, memset_lem s.disk 0 0 disk_max_size x)

length-used_files : (fs : List File) → length (used_files fs) ≤ length fs
unfolding used_files
length-used_files [] = omega arith
length-used_files (f ∷ fs) = elim (Bool-cases f.in_use) [
  | inl used ↦ omega (
    arith,
    length-used_files fs,
    ap (λ b. length (if b then f ∷ used_files fs else used_files fs)) used,
  )
  | inr unused ↦ omega (
    arith,
    length-used_files fs,
    ap (λ b. length (if b then f ∷ used_files fs else used_files fs)) unused,
  )
]

-- With a slot to spare, there is a zero behind the archive.
room_left :
    (fs : List File) → All IsFile fs → length fs < files_max → archive_size fs < disk_max_size
room_left [] all few = omega arith
room_left (f ∷ []) (w, all) few = let fits = w.data_fits in omega arith
room_left (f ∷ g ∷ fs) all few = absurd (omega arith)

module _ {D : Type 0} (dev : Disk D) (IsUp : D → Type 0) (shows : D → Memory)
    (law : IsSectorStore dev IsUp shows sectors) (s : Fs) (slots : length s.files ≡ files_max)
    (all : All IsFile (used_files s.files))
    (fits : archive_size (used_files s.files) ≤ disk_max_size) where
  -- With two slots, files that fit their arrays and an archive that fits the buffer, `fs_flush`
  -- returns, with the disk still up, and a later `fs_init` returns with the files that were in use, in
  -- their order, in the first slots: the same names, sizes and data; the other slots are as before.
  pub fs_init-fs_flush :
      (d : D) (before : Fs)
      → IsUp d
      → length before.files ≡ files_max
      → (e : D) × (t : Fs) × (fs_flush dev d s ≡ some (e, t))
        × (t.files ≡ s.files)
        × (g : D) × (u : Fs) × (fs_init dev e before ≡ some (g, ok u))
        × IsUp g
        × Read (used_files s.files) 0 before u
  unfolding fs_flush fs_init flushed init_loaded
  fs_init-fs_flush d before up slots' =
      let used = used_files s.files in
      let (e, written, up', shown) =
        write_sectors dev IsUp shows sectors law sectors 0 (archive s) d up (omega arith) in
      let (g, b, loaded, up'', _, bytes) =
        read_sectors dev IsUp shows sectors law sectors 0 before.disk e up' (omega arith) in
      let same : (x : ℕ)
          → x < disk_max_size
          → b x ≡ write_all used 0 (memset s.disk 0 0 disk_max_size) x =
        λ x lt. bytes x ∙ ground (arith, shown x) ∙ ap (λ m. m x) (archive-used s) in
      let (u, read, r) =
        read_entries-Read used files_max 0 0 (record before { disk = b })
          (Archived-inside used 0 disk_max_size _ b same (omega arith)
            (write_all-Archived used 0 (memset s.disk 0 0 disk_max_size) all))
          (elim (Bool-cases (ltb (length used) files_max)) [
            | inl few ↦ inl (
              ground arith,
              same (0 + archive_size used) (omega (arith, room_left used all (ground arith)))
                  ∙ write_all_elsewhere used 0 (memset s.disk 0 0 disk_max_size) _ all
                      (inr (omega arith))
                  ∙ ground (
                    arith,
                    room_left used all (ground arith),
                    memset_lem s.disk 0 0 disk_max_size (0 + archive_size used),
                  ),
            )
            | inr full ↦ inr (ground (arith, length-used_files s.files))
          ])
          (omega (arith, length-used_files s.files)) in
      (
        e,
        record s { disk = archive s },
        ap (flushed dev s) written,
        refl,
        g,
        u,
        ap (init_loaded dev before) loaded ∙ ap (λ r. some (g, r)) read,
        up'',
        record { restored = r.restored; same_slots = r.same_slots; others = r.others },
      )
