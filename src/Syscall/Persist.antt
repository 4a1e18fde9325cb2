-- ===== src/Syscall/Persist.antt =====
-- kernel/syscall.c: a file that a process writes, read back by a process and after a restart.
use risc_v_os.Base.{
  ℕ, ◌+◌, ◌-◌, ◌≤◌, ◌<◌, ◌≡◌, refl, sym, ap, ◌∙◌, arith, true, false, some, if◌then◌else◌, get_or,
  set, length, All, get_or-set_self, get_or-set_view, length-set, ok, Bool, ◌==◌, find_index,
  find_index-ext, fun_ext, ltb,
}
use risc_v_os.Memory.{Memory, copy, copy_lem, strcmp, in_block}
use risc_v_os.Files.{
  File, Fs, Disk, no_file, sectors, files_max, disk_max_size, fs_lookup, fs_flush, fs_init,
}
use risc_v_os.Files.Entry.{IsFile}
use risc_v_os.Files.Archive.{used_files, archive_size, used_files-get_or}
use risc_v_os.Files.Reading.{Read}
use risc_v_os.Files.Sectors.{IsSectorStore}
use risc_v_os.Files.RoundTrip.{fs_init-fs_flush}
use risc_v_os.Syscall.{
  Called, file_data_size, is_over, overwritten, file_call, file_call_found, file_call_at, written,
}

not_over : (len : ℕ) → len ≤ file_data_size → is_over len ≡ false
not_over len fits = ground arith

-- A read of a file that is found gives the bytes of its data, as many as are asked for.
read_call :
    {D : Type 0} (dev : Disk D) (fuel filename buf len i : ℕ) (user : Memory) (s : Fs) (d : D)
    → fs_lookup fuel user filename s ≡ some i
    → len ≤ file_data_size
    → file_call dev fuel false filename buf len user s d
      ≡ some (record {
        a0 = len;
        user = copy user buf (get_or s.files i no_file).contents 0 len;
        fs = s;
        disk = d;
      })
unfolding file_call file_call_found file_call_at
read_call dev fuel filename buf len i user s d found fits =
    ap (λ o. file_call_found dev false o buf len user s d) found
    ∙ ap
        (λ b. some (record {
          a0 = if b then (get_or s.files i no_file).size else len;
          user =
              copy user buf (get_or s.files i no_file).contents 0
                (if b then (get_or s.files i no_file).size else len);
          fs = s;
          disk = d;
        }))
        (not_over len fits)

-- The file once a process has written the `len` bytes at `buf`: its first bytes are those, the bytes
-- behind them, the name and whether it is in use are as before, and `len` is its size.
abbrev pub rewritten : Memory → ℕ → ℕ → File → File
rewritten user buf len file = record {
  in_use = file.in_use;
  name = file.name;
  contents = λ x. if ltb x len then user (buf + x) else file.contents x;
  size = len;
}

overwritten-rewritten :
    {D : Type 0} (dev : Disk D) (user : Memory) (buf len : ℕ) (file : File)
    → overwritten dev user buf len file ≡ rewritten user buf len file
overwritten-rewritten dev user buf len file =
    ap (λ (m : Memory). record file { contents = m; size = len })
      (fun_ext (λ x. copy_lem file.contents 0 user buf len x ∙ ground arith))

module _ {D : Type 0} (dev : Disk D) (fuel filename buf len i : ℕ) (user : Memory) (s : Fs) (d : D)
    (found : fs_lookup fuel user filename s ≡ some i) (fits : len ≤ file_data_size) where
  -- The files with the one in slot `i` written.
  abbrev pub with_bytes : Fs
  with_bytes = record s {
    files = set s.files i (rewritten user buf len (get_or s.files i no_file));
  }

  write_call :
      file_call dev fuel true filename buf len user s d
      ≡ written dev len user (fs_flush dev d with_bytes)
  unfolding file_call file_call_found file_call_at
  write_call =
      ap (λ o. file_call_found dev true o buf len user s d) found
      ∙ ap
          (λ b.
            let count = if b then (get_or s.files i no_file).size else len in
            written dev count user (
              fs_flush dev d (record s {
                files = set s.files i (overwritten dev user buf count (get_or s.files i no_file));
              })))
          (not_over len fits)
      ∙ ap (λ f. written dev len user (fs_flush dev d (record s { files = set s.files i f })))
          (overwritten-rewritten dev user buf len (get_or s.files i no_file))

  module _ (IsUp : D → Type 0) (shows : D → Memory) (law : IsSectorStore dev IsUp shows sectors)
      (up : IsUp d) (slots : length s.files ≡ files_max)
      (all : All IsFile (used_files with_bytes.files))
      (room : archive_size (used_files with_bytes.files) ≤ disk_max_size) where
    -- What the call stores, and what a restart reads.
    stored :
        (before : Fs)
        → length before.files ≡ files_max
        → (c : Called D) × (file_call dev fuel true filename buf len user s d ≡ some c)
          × (c.a0 ≡ len)
          × (c.user ≡ user)
          × (c.fs.files ≡ with_bytes.files)
          × (g : D) × (u : Fs) × (fs_init dev c.disk before ≡ some (g, ok u))
          × Read (used_files with_bytes.files) 0 before u
    unfolding written
    stored before slots' =
        let (e, t, flushed, same, g, u, started, _, read) =
          fs_init-fs_flush dev IsUp shows law with_bytes
            (length-set s.files i (rewritten user buf len (get_or s.files i no_file)) ∙ slots) all
            room d before up slots' in
        (
          record { a0 = len; user = user; fs = t; disk = e },
          write_call ∙ ap (written dev len user) flushed,
          refl,
          refl,
          same,
          g,
          u,
          started,
          read,
        )

    -- Over a working disk, with every file in use well formed and room for their entries in the 2560
    -- bytes of the buffer after the call, a process writes at most 1024 bytes to a file that is in use
    -- and found. The call returns their number and leaves the process's memory alone; the file holds
    -- the bytes, with its name and the bytes behind them kept, and the other file is as before; and a
    -- restart of the file system from the disk, whatever was in its two slots, finds the files in use,
    -- the one that was written among them.
    pub write_call_persists :
        (before : Fs)
        → length before.files ≡ files_max
        → (get_or s.files i no_file).in_use ≡ true
        → i < length s.files
        → (c : Called D) × (file_call dev fuel true filename buf len user s d ≡ some c)
          × (c.a0 ≡ len)
          × (c.user ≡ user)
          × (c.fs.files ≡ set s.files i (rewritten user buf len (get_or s.files i no_file)))
          × (g : D) × (u : Fs) × (fs_init dev c.disk before ≡ some (g, ok u))
          × Read (used_files with_bytes.files) 0 before u
          × (j : ℕ) × (j < length (used_files with_bytes.files))
          × (get_or (used_files with_bytes.files) j no_file
              ≡ rewritten user buf len (get_or s.files i no_file))
    write_call_persists before slots' used inside =
        let (j, lt, at) =
          used_files-get_or with_bytes.files i
            (omega (
              arith,
              inside,
              length-set s.files i (rewritten user buf len (get_or s.files i no_file)),
            ))
            (ap (λ (f : File). f.in_use)
                (get_or-set_self s.files i (rewritten user buf len (get_or s.files i no_file))
                  no_file inside)
              ∙ used) in
        let (c, wrote, number, kept, files, g, u, started, read) = stored before slots' in
        (
          c,
          wrote,
          number,
          kept,
          files,
          g,
          u,
          started,
          read,
          j,
          lt,
          at
              ∙ get_or-set_self s.files i (rewritten user buf len (get_or s.files i no_file))
                  no_file inside,
        )

    -- The call finds the same file again.
    found_again : (t : Fs) → t.files ≡ with_bytes.files → fs_lookup fuel user filename t ≡ some i
    unfolding fs_lookup
    found_again t same =
        ap (find_index test) same
        ∙ sym (
            find_index-ext test s.files with_bytes.files no_file
              (sym (length-set s.files i (rewritten user buf len (get_or s.files i no_file))))
              (λ j.
                ap (λ name. strcmp fuel name 0 user filename == 0)
                  (sym (
                    get_or-set_view (λ (f : File). f.name) s.files i j
                      (rewritten user buf len (get_or s.files i no_file)) no_file refl))))
        ∙ found
      where
        test : File → Bool
        test f = strcmp fuel f.name 0 user filename == 0

    -- Over a working disk, with every file in use well formed and room for their entries in the 2560
    -- bytes of the buffer after the write: what a process has written to a file that is found, at most
    -- 1024 bytes, a later read of as many bytes puts into its memory at the address that it gives, and
    -- changes nothing else of it; both calls answer the number of bytes.
    pub read_call-write_call :
        (at : ℕ)
        → i < length s.files
        → (c : Called D) × (file_call dev fuel true filename buf len user s d ≡ some c)
          × (c.a0 ≡ len)
          × (r : Called D) × (file_call dev fuel false filename at len c.user c.fs c.disk ≡ some r)
          × (r.a0 ≡ len)
          × ((x : ℕ) → r.user x ≡ (if in_block at len x then user (buf + (x - at)) else user x))
    read_call-write_call at inside =
        let (c, wrote, number, kept, files, _, _, _, _) = stored s slots in
        let file = rewritten user buf len (get_or s.files i no_file) in
        let holds : get_or c.fs.files i no_file ≡ file =
          ap (λ fs. get_or fs i no_file) files ∙ get_or-set_self s.files i file no_file inside in
        let again : fs_lookup fuel c.user filename c.fs ≡ some i =
          ap (λ m. fs_lookup fuel m filename c.fs) kept ∙ found_again c.fs files in
        (
          c,
          wrote,
          number,
          record {
            a0 = len;
            user = copy c.user at (get_or c.fs.files i no_file).contents 0 len;
            fs = c.fs;
            disk = c.disk;
          },
          read_call dev fuel filename at len i c.user c.fs c.disk again fits,
          refl,
          λ x.
              ap (λ (f : File). copy c.user at f.contents 0 len x) holds
              ∙ ap (λ m. copy m at file.contents 0 len x) kept
              ∙ copy_lem user at file.contents 0 len x
              ∙ ground arith,
        )
