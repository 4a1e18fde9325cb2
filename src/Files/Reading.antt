-- ===== src/Files/Reading.antt =====
-- kernel/filesystem.c: what `fs_init` reads from an archive.
use risc_v_os.Base.{
  ℕ, zero, suc, ◌+◌, ◌≤◌, ◌<◌, ◌≡◌, ◌⊎◌, inl, inr, refl, sym, ap, ◌∙◌, arith, if◌then◌else◌, true,
  false, List, [], ◌∷◌, length, get_or, set, get_or-set_self, get_or-set_ne, length-set, Result, ok,
  panic, invalid_tar_header, ◌==◌, subst,
}
use risc_v_os.Memory.{strcmp, array_of}
use risc_v_os.Files.{File, Fs, at_magic, ustar, entry_size, no_file, read_entry, read_entries}
use risc_v_os.Files.Archive.{
  Archived, archive_size, SameFile, Restored, read_entry-SameFile, is_used, has_magic,
}

module _ (rounds i off : ℕ) (s : Fs) where
  abbrev file : File
  file = read_entry s.disk off (get_or s.files i no_file)

  abbrev next : Fs
  next = record s { files = set s.files i file }

  abbrev rest : Result Fs
  rest = read_entries rounds (i + 1) (off + entry_size file.size) next

  read_entries-end : s.disk off ≡ 0 → read_entries (suc rounds) i off s ≡ ok s
  unfolding read_entries
  read_entries-end e =
      ap
        (λ c.
          if c == 0
          then ok s
          else if strcmp 6 s.disk (off + at_magic) (array_of ustar) 0 == 0
          then rest
          else panic invalid_tar_header)
        e

  read_entries-next :
      (s.disk off == 0) ≡ false
      → (strcmp 6 s.disk (off + at_magic) (array_of ustar) 0 == 0) ≡ true
      → read_entries (suc rounds) i off s ≡ rest
  unfolding read_entries
  read_entries-next used magic =
      ap
        (λ b.
          if b
          then ok s
          else if strcmp 6 s.disk (off + at_magic) (array_of ustar) 0 == 0
          then rest
          else panic invalid_tar_header)
        used
      ∙ ap (λ b. if b then rest else panic invalid_tar_header) magic

  -- `fs_init` panics where a header with a name has another magic.
  pub read_entries-invalid :
      (s.disk off == 0) ≡ false
      → (strcmp 6 s.disk (off + at_magic) (array_of ustar) 0 == 0) ≡ false
      → read_entries (suc rounds) i off s ≡ panic invalid_tar_header
  unfolding read_entries
  read_entries-invalid used magic =
      ap
        (λ b.
          if b
          then ok s
          else if strcmp 6 s.disk (off + at_magic) (array_of ustar) 0 == 0
          then rest
          else panic invalid_tar_header)
        used
      ∙ ap (λ b. if b then rest else panic invalid_tar_header) magic

-- The files from slot `i` on are those of the archive, and the other slots are as they were.
pub record Read (fs : List File) (i : ℕ) (s t : Fs) : Type 0 where
  pub restored : Restored fs i t.files
  pub same_slots : length t.files ≡ length s.files
  pub others :
      (j : ℕ) → (j < i) ⊎ (i + length fs ≤ j) → get_or t.files j no_file ≡ get_or s.files j no_file

-- An archive with a zero behind it, or with as many entries as there are rounds, is read whole.
pub read_entries-Read :
    (fs : List File) (rounds i off : ℕ) (s : Fs)
    → Archived fs off s.disk
    → (length fs < rounds) × (s.disk (off + archive_size fs) ≡ 0) ⊎ (length fs ≡ rounds)
    → i + length fs ≤ length s.files
    → (t : Fs) × (read_entries rounds i off s ≡ ok t) × Read fs i s t
unfolding read_entries
read_entries-Read [] zero i off s a stop room =
    (s, refl, record { restored = tt; same_slots = refl; others = λ _ _. refl })
read_entries-Read [] (suc rounds) i off s a stop room = (
  s,
  read_entries-end rounds i off s
      (ap s.disk (let z : off ≡ off + 0 = omega arith in z) ∙ ended stop),
  record { restored = tt; same_slots = refl; others = λ _ _. refl },
)
  where
    ended : (0 < suc rounds) × (s.disk (off + 0) ≡ 0) ⊎ (0 ≡ suc rounds) → s.disk (off + 0) ≡ 0
    ended (inl (_, e)) = e
    ended (inr e) = absurd (omega arith)
read_entries-Read (f ∷ fs) zero i off s a stop room = absurd (omega (arith, stop))
read_entries-Read (f ∷ fs) (suc rounds) i off s ((w, h), a) stop room =
    let same = read_entry-SameFile f w off s.disk h (get_or s.files i no_file) in
    let after = off + entry_size f.size in
    let (t, e, r) =
      read_entries-Read fs rounds (i + 1) after (next rounds i off s) a
        (elim stop [
          | inl (lt, ends) ↦ inl (
            omega arith,
            ap s.disk (
                  let z : after + archive_size fs ≡ off + (entry_size f.size + archive_size fs) =
                    omega arith in
                  z)
                ∙ ends,
          )
          | inr full ↦ inr (omega arith)
        ])
        (omega (arith, length-set s.files i (file rounds i off s))) in
    (
      t,
      read_entries-next rounds i off s (is_used f w off s.disk h) (has_magic f w off s.disk h)
          ∙ ap (λ size. read_entries rounds (i + 1) (off + entry_size size) (next rounds i off s))
              same.size
          ∙ e,
      record {
        restored = (
          (
            w,
            subst (SameFile f w.name_length)
                (sym (
                  r.others i (inl (omega arith))
                  ∙ get_or-set_self s.files i (file rounds i off s) no_file (omega arith)))
                same,
          ),
          r.restored,
        );
        same_slots = r.same_slots ∙ length-set s.files i (file rounds i off s);
        others = λ j out.
            r.others j (ground arith)
            ∙ get_or-set_ne s.files i j (file rounds i off s) no_file (ground arith);
      },
    )
