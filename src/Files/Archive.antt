-- ===== src/Files/Archive.antt =====
-- kernel/filesystem.c: the archive of all files, written by `fs_flush` and read by `fs_init`.
use risc_v_os.Base.{
  ℕ, ◌+◌, ◌-◌, ◌≤◌, ◌<◌, ◌≡◌, ◌≢◌, ◌⊎◌, inl, inr, refl, sym, ap, ◌∙◌, arith, if◌then◌else◌, true,
  false, Bool-cases, List, [], ◌∷◌, All, get_or, ◌==◌, subst, length, suc, zero,
}
use risc_v_os.Memory.{Memory, copy_lem, strcmp, strcpy-copy, SameText→strcmp, array_of, IsString}
use risc_v_os.Files.{
  File, header_size, at_magic, at_size, ustar, entry_size, no_file, name_size, oct2int, write_entry,
  write_entries, read_entry,
}
use risc_v_os.Files.Entry.{IsFile, ustar-IsString}
use risc_v_os.Files.Written.{Holds, Holds-ext, write_entry-Holds, entry_elsewhere}

-- The files in use, and the room that their entries take.
unfoldable pub used_files : List File → List File
used_files [] = []
used_files (f ∷ fs) = if f.in_use then f ∷ used_files fs else used_files fs

abbrev pub archive_size : List File → ℕ
archive_size [] = 0
archive_size (f ∷ fs) = entry_size f.size + archive_size fs

-- The entries of the files, one behind the other from `off` on.
abbrev pub Archived : List File → ℕ → Memory → Type 0
Archived [] off d = Unit
Archived (f ∷ fs) off d =
    ((w : IsFile f) × Holds f w.name_length off d) × Archived fs (off + entry_size f.size) d

-- An archive is read from its own bytes.
pub Archived-inside :
    (fs : List File) (off last : ℕ) (m d : Memory)
    → ((x : ℕ) → x < last → d x ≡ m x)
    → off + archive_size fs ≤ last
    → Archived fs off m
    → Archived fs off d
Archived-inside [] off last m d same room a = tt
Archived-inside (f ∷ fs) off last m d same room ((w, h), a) = (
  (w, Holds-ext f w.name_length off m d w.name_fits (λ x above below. same x (omega arith)) h),
  Archived-inside fs (off + entry_size f.size) last m d same (omega arith) a,
)

-- Only the files in use are written.
abbrev pub write_all : List File → ℕ → Memory → Memory
write_all [] off m = m
write_all (f ∷ fs) off m = write_all fs (off + entry_size f.size) (write_entry f off m)

-- A file in use is one of the files in use.
pub used_files-get_or :
    (files : List File) (i : ℕ)
    → i < length files
    → (get_or files i no_file).in_use ≡ true
    → (j : ℕ) × (j < length (used_files files))
      × (get_or (used_files files) j no_file ≡ get_or files i no_file)
unfolding used_files
used_files-get_or [] i lt used = absurd (omega arith)
used_files-get_or (f ∷ fs) zero lt used = rw used (0, omega arith, refl)
used_files-get_or (f ∷ fs) (suc i) lt used =
    let (j, inside, at) = used_files-get_or fs i (omega arith) used in
    elim (Bool-cases f.in_use) [
      | inl here ↦ rw here (suc j, omega arith, at)
      | inr free ↦ rw free (j, inside, at)
    ]

pub write_entries-used :
    (files : List File) (off : ℕ) (m : Memory)
    → write_entries files off m ≡ write_all (used_files files) off m
unfolding write_entries used_files
write_entries-used [] off m = refl
write_entries-used (f ∷ fs) off m = elim (Bool-cases f.in_use) [
  | inl used ↦
      ap
        (λ b.
          if b
          then write_entries fs (off + entry_size f.size) (write_entry f off m)
          else write_entries fs off m)
        used
      ∙ write_entries-used fs (off + entry_size f.size) (write_entry f off m)
      ∙ sym (ap (λ b. write_all (if b then f ∷ used_files fs else used_files fs) off m) used)
  | inr unused ↦
      ap
        (λ b.
          if b
          then write_entries fs (off + entry_size f.size) (write_entry f off m)
          else write_entries fs off m)
        unused
      ∙ write_entries-used fs off m
      ∙ sym (ap (λ b. write_all (if b then f ∷ used_files fs else used_files fs) off m) unused)
]

-- Nothing is written outside the archive.
pub write_all_elsewhere :
    (fs : List File) (off : ℕ) (m : Memory) (x : ℕ)
    → All IsFile fs
    → (x < off) ⊎ (off + archive_size fs ≤ x)
    → write_all fs off m x ≡ m x
write_all_elsewhere [] off m x all out = refl
write_all_elsewhere (f ∷ fs) off m x (w, all) out =
    write_all_elsewhere fs (off + entry_size f.size) (write_entry f off m) x all (ground arith)
    ∙ entry_elsewhere f w off m x (ground arith)

pub write_all-Archived :
    (fs : List File) (off : ℕ) (m : Memory) → All IsFile fs → Archived fs off (write_all fs off m)
write_all-Archived [] off m all = tt
write_all-Archived (f ∷ fs) off m (w, all) = (
  (
    w,
    Holds-ext f w.name_length off (write_entry f off m)
        (write_all fs (off + entry_size f.size) (write_entry f off m)) w.name_fits
        (λ x above below.
          write_all_elsewhere fs (off + entry_size f.size) (write_entry f off m) x all
            (inl (omega arith)))
        (write_entry-Holds f w off m),
  ),
  write_all-Archived fs (off + entry_size f.size) (write_entry f off m) all,
)

-- The file is the same, as far as its name and its size go.
pub record SameFile (f : File) (n : ℕ) (g : File) : Type 0 where
  pub in_use : g.in_use ≡ true
  pub size : g.size ≡ f.size
  pub name : (i : ℕ) → i ≤ n → g.name i ≡ f.name i
  pub contents : (i : ℕ) → i < f.size → g.contents i ≡ f.contents i

-- The files stand in the slots from `i` on.
abbrev pub Restored : List File → ℕ → List File → Type 0
Restored [] i files = Unit
Restored (f ∷ fs) i files =
    ((w : IsFile f) × SameFile f w.name_length (get_or files i no_file)) × Restored fs (i + 1) files

module _ (f : File) (w : IsFile f) (off : ℕ) (d : Memory) (h : Holds f w.name_length off d) where
  name_there : IsString d off w.name_length
  name_there = record {
    text = λ i lt.
        subst (λ c. c ≢ 0) (sym (h.name i (omega arith)))
          (subst (λ k. f.name k ≢ 0) (let z : 0 + i ≡ i = omega arith in z) (w.named.text i lt));
    ends =
        h.name w.name_length (omega arith)
        ∙ ap f.name (let z : w.name_length ≡ 0 + w.name_length = omega arith in z)
        ∙ w.named.ends;
  }

  pub read_entry-SameFile : (old : File) → SameFile f w.name_length (read_entry d off old)
  unfolding read_entry
  read_entry-SameFile old = record {
    in_use = refl;
    size = h.size;
    name = λ i le.
        ap (λ k. k i) (strcpy-copy name_size old.name 0 d off w.name_length name_there w.name_fits)
        ∙ copy_lem old.name 0 d off (w.name_length + 1) i
        ∙ ground (arith, h.name i le, ap d (let z : off + (i - 0) ≡ off + i = omega arith in z));
    contents = λ i lt.
        copy_lem old.contents 0 d (off + header_size) (oct2int d (off + at_size) 12) i
        ∙ ground (
          arith,
          h.size,
          h.contents i lt,
          ap d (let z : off + header_size + (i - 0) ≡ off + header_size + i = omega arith in z),
        );
  }

  pub is_used : (d off == 0) ≡ false
  is_used =
      let first = name_there.text 0 (w.not_empty) in
      ground (arith, ap d (let z : off + 0 ≡ off = omega arith in z))

  magic_there : IsString d (off + at_magic) 5
  magic_there = record {
    text = λ i lt.
        subst (λ c. c ≢ 0) (sym (h.magic i (omega arith)))
          (subst (λ k. array_of ustar k ≢ 0) (let z : 0 + i ≡ i = omega arith in z)
            (ustar-IsString.text i lt));
    ends = h.magic 5 (omega arith);
  }

  pub has_magic : (strcmp 6 d (off + at_magic) (array_of ustar) 0 == 0) ≡ true
  has_magic =
      ap (λ v. v == 0)
        (SameText→strcmp d (array_of ustar) 6 (off + at_magic) 5 0 5 magic_there ustar-IsString
          (omega arith)
          (record {
            same_length = refl;
            same_bytes = λ i lt.
                h.magic i (omega arith)
                ∙ ap (array_of ustar) (let z : i ≡ 0 + i = omega arith in z);
          }))
