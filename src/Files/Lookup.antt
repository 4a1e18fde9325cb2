-- ===== src/Files/Lookup.antt =====
-- kernel/filesystem.c: the search for a file by its name.
use risc_v_os.Base.{
  ℕ, ◌<◌, ◌≡◌, ◌⊎◌, inl, inr, refl, sym, ap, ◌∙◌, arith, none, some, Option-cases, true, false,
  ==→eq, ◌==◌, length, get_or, All, All-get_or, find_index, find_index-some, find_index_first,
  find_index-none,
}
use risc_v_os.Memory.{Memory, IsString, IsBytes, SameText, strcmp, strcmp→SameText, SameText→strcmp}
use risc_v_os.Files.{File, Fs, no_file, fs_lookup}

-- The name of a slot is a string, also of one that is not in use, where it may be empty.
pub record IsNamed (f : File) : Type 0 where
  pub name_length : ℕ
  pub named : IsString f.name 0 name_length
  pub name_bytes : IsBytes f.name

pub no_file-IsNamed : IsNamed no_file
no_file-IsNamed = record {
  name_length = 0;
  named = record { text = λ i lt. absurd (omega arith); ends = refl };
  name_bytes = λ x. omega arith;
}

module _ (fuel filename n : ℕ) (m : Memory) (s : Fs) (asked : IsString m filename n)
    (bytes : IsBytes m) (enough : n < fuel) (all : All IsNamed s.files) where
  abbrev named_at : (j : ℕ) → IsNamed (get_or s.files j no_file)
  named_at j = All-get_or IsNamed s.files j no_file all no_file-IsNamed

  -- Slot `j` has the name that is asked for.
  abbrev pub HasName : ℕ → Type 0
  HasName j = SameText (get_or s.files j no_file).name 0 (named_at j).name_length m filename n

  matches :
      (j : ℕ) → (strcmp fuel (get_or s.files j no_file).name 0 m filename == 0) ≡ true → HasName j
  matches j e =
      strcmp→SameText (get_or s.files j no_file).name m fuel 0 (named_at j).name_length filename n
        (named_at j).name_bytes bytes (named_at j).named asked enough (==→eq _ 0 e)

  differs :
      (j : ℕ)
      → (strcmp fuel (get_or s.files j no_file).name 0 m filename == 0) ≡ false
      → HasName j
      → ⊥
  differs j e same =
      let hit =
        SameText→strcmp (get_or s.files j no_file).name m fuel 0 (named_at j).name_length filename n
          (named_at j).named asked enough same in
      let bad : true ≡ false = sym (ap (λ v. v == 0) hit) ∙ e in cc

  -- `fs_lookup` answers the first slot with the name that is asked for, whether it is in use or not,
  -- and NULL exactly where there is none.
  pub fs_lookup_lem :
      ((i : ℕ) × (fs_lookup fuel m filename s ≡ some i)
        × (i < length s.files)
        × HasName i
        × ((j : ℕ) → j < i → HasName j → ⊥))
      ⊎ (fs_lookup fuel m filename s ≡ none) × ((j : ℕ) → j < length s.files → HasName j → ⊥)
  unfolding fs_lookup
  fs_lookup_lem =
      let test = λ (f : File). strcmp fuel f.name 0 m filename == 0 in
      elim (Option-cases (find_index test s.files)) [
        | inr (i, found) ↦
            let (inside, hit) = find_index-some test s.files no_file i found in
            inl (
              i,
              found,
              inside,
              matches i hit,
              λ j lt. differs j (find_index_first test s.files no_file i j found lt),
            )
        | inl missing ↦
            inr (missing, λ j lt. differs j (find_index-none test s.files no_file missing j lt))
      ]
