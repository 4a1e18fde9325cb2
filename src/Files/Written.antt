-- ===== src/Files/Written.antt =====
-- kernel/filesystem.c: what the entry of a file in the archive says of the file.
use risc_v_os.Base.{
  ℕ, zero, suc, ◌+◌, ◌-◌, ◌*◌, ◌≤◌, ◌<◌, ◌≡◌, ◌⊎◌, inl, inr, refl, ap, ◌∙◌, arith, if◌then◌else◌,
}
use risc_v_os.Memory.{Memory, copy_lem, array_of, in_block}
use risc_v_os.Files.{
  File, header_size, at_magic, at_type, at_size, at_checksum, ustar, oct2int, write_texts,
  write_size, write_checksum, write_entry, byte_sum,
}
use risc_v_os.Files.Octal.{
  octal_digits_elsewhere, oct2int-octal_digits, oct2int-ext, octal_digits_small,
}
use risc_v_os.Files.Entry.{
  IsFile, texts_elsewhere, texts_name, texts_magic, texts_checksum, texts_small,
}

-- The entry at `off` holds the file: its name and the zero after it, the magic, its size in octal, its
-- data behind the header, and the checksum of tar: the sum of the header with its own field blank.
pub record Holds (f : File) (n off : ℕ) (d : Memory) : Type 0 where
  pub name : (i : ℕ) → i ≤ n → d (off + i) ≡ f.name i
  pub magic : (i : ℕ) → i < 6 → d (off + at_magic + i) ≡ array_of ustar i
  pub size : oct2int d (off + at_size) 12 ≡ f.size
  pub contents : (i : ℕ) → i < f.size → d (off + header_size + i) ≡ f.contents i
  pub checksum :
      oct2int d (off + at_checksum) 6
      ≡ byte_sum at_checksum d off + 8 * b' ' + byte_sum (header_size - at_type) d (off + at_type)

byte_sum-ext :
    (k : ℕ) (m d : Memory) (at : ℕ)
    → ((x : ℕ) → at ≤ x → x < at + k → d x ≡ m x)
    → byte_sum k d at ≡ byte_sum k m at
unfolding byte_sum
byte_sum-ext zero m d at same = refl
byte_sum-ext (suc k) m d at same = omega (
  arith,
  same at (omega arith) (omega arith),
  byte_sum-ext k m d (at + 1) (λ x above below. same x (omega arith) (omega arith)),
)

byte_sum-add :
    (j k : ℕ) (m : Memory) (at : ℕ)
    → byte_sum (j + k) m at ≡ byte_sum j m at + byte_sum k m (at + j)
unfolding byte_sum
byte_sum-add zero k m at =
    ap (λ i. byte_sum i m at) (let z : 0 + k ≡ k = omega arith in z)
    ∙ ap (byte_sum k m) (let z : at ≡ at + 0 = omega arith in z)
    ∙ omega arith
byte_sum-add (suc j) k m at =
    ap (λ i. byte_sum i m at) (let z : suc j + k ≡ suc (j + k) = omega arith in z)
    ∙ omega (
      arith,
      byte_sum-add j k m (at + 1),
      ap (byte_sum k m) (let z : at + 1 + j ≡ at + suc j = omega arith in z),
    )

byte_sum-le :
    (k : ℕ) (m : Memory) (at : ℕ)
    → ((x : ℕ) → at ≤ x → x < at + k → m x < 256)
    → byte_sum k m at ≤ 255 * k
unfolding byte_sum
byte_sum-le zero m at small = omega arith
byte_sum-le (suc k) m at small = omega (
  arith,
  small at (omega arith) (omega arith),
  byte_sum-le k m (at + 1) (λ x above below. small x (omega arith) (omega arith)),
)

byte_sum-zeros :
    (k : ℕ) (m : Memory) (at : ℕ) → ((x : ℕ) → at ≤ x → x < at + k → m x ≡ 0) → byte_sum k m at ≡ 0
unfolding byte_sum
byte_sum-zeros zero m at zeros = refl
byte_sum-zeros (suc k) m at zeros = omega (
  arith,
  zeros at (omega arith) (omega arith),
  byte_sum-zeros k m (at + 1) (λ x above below. zeros x (omega arith) (omega arith)),
)

-- An entry is read from its own bytes.
pub Holds-ext :
    (f : File) (n off : ℕ) (m d : Memory)
    → n < 100
    → ((x : ℕ) → off ≤ x → x < off + header_size + f.size → d x ≡ m x)
    → Holds f n off m
    → Holds f n off d
Holds-ext f n off m d short same h = record {
  name = λ i le. same (off + i) (omega arith) (omega arith) ∙ h.name i le;
  magic = λ i lt. same (off + at_magic + i) (omega arith) (omega arith) ∙ h.magic i lt;
  size =
      oct2int-ext 12 m d (off + at_size) 0 (λ x above below. same x (omega arith) (omega arith))
      ∙ h.size;
  contents = λ i lt. same (off + header_size + i) (omega arith) (omega arith) ∙ h.contents i lt;
  checksum =
      oct2int-ext 6 m d (off + at_checksum) 0 (λ x above below. same x (omega arith) (omega arith))
      ∙ omega (
        arith,
        h.checksum,
        byte_sum-ext at_checksum m d off (λ x above below. same x (omega arith) (omega arith)),
        byte_sum-ext (header_size - at_type) m d (off + at_type)
            (λ x above below. same x (omega arith) (omega arith)),
      );
}

module _ (f : File) (w : IsFile f) (off : ℕ) (m : Memory) where
  abbrev texts : Memory
  texts = write_texts f off m

  abbrev sized : Memory
  sized = write_size f off texts

  abbrev summed : Memory
  summed = write_checksum off sized

  sized_elsewhere : (x : ℕ) → (x < off + at_size) ⊎ (off + at_size + 12 ≤ x) → sized x ≡ texts x
  unfolding write_size
  sized_elsewhere x out = octal_digits_elsewhere 12 (off + at_size) f.size texts x out

  summed_elsewhere :
      (x : ℕ) → (x < off + at_checksum) ⊎ (off + at_checksum + 6 ≤ x) → summed x ≡ sized x
  unfolding write_checksum
  summed_elsewhere x out = octal_digits_elsewhere 6 (off + at_checksum) _ sized x out

  entry_at :
      (x : ℕ)
      → write_entry f off m x ≡ (
          if in_block (off + header_size) f.size x
          then f.contents (0 + (x - (off + header_size)))
          else summed x)
  unfolding write_entry
  entry_at x = copy_lem summed (off + header_size) f.contents 0 f.size x

  -- Nothing is written outside the entry.
  pub entry_elsewhere :
      (x : ℕ) → (x < off) ⊎ (off + header_size + f.size ≤ x) → write_entry f off m x ≡ m x
  entry_elsewhere x out =
      entry_at x
      ∙ ground (
        arith,
        summed_elsewhere x (ground arith),
        sized_elsewhere x (ground arith),
        texts_elsewhere f w off m x (ground arith),
      )

  header_at : (x : ℕ) → x < off + header_size → write_entry f off m x ≡ summed x
  header_at x below = entry_at x ∙ ground arith

  total :
      byte_sum header_size sized off
      ≡ byte_sum at_checksum sized off + byte_sum (header_size - at_type) sized (off + at_type)
  total =
      let middle = byte_sum-zeros 8 sized (off + at_checksum) (λ x above below.
        sized_elsewhere x (inr (omega arith)) ∙ texts_checksum f w off m x above (omega arith)) in
      byte_sum-add at_checksum (8 + (header_size - at_type)) sized off
      ∙ omega (
        arith,
        middle,
        byte_sum-add 8 (header_size - at_type) sized (off + at_checksum),
        ap (byte_sum (header_size - at_type) sized)
            (let z : off + at_checksum + 8 ≡ off + at_type = omega arith in z),
      )

  small : (x : ℕ) → off ≤ x → x < off + header_size → sized x < 256
  unfolding write_size
  small x above below =
      octal_digits_small 12 (off + at_size) f.size texts x (texts_small f w off m x above below)

  pub write_entry-Holds : Holds f w.name_length off (write_entry f off m)
  unfolding write_size write_checksum
  write_entry-Holds = record {
    name = λ i le.
        let fits = w.name_fits in
        header_at (off + i) (omega arith)
        ∙ summed_elsewhere (off + i) (inl (omega arith))
        ∙ sized_elsewhere (off + i) (inl (omega arith))
        ∙ texts_name f w off m i le;
    magic = λ i lt.
        header_at (off + at_magic + i) (omega arith)
        ∙ summed_elsewhere (off + at_magic + i) (inr (omega arith))
        ∙ sized_elsewhere (off + at_magic + i) (inr (omega arith))
        ∙ texts_magic f w off m i lt;
    size =
        oct2int-ext 12 sized (write_entry f off m) (off + at_size) 0
          (λ x above below. header_at x (omega arith) ∙ summed_elsewhere x (inl (omega arith)))
        ∙ oct2int-octal_digits 12 (off + at_size) f.size texts (omega (arith, w.data_fits))
            (omega (arith, w.data_fits));
    contents = λ i lt.
        entry_at (off + header_size + i)
        ∙ ground (
          arith,
          ap f.contents
              (let z : 0 + (off + header_size + i - (off + header_size)) ≡ i = omega arith in z),
        );
    checksum =
        let value = b' ' * 8 + byte_sum header_size sized off in
        let bound = byte_sum-le header_size sized off (λ x above below. small x above below) in
        oct2int-ext 6 summed (write_entry f off m) (off + at_checksum) 0
          (λ x above below. header_at x (omega arith))
        ∙ oct2int-octal_digits 6 (off + at_checksum) value sized (omega (arith, bound))
            (omega (arith, bound))
        ∙ omega (
          arith,
          total,
          byte_sum-ext at_checksum sized (write_entry f off m) off
              (λ x above below. header_at x (omega arith) ∙ summed_elsewhere x (inl (omega arith))),
          byte_sum-ext (header_size - at_type) sized (write_entry f off m) (off + at_type)
              (λ x above below. header_at x (omega arith) ∙ summed_elsewhere x (inr (omega arith))),
        );
  }
