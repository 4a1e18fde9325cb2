-- ===== src/Files/Entry.antt =====
-- kernel/filesystem.c: the entry of one file in the archive, as `fs_flush` writes it.
use risc_v_os.Base.{ℕ, ◌+◌, ◌-◌, ◌≤◌, ◌<◌, ◌≡◌, ◌⊎◌, ap, ◌∙◌, arith, if◌then◌else◌, [], ◌∷◌}
use risc_v_os.Memory.{
  in_block, Memory, store8, memset, memset_lem, copy, copy_lem, strcpy, strcpy-copy, array_of,
  IsString, array_of-IsString, array_of-IsBytes, IsBytes,
}
use risc_v_os.Files.{
  File, name_size, header_size, at_mode, at_magic, at_version, at_type, at_checksum, ustar,
  mode_text, version_text, write_texts,
}

-- A file that fits its arrays: a name of 1 to 99 bytes and at most 1024 bytes of data.
pub record IsFile (f : File) : Type 0 where
  pub name_length : ℕ
  pub named : IsString f.name 0 name_length
  pub not_empty : 0 < name_length
  pub name_fits : name_length < name_size
  pub name_bytes : IsBytes f.name
  pub data_fits : f.size ≤ 1024

mode-IsString : IsString (array_of mode_text) 0 6
mode-IsString = array_of-IsString (b'0' ∷ b'0' ∷ b'0' ∷ b'6' ∷ b'4' ∷ b'4' ∷ []) (omega arith)

pub ustar-IsString : IsString (array_of ustar) 0 5
ustar-IsString = array_of-IsString (b'u' ∷ b's' ∷ b't' ∷ b'a' ∷ b'r' ∷ []) (omega arith)

version-IsString : IsString (array_of version_text) 0 2
version-IsString = array_of-IsString (b'0' ∷ b'0' ∷ []) (omega arith)

module _ (f : File) (w : IsFile f) (off : ℕ) (m : Memory) where
  abbrev n : ℕ
  n = w.name_length

  abbrev blank : Memory
  blank = memset m off 0 header_size

  abbrev with_name : Memory
  with_name = copy blank off f.name 0 (n + 1)

  abbrev with_mode : Memory
  with_mode = copy with_name (off + at_mode) (array_of mode_text) 0 7

  abbrev with_magic : Memory
  with_magic = copy with_mode (off + at_magic) (array_of ustar) 0 6

  abbrev with_version : Memory
  with_version = copy with_magic (off + at_version) (array_of version_text) 0 3

  texts : write_texts f off m ≡ store8 with_version (off + at_type) b'0'
  unfolding write_texts
  texts =
      ap
        (λ k.
          store8
            (strcpy 3
              (strcpy 6 (strcpy 7 k (off + at_mode) (array_of mode_text) 0) (off + at_magic)
                (array_of ustar) 0)
              (off + at_version) (array_of version_text) 0)
            (off + at_type) b'0')
        (strcpy-copy name_size blank off f.name 0 n w.named w.name_fits)
      ∙ ap
          (λ k.
            store8
              (strcpy 3 (strcpy 6 k (off + at_magic) (array_of ustar) 0) (off + at_version)
                (array_of version_text) 0)
              (off + at_type) b'0')
          (strcpy-copy 7 with_name (off + at_mode) (array_of mode_text) 0 6 mode-IsString
            (omega arith))
      ∙ ap
          (λ k.
            store8 (strcpy 3 k (off + at_version) (array_of version_text) 0) (off + at_type) b'0')
          (strcpy-copy 6 with_mode (off + at_magic) (array_of ustar) 0 5 ustar-IsString
            (omega arith))
      ∙ ap (λ k. store8 k (off + at_type) b'0')
          (strcpy-copy 3 with_magic (off + at_version) (array_of version_text) 0 2 version-IsString
            (omega arith))

  text_at : (x : ℕ) → write_texts f off m x ≡ store8 with_version (off + at_type) b'0' x
  text_at x = ap (λ k. k x) texts

  name_at :
      (x : ℕ) → with_name x ≡ (if in_block off (n + 1) x then f.name (0 + (x - off)) else blank x)
  name_at x = copy_lem blank off f.name 0 (n + 1) x

  mode_at :
      (x : ℕ)
      → with_mode x ≡ (
          if in_block (off + at_mode) 7 x
          then (array_of mode_text) (0 + (x - (off + at_mode)))
          else with_name x)
  mode_at x = copy_lem with_name (off + at_mode) (array_of mode_text) 0 7 x

  magic_at :
      (x : ℕ)
      → with_magic x ≡ (
          if in_block (off + at_magic) 6 x
          then (array_of ustar) (0 + (x - (off + at_magic)))
          else with_mode x)
  magic_at x = copy_lem with_mode (off + at_magic) (array_of ustar) 0 6 x

  version_at :
      (x : ℕ)
      → with_version x ≡ (
          if in_block (off + at_version) 3 x
          then (array_of version_text) (0 + (x - (off + at_version)))
          else with_magic x)
  version_at x = copy_lem with_magic (off + at_version) (array_of version_text) 0 3 x

  pub texts_elsewhere : (x : ℕ) → (x < off) ⊎ (off + header_size ≤ x) → write_texts f off m x ≡ m x
  texts_elsewhere x out =
      text_at x
      ∙ ground (
        arith,
        version_at x,
        magic_at x,
        mode_at x,
        name_at x,
        w.name_fits,
        memset_lem m off 0 header_size x,
      )

  pub texts_name : (i : ℕ) → i ≤ n → write_texts f off m (off + i) ≡ f.name i
  texts_name i le =
      text_at (off + i)
      ∙ ground (arith, version_at (off + i), magic_at (off + i), mode_at (off + i), w.name_fits)
      ∙ name_at (off + i)
      ∙ ground (arith, ap f.name (let z : 0 + (off + i - off) ≡ i = omega arith in z))

  pub texts_magic : (i : ℕ) → i < 6 → write_texts f off m (off + at_magic + i) ≡ array_of ustar i
  texts_magic i lt =
      text_at (off + at_magic + i)
      ∙ ground (arith, version_at (off + at_magic + i))
      ∙ magic_at (off + at_magic + i)
      ∙ ground (
        arith,
        ap (array_of ustar)
            (let z : 0 + (off + at_magic + i - (off + at_magic)) ≡ i = omega arith in z),
      )

  pub texts_checksum :
      (x : ℕ) → off + at_checksum ≤ x → x < off + at_type → write_texts f off m x ≡ 0
  texts_checksum x above below =
      text_at x
      ∙ ground (
        arith,
        version_at x,
        magic_at x,
        mode_at x,
        name_at x,
        w.name_fits,
        memset_lem m off 0 header_size x,
      )

  pub texts_small : (x : ℕ) → off ≤ x → x < off + header_size → write_texts f off m x < 256
  texts_small x above below = ground (
    arith,
    text_at x,
    version_at x,
    magic_at x,
    mode_at x,
    name_at x,
    w.name_bytes (0 + (x - off)),
    array_of-IsBytes mode_text (omega arith) (0 + (x - (off + at_mode))),
    array_of-IsBytes ustar (omega arith) (0 + (x - (off + at_magic))),
    array_of-IsBytes version_text (omega arith) (0 + (x - (off + at_version))),
    memset_lem m off 0 header_size x,
  )
