-- ===== src/Memory/Strings.antt =====
-- `memcpy` of kernel/common.c between two arrays, and its string routines.
use risc_v_os.Base.{
  ℕ, zero, suc, ◌+◌, ◌-◌, ◌<◌, ◌≡◌, ◌≢◌, ◌∙◌, refl, sym, ap, Bool, true, ◌&&◌, not, arith, ◌==◌,
  ==-ne, if◌then◌else◌, List, [], ◌∷◌, ◌++◌, All, All-get_or, length, get_or, Bool-cases, inl, inr,
  subst,
}
use risc_v_os.Base.Word.{sub32}
use risc_v_os.Memory.Blocks.{Memory, store8, in_block}

-- The bytes of a list as an array, with zeros after them.
abbrev pub array_of : List ℕ → Memory
array_of bytes x = get_or bytes x 0

-- `while (n--) *d++ = *s++;` where source and target are different objects.
unfoldable pub copy : Memory → ℕ → Memory → ℕ → ℕ → Memory
copy target d source s zero = target
copy target d source s (suc n) = copy (store8 target d (source s)) (d + 1) source (s + 1) n

-- The loop of `strcpy`, for at most `fuel` bytes.
unfoldable pub strcpy : ℕ → Memory → ℕ → Memory → ℕ → Memory
strcpy zero target d source s = target
strcpy (suc fuel) target d source s =
    let rest = strcpy fuel (store8 target d (source s)) (d + 1) source (s + 1) in
    if source s == 0 then store8 target d 0 else rest

-- The loop of `strcmp`, for at most `fuel` bytes.
unfoldable pub strcmp : ℕ → Memory → ℕ → Memory → ℕ → ℕ
strcmp zero m1 s1 m2 s2 = sub32 (m1 s1) (m2 s2)
strcmp (suc fuel) m1 s1 m2 s2 =
    let rest = strcmp fuel m1 (s1 + 1) m2 (s2 + 1) in
    if not (m1 s1 == 0) && not (m2 s2 == 0) && m1 s1 == m2 s2 then rest else sub32 (m1 s1) (m2 s2)

-- A string of `n` bytes before its zero.
pub record IsString (m : Memory) (s n : ℕ) : Type 0 where
  pub text : (i : ℕ) → i < n → m (s + i) ≢ 0
  pub ends : m (s + n) ≡ 0

pub copy_lem :
    (target : Memory) (d : ℕ) (source : Memory) (s n x : ℕ)
    → copy target d source s n x ≡ (if in_block d n x then source (s + (x - d)) else target x)
unfolding copy
copy_lem target d source s zero x = ground arith
copy_lem target d source s (suc n) x =
    ground (arith, copy_lem (store8 target d (source s)) (d + 1) source (s + 1) n x)

-- Bytes that pass through a buffer.
pub copy-copy :
    (target : Memory) (d : ℕ) (buffer source : Memory) (s n x : ℕ)
    → copy target d (copy buffer 0 source s n) 0 n x ≡ copy target d source s n x
copy-copy target d buffer source s n x =
    copy_lem target d (copy buffer 0 source s n) 0 n x
    ∙ ground (
      arith,
      copy_lem buffer 0 source s n (0 + (x - d)),
      ap source (let z : s + (0 + (x - d) - 0) ≡ s + (x - d) = omega arith in z),
      copy_lem target d source s n x,
    )

IsString-next : (m : Memory) (s n : ℕ) → IsString m s (suc n) → IsString m (s + 1) n
IsString-next m s n t = record {
  text = λ i lt.
      subst (λ a. m a ≢ 0) (let z : s + suc i ≡ s + 1 + i = omega arith in z)
        (t.text (suc i) (omega arith));
  ends = ap m (let z : s + 1 + n ≡ s + suc n = omega arith in z) ∙ t.ends;
}

first_byte : (m : Memory) (s n : ℕ) → IsString m s (suc n) → m s ≢ 0
first_byte m s n t =
    subst (λ a. m a ≢ 0) (let z : s + 0 ≡ s = omega arith in z) (t.text 0 (omega arith))

-- `strcpy` copies a string with its zero, where it is given that many rounds.
pub strcpy-copy :
    (fuel : ℕ) (target : Memory) (d : ℕ) (source : Memory) (s n : ℕ)
    → IsString source s n
    → n < fuel
    → strcpy fuel target d source s ≡ copy target d source s (n + 1)
unfolding strcpy copy
strcpy-copy zero target d source s n t lt = absurd (omega arith)
strcpy-copy (suc fuel) target d source s zero t lt =
    let nul : source s ≡ 0 = ap source (let z : s ≡ s + 0 = omega arith in z) ∙ t.ends in
    ap
      (λ v.
        if v == 0
        then store8 target d 0
        else strcpy fuel (store8 target d (source s)) (d + 1) source (s + 1))
      nul
    ∙ ap (store8 target d) (sym nul)
strcpy-copy (suc fuel) target d source s (suc n) t lt =
    ap
      (λ b.
        if b
        then store8 target d 0
        else strcpy fuel (store8 target d (source s)) (d + 1) source (s + 1))
      (==-ne (source s) 0 (first_byte source s n t))
    ∙ strcpy-copy fuel (store8 target d (source s)) (d + 1) source (s + 1) n
        (IsString-next source s n t) (omega arith)
    ∙ ap (λ k. copy target d source s k) (let z : suc (n + 1) ≡ suc n + 1 = omega arith in z)

-- A text written out is a string.
pub array_of-IsString :
    (bytes : List ℕ)
    → All (λ b. b ≢ 0) bytes
    → IsString (array_of (bytes ++ (0 ∷ []))) 0 (length bytes)
array_of-IsString bytes all = record {
  text = λ i lt.
      subst (λ k. get_or (bytes ++ (0 ∷ [])) k 0 ≢ 0) (let z : i ≡ 0 + i = omega arith in z)
        (text_of bytes i all lt);
  ends =
      ap (λ k. get_or (bytes ++ (0 ∷ [])) k 0)
        (let z : 0 + length bytes ≡ length bytes = omega arith in z)
      ∙ end_of bytes;
}
  where
    text_of :
        (bytes : List ℕ) (i : ℕ)
        → All (λ b. b ≢ 0) bytes
        → i < length bytes
        → get_or (bytes ++ (0 ∷ [])) i 0 ≢ 0
    text_of [] i all lt = absurd (omega arith)
    text_of (b ∷ bytes) zero all lt = all.0
    text_of (b ∷ bytes) (suc i) all lt = text_of bytes i all.1 (omega arith)

    end_of : (bytes : List ℕ) → get_or (bytes ++ (0 ∷ [])) (length bytes) 0 ≡ 0
    end_of [] = refl
    end_of (b ∷ bytes) = end_of bytes

-- The two texts are the same.
pub record SameText (m1 : Memory) (s1 n1 : ℕ) (m2 : Memory) (s2 n2 : ℕ) : Type 0 where
  pub same_length : n1 ≡ n2
  pub same_bytes : (i : ℕ) → i < n1 → m1 (s1 + i) ≡ m2 (s2 + i)

-- Every element is a byte.
abbrev pub IsBytes : Memory → Type 0
IsBytes m = (x : ℕ) → m x < 256

pub array_of-IsBytes : (bytes : List ℕ) → All (λ b. b < 256) bytes → IsBytes (array_of bytes)
array_of-IsBytes bytes all x = All-get_or (λ b. b < 256) bytes x 0 all (omega arith)

SameText-cons :
    (m1 : Memory) (s1 n1 : ℕ) (m2 : Memory) (s2 n2 : ℕ)
    → m1 s1 ≡ m2 s2
    → SameText m1 (s1 + 1) n1 m2 (s2 + 1) n2
    → SameText m1 s1 (suc n1) m2 s2 (suc n2)
SameText-cons m1 s1 n1 m2 s2 n2 e t = record { same_length = ap suc t.same_length; same_bytes = go }
  where
    go : (i : ℕ) → i < suc n1 → m1 (s1 + i) ≡ m2 (s2 + i)
    go zero lt =
        ap m1 (let z : s1 + 0 ≡ s1 = omega arith in z)
        ∙ e
        ∙ ap m2 (let z : s2 ≡ s2 + 0 = omega arith in z)
    go (suc i) lt =
        ap m1 (let z : s1 + suc i ≡ s1 + 1 + i = omega arith in z)
        ∙ t.same_bytes i (omega arith)
        ∙ ap m2 (let z : s2 + 1 + i ≡ s2 + suc i = omega arith in z)

SameText-tail :
    (m1 : Memory) (s1 n1 : ℕ) (m2 : Memory) (s2 n2 : ℕ)
    → SameText m1 s1 (suc n1) m2 s2 (suc n2)
    → SameText m1 (s1 + 1) n1 m2 (s2 + 1) n2
SameText-tail m1 s1 n1 m2 s2 n2 t = record {
  same_length = omega (arith, t.same_length);
  same_bytes = λ i lt.
      ap m1 (let z : s1 + 1 + i ≡ s1 + suc i = omega arith in z)
      ∙ t.same_bytes (suc i) (omega arith)
      ∙ ap m2 (let z : s2 + suc i ≡ s2 + 1 + i = omega arith in z);
}

nul_at : (m : Memory) (s : ℕ) → IsString m s 0 → m s ≡ 0
nul_at m s t = ap m (let z : s ≡ s + 0 = omega arith in z) ∙ t.ends

module _ (m1 m2 : Memory) where
  abbrev go_on : ℕ → ℕ → Bool
  go_on s1 s2 = not (m1 s1 == 0) && not (m2 s2 == 0) && m1 s1 == m2 s2

  differ : (s1 s2 : ℕ) → IsBytes m1 → IsBytes m2 → sub32 (m1 s1) (m2 s2) ≡ 0 → m1 s1 ≡ m2 s2
  differ s1 s2 b1 b2 e = omega (arith, b1 s1, b2 s2)

  -- With more rounds than the second text has bytes, `strcmp` answers zero exactly for the same text.
  pub strcmp→SameText :
      (fuel s1 n1 s2 n2 : ℕ)
      → IsBytes m1
      → IsBytes m2
      → IsString m1 s1 n1
      → IsString m2 s2 n2
      → n2 < fuel
      → strcmp fuel m1 s1 m2 s2 ≡ 0
      → SameText m1 s1 n1 m2 s2 n2
  unfolding strcmp
  strcmp→SameText zero s1 n1 s2 n2 b1 b2 t1 t2 lt e = absurd (omega arith)
  strcmp→SameText (suc fuel) s1 zero s2 zero b1 b2 t1 t2 lt e = record {
    same_length = refl;
    same_bytes = λ i under. absurd (omega arith);
  }
  strcmp→SameText (suc fuel) s1 (suc n1) s2 zero b1 b2 t1 t2 lt e =
      absurd (ground (arith, nul_at m2 s2 t2, first_byte m1 s1 n1 t1, b1 s1))
  strcmp→SameText (suc fuel) s1 zero s2 (suc n2) b1 b2 t1 t2 lt e =
      absurd (ground (arith, nul_at m1 s1 t1, first_byte m2 s2 n2 t2, b2 s2))
  strcmp→SameText (suc fuel) s1 (suc n1) s2 (suc n2) b1 b2 t1 t2 lt e =
      elim (Bool-cases (go_on s1 s2)) [
        | inl on ↦ SameText-cons m1 s1 n1 m2 s2 n2 (ground arith) (
            strcmp→SameText fuel (s1 + 1) n1 (s2 + 1) n2 b1 b2 (IsString-next m1 s1 n1 t1)
              (IsString-next m2 s2 n2 t2) (omega arith)
              (sym (
                  ap (λ b. if b then strcmp fuel m1 (s1 + 1) m2 (s2 + 1) else sub32 (m1 s1) (m2 s2))
                    on)
                ∙ e))
        | inr stop ↦
            let same = differ s1 s2 b1 b2 (
              sym (
                ap (λ b. if b then strcmp fuel m1 (s1 + 1) m2 (s2 + 1) else sub32 (m1 s1) (m2 s2))
                  stop)
              ∙ e) in
            absurd (ground (arith, first_byte m1 s1 n1 t1, first_byte m2 s2 n2 t2))
      ]

  pub SameText→strcmp :
      (fuel s1 n1 s2 n2 : ℕ)
      → IsString m1 s1 n1
      → IsString m2 s2 n2
      → n2 < fuel
      → SameText m1 s1 n1 m2 s2 n2
      → strcmp fuel m1 s1 m2 s2 ≡ 0
  unfolding strcmp
  SameText→strcmp zero s1 n1 s2 n2 t1 t2 lt same = absurd (omega arith)
  SameText→strcmp (suc fuel) s1 zero s2 zero t1 t2 lt same =
      ground (arith, nul_at m1 s1 t1, nul_at m2 s2 t2)
  SameText→strcmp (suc fuel) s1 (suc n1) s2 zero t1 t2 lt same =
      absurd (omega (arith, same.same_length))
  SameText→strcmp (suc fuel) s1 zero s2 (suc n2) t1 t2 lt same =
      absurd (omega (arith, same.same_length))
  SameText→strcmp (suc fuel) s1 (suc n1) s2 (suc n2) t1 t2 lt same =
      let first : m1 s1 ≡ m2 s2 =
        ap m1 (let z : s1 ≡ s1 + 0 = omega arith in z)
        ∙ same.same_bytes 0 (omega arith)
        ∙ ap m2 (let z : s2 + 0 ≡ s2 = omega arith in z) in
      ap (λ b. if b then strcmp fuel m1 (s1 + 1) m2 (s2 + 1) else sub32 (m1 s1) (m2 s2))
        (let z : go_on s1 s2 ≡ true = ground (arith, first_byte m1 s1 n1 t1) in z)
      ∙ SameText→strcmp fuel (s1 + 1) n1 (s2 + 1) n2 (IsString-next m1 s1 n1 t1)
          (IsString-next m2 s2 n2 t2) (omega arith) (SameText-tail m1 s1 n1 m2 s2 n2 same)
