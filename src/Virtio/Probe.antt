-- ===== src/Virtio/Probe.antt =====
-- kernel/virtio.c: which device `virtio_find_device` finds.
use risc_v_os.Base.{
  ℕ, suc, zero, ◌+◌, ◌*◌, ◌<◌, ◌≡◌, subst, Option, none, some, arith, true, false, Bool-cases, inl,
  inr,
}
use risc_v_os.Virtio.{virtio_probe, find_device_from, virtio_find_device}

module _ (read32 : ℕ → ℕ) (device_id : ℕ) where
  -- A legacy virtio device with the identifier answers at the base.
  abbrev pub Answers : ℕ → Type 0
  Answers base =
      (read32 base ≡ 0x74726976) × (read32 (base + 0x04) ≡ 1) × (read32 (base + 0x08) ≡ device_id)

  -- The first of `rounds` bases from `base` on at which the device answers, or that none does.
  abbrev pub Finds : ℕ → ℕ → Option ℕ → Type 0
  Finds rounds base none = (i : ℕ) → i < rounds → ¬ Answers (base + i * 0x1000)
  Finds rounds base (some found) =
      (n : ℕ) × (n < rounds)
      × (found ≡ base + n * 0x1000)
      × Answers found
      × ((i : ℕ) → i < n → ¬ Answers (base + i * 0x1000))

  virtio_probe-true : (base : ℕ) → virtio_probe read32 base device_id ≡ true → Answers base
  unfolding virtio_probe
  virtio_probe-true base h = ground arith

  virtio_probe-false : (base : ℕ) → virtio_probe read32 base device_id ≡ false → ¬ Answers base
  unfolding virtio_probe
  virtio_probe-false base h a = ground arith

  absent_at : (b c : ℕ) → b ≡ c → ¬ Answers b → ¬ Answers c
  absent_at b c e h = subst (λ x. ¬ Answers x) e h

  Finds-next :
      (rounds base : ℕ) (o : Option ℕ)
      → ¬ Answers base
      → Finds rounds (base + 0x1000) o
      → Finds (suc rounds) base o
  Finds-next rounds base none no_first rest = every
    where
      every : (i : ℕ) → i < suc rounds → ¬ Answers (base + i * 0x1000)
      every zero lt = absent_at base (base + 0 * 0x1000) (omega arith) no_first
      every (suc i) lt =
          absent_at (base + 0x1000 + i * 0x1000) (base + suc i * 0x1000) (omega arith)
            (rest i (omega arith))
  Finds-next rounds base (some found) no_first (n, lt, at, a, before) =
      (suc n, omega arith, omega arith, a, every)
    where
      every : (i : ℕ) → i < suc n → ¬ Answers (base + i * 0x1000)
      every zero lt = absent_at base (base + 0 * 0x1000) (omega arith) no_first
      every (suc i) lt =
          absent_at (base + 0x1000 + i * 0x1000) (base + suc i * 0x1000) (omega arith)
            (before i (omega arith))

  find_device_from-Finds :
      (rounds base : ℕ) → Finds rounds base (find_device_from read32 rounds base device_id)
  unfolding find_device_from
  find_device_from-Finds zero base = λ i lt. absurd (omega arith)
  find_device_from-Finds (suc rounds) base =
      elim (Bool-cases (virtio_probe read32 base device_id)) [
        | inl here ↦
            rw here (
              0,
              omega arith,
              omega arith,
              virtio_probe-true base here,
              λ i lt. absurd (omega arith),
            )
        | inr absent ↦ rw absent (
            Finds-next rounds base _ (virtio_probe-false base absent)
              (find_device_from-Finds rounds (base + 0x1000)))
      ]

  -- `virtio_find_device` tries the eight bases in order: it finds the first at which a legacy device
  -- with the identifier answers, and fails only where none does.
  pub virtio_find_device-Finds : Finds 8 0x1000_1000 (virtio_find_device read32 device_id)
  unfolding virtio_find_device
  virtio_find_device-Finds = find_device_from-Finds 8 0x1000_1000
