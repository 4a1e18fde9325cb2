-- ===== src/Virtio.antt =====
-- kernel/virtio.c: virtqueues, and the search for a device. A queue's record holds the memory that
-- driver and device share; `used_index` and `used_ring` are the device's to write.
pub mod Used
pub mod Avail
pub mod Pop
pub mod Probe
mod Tests
use risc_v_os.Base.{
  ℕ, suc, zero, ◌+◌, ◌-◌, ◌*◌, ◌%◌, ◌^◌, Bool, true, false, not, ◌&&◌, Option, none, some, List, [],
  ◌∷◌, ◌==◌, if◌then◌else◌, get_or, set, replicate,
}
use risc_v_os.Base.Word.{u16, u32}

abbrev pub virtq_entry_num : ℕ
virtq_entry_num = 16

pub record VirtqDesc : Type 0 where
  pub addr : ℕ
  pub len : ℕ
  pub flags : ℕ
  pub next : ℕ

pub record VirtqUsedElem : Type 0 where
  pub id : ℕ
  pub len : ℕ

pub record Virtq : Type 0 where
  pub descs : List VirtqDesc
  pub avail_index : ℕ
  pub avail_ring : List ℕ
  pub used_index : ℕ
  pub used_ring : List VirtqUsedElem
  pub queue_index : ℕ
  pub submitted_index : ℕ
  pub consumed_used_index : ℕ

abbrev pub no_elem : VirtqUsedElem
no_elem = record { id = 0; len = 0 }

-- The queue as `virtq_init` leaves its fresh, zeroed pages.
unfoldable pub fresh_virtq : ℕ → Virtq
fresh_virtq index = record {
  descs = replicate virtq_entry_num (record { addr = 0; len = 0; flags = 0; next = 0 });
  avail_index = 0;
  avail_ring = replicate virtq_entry_num 0;
  used_index = 0;
  used_ring = replicate virtq_entry_num no_elem;
  queue_index = index;
  submitted_index = 0;
  consumed_used_index = 0;
}

unfoldable pub virtq_push : ℕ → Virtq → Virtq
virtq_push desc_index vq = record vq {
  avail_ring = set vq.avail_ring (vq.avail_index % virtq_entry_num) (u16 desc_index);
  avail_index = u16 (vq.avail_index + 1);
}

-- Writes to device registers, latest first: an offset and a value.
abbrev pub RegWrites : Type 0
RegWrites = List (ℕ × ℕ)

abbrev pub reg_queue_notify : ℕ
reg_queue_notify = 0x50

unfoldable pub virtq_notify : Virtq → RegWrites → RegWrites
virtq_notify vq w = (reg_queue_notify, vq.queue_index) ∷ w

unfoldable pub virtq_kick : ℕ → Virtq → RegWrites → Virtq × RegWrites
virtq_kick desc_index vq w =
    let pushed = virtq_push desc_index vq in
    let counted = record pushed { submitted_index = u16 (pushed.submitted_index + 1) } in
    (counted, virtq_notify counted w)

-- `none` where the function returns false and leaves `*elem` alone.
unfoldable pub virtq_pop_used : Virtq → Option (VirtqUsedElem × Virtq)
virtq_pop_used vq =
    if vq.consumed_used_index == vq.used_index
    then none
    else some (
      get_or vq.used_ring (vq.consumed_used_index % virtq_entry_num) no_elem,
      record vq { consumed_used_index = u16 (vq.consumed_used_index + 1) },
    )

unfoldable pub virtq_is_busy : Virtq → Bool
virtq_is_busy vq = not (vq.consumed_used_index == vq.submitted_index)

-- The device's registers: what a read at an address gives.
module _ (read32 : ℕ → ℕ) where
  -- Whether the device at `base` is the one looked for, and what `dev` then holds.
  unfoldable pub virtio_probe : ℕ → ℕ → Bool
  virtio_probe base device_id =
      if not (read32 base == 0x74726976)
      then false
      else if not (read32 (base + 0x04) == 1)
      then false
      else read32 (base + 0x08) == device_id

  -- The loop of `virtio_find_device` from `base` on, with `rounds` bases left.
  unfoldable pub find_device_from : ℕ → ℕ → ℕ → Option ℕ
  find_device_from zero base device_id = none
  find_device_from (suc rounds) base device_id =
      let rest = find_device_from rounds (base + 0x1000) device_id in
      if virtio_probe base device_id then some base else rest

  -- The eight bases from 0x10001000 to 0x10008000; `none` where no device answers.
  unfoldable pub virtio_find_device : ℕ → Option ℕ
  virtio_find_device device_id = find_device_from 8 0x1000_1000 device_id
