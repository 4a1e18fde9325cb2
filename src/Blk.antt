-- ===== src/Blk.antt =====
-- kernel/virtio_blk.c: the block driver, over one virtqueue and one request buffer.
pub mod Interrupt
pub mod Request
pub mod Transfer
pub mod Archive
mod Tests
use Prim.Native.Nat.{bit_and}
use risc_v_os.Base.{
  ℕ, suc, zero, ◌+◌, ◌*◌, ◌/◌, ◌^◌, Bool, true, false, not, ◌||◌, Option, none, some, List, [], ◌∷◌,
  ◌==◌, leb, if◌then◌else◌, get_or, set,
}
use risc_v_os.Base.Word.{u16}
use risc_v_os.Memory.{Memory, copy}
use risc_v_os.Virtio.{Virtq, VirtqDesc, VirtqUsedElem, RegWrites, virtq_kick, virtq_pop_used}
use risc_v_os.Virtio.Used.{backlog}

abbrev pub blk_sector_size : ℕ
blk_sector_size = 512

-- The statics of the driver: `data` of the request is `sector_data`.
pub record Blk : Type 0 where
  pub request_vq : Virtq
  pub request_paddr : ℕ
  pub request_type : ℕ
  pub request_sector : ℕ
  pub sector_data : Memory
  pub request_status : ℕ
  pub capacity : ℕ
  pub done : Bool
  pub reg_writes : RegWrites

abbrev pub blk_type_in : ℕ
blk_type_in = 0

abbrev pub blk_type_out : ℕ
blk_type_out = 1

abbrev pub desc_f_next : ℕ
desc_f_next = 1

abbrev pub desc_f_write : ℕ
desc_f_write = 2

-- `while (virtq_pop_used(blk_request_vq, &used)) completed = true;`
unfoldable pub pop_all : ℕ → Bool → Virtq → Bool × Virtq
pop_all zero completed vq = (completed, vq)
pop_all (suc fuel) completed vq = elim (virtq_pop_used vq) [
  | none ↦ (completed, vq)
  | some (used, popped) ↦ pop_all fuel true popped
]

-- The handler, with the interrupt status that it reads from the device.
unfoldable pub virtio_blk_irq : ℕ → Blk → Blk
virtio_blk_irq status b =
    let acked = record b {
      reg_writes = if status == 0 then b.reg_writes else (0x64, status) ∷ b.reg_writes;
    } in
    let popped = pop_all (suc (backlog acked.request_vq)) false acked.request_vq in
    if bit_and status 1 == 0
    then acked
    else record acked { request_vq = popped.1; done = acked.done || popped.0 }

abbrev pub no_desc : VirtqDesc
no_desc = record { addr = 0; len = 0; flags = 0; next = 0 }

-- The three descriptors: the request's header, its data and its status.
unfoldable pub described : Bool → ℕ → List VirtqDesc → List VirtqDesc
described is_write paddr descs =
    set
      (set (set descs 0 (record { addr = paddr; len = 16; flags = desc_f_next; next = 1 })) 1
        (record {
          addr = paddr + 16;
          len = blk_sector_size;
          flags = if is_write then desc_f_next else desc_f_next + desc_f_write;
          next = 2;
        }))
      2 (record (get_or descs 2 no_desc) { addr = paddr + 528; len = 1; flags = desc_f_write })

-- The request as it is handed to the device.
unfoldable pub submit : Memory → ℕ → ℕ → Bool → Blk → Blk
submit buf at sector is_write b =
    let filled = record b {
      request_sector = sector;
      request_type = if is_write then blk_type_out else blk_type_in;
      sector_data = if is_write then copy b.sector_data 0 buf at blk_sector_size else b.sector_data;
      request_vq = record b.request_vq {
        descs = described is_write b.request_paddr b.request_vq.descs;
      };
      done = false;
    } in
    let (vq, w) = virtq_kick 0 filled.request_vq filled.reg_writes in
    record filled { request_vq = vq; reg_writes = w }

-- What the device has written by the time of an interrupt.
pub record BlkRound : Type 0 where
  pub status : ℕ
  pub used_ring : List VirtqUsedElem
  pub used_index : ℕ
  pub sector_data : Memory
  pub request_status : ℕ

abbrev pub device_writes : BlkRound → Blk → Blk
device_writes r b = record b {
  request_vq = record b.request_vq { used_ring = r.used_ring; used_index = u16 r.used_index };
  sector_data = r.sector_data;
  request_status = r.request_status;
}

abbrev pub interrupt : BlkRound → Blk → Blk
interrupt r b = virtio_blk_irq r.status (device_writes r b)

-- The loop of `wait_for_interrupt(&blk_done)`; `none` where the last round is over and it still waits.
unfoldable pub wait_for_done : List BlkRound → Blk → Option Blk
wait_for_done [] b = if b.done then some b else none
wait_for_done (r ∷ rs) b =
    let rest = wait_for_done rs (interrupt r b) in if b.done then some b else rest

-- The driver, and the device's disk.
pub record BlkState : Type 0 where
  pub driver : Blk
  pub medium : Memory

-- The device: what it does while the driver waits for a request, and its disk after it.
abbrev pub Device : Type 0
Device = Blk → Memory → List BlkRound × Memory

-- The end of `read_write_disk`, after the wait.
unfoldable pub finish : Memory → ℕ → Bool → Memory → Option Blk → Option (BlkState × Memory)
finish buf at is_write medium none = none
finish buf at is_write medium (some b) =
    let state : BlkState = record { driver = b; medium = medium } in
    if not (b.request_status == 0)
    then some (state, buf)
    else if is_write
    then some (state, buf)
    else some (state, copy buf at b.sector_data 0 blk_sector_size)

-- `buf` is the array that the pointer leads into, and `at` the offset.
unfoldable pub read_write_disk :
    Device → Memory → ℕ → ℕ → Bool → BlkState → Option (BlkState × Memory)
read_write_disk device buf at sector is_write s =
    let asked = submit buf at sector is_write s.driver in
    let (rounds, medium) = device asked s.medium in
    if leb (s.driver.capacity / blk_sector_size) sector
    then some (s, buf)
    else finish buf at is_write medium (wait_for_done rounds asked)
