-- ===== src/Blk/Request.antt =====
-- kernel/virtio_blk.c: the request as the device finds it.
use risc_v_os.Base.{
  ℕ, ◌+◌, ◌*◌, ◌%◌, ◌<◌, ◌≤◌, ◌≡◌, refl, ap, ◌∙◌, Bool, true, false, if◌then◌else◌, List, [], ◌∷◌,
  ◌++◌, arith, get_or, set, length, All, get_or-set_self, length-set,
}
use risc_v_os.Base.Word.{u16}
use risc_v_os.Memory.{Memory, copy}
use risc_v_os.Virtio.{VirtqDesc, virtq_entry_num, virtq_kick, virtq_push}
use risc_v_os.Blk.{
  Blk, BlkRound, Device, submit, described, no_desc, desc_f_next, desc_f_write, blk_sector_size,
  blk_type_in, blk_type_out,
}
use risc_v_os.Blk.Interrupt.{IsQuiet, IsFinal, IsIdle}

-- What stands in the queue and in the buffer: a chain of three descriptors, over the header, the data
-- and the status; the data are the device's to write exactly for a read; and the chain is offered.
pub record IsRequest (sector : ℕ) (is_write : Bool) (b : Blk) : Type 0 where
  pub header_desc :
      get_or b.request_vq.descs 0 no_desc
      ≡ record { addr = b.request_paddr; len = 16; flags = desc_f_next; next = 1 }
  pub data_desc : get_or b.request_vq.descs 1 no_desc ≡ record {
    addr = b.request_paddr + 16;
    len = blk_sector_size;
    flags = if is_write then desc_f_next else desc_f_next + desc_f_write;
    next = 2;
  }
  pub status_addr : (get_or b.request_vq.descs 2 no_desc).addr ≡ b.request_paddr + 528
  pub status_len : (get_or b.request_vq.descs 2 no_desc).len ≡ 1
  pub status_flags : (get_or b.request_vq.descs 2 no_desc).flags ≡ desc_f_write
  pub offered :
      (last : ℕ) × (b.request_vq.avail_index ≡ u16 (last + 1))
      × (get_or b.request_vq.avail_ring (last % virtq_entry_num) 1 ≡ 0)
  pub kind : b.request_type ≡ (if is_write then blk_type_out else blk_type_in)
  pub at_sector : b.request_sector ≡ sector

first_three :
    (ds : List VirtqDesc) (a b c : VirtqDesc)
    → 3 ≤ length ds
    → let set_all = set (set (set ds 0 a) 1 b) 2 c in
      (get_or set_all 0 no_desc ≡ a)
      × (get_or set_all 1 no_desc ≡ b)
      × (get_or set_all 2 no_desc ≡ c)
first_three [] a b c long = absurd (omega arith)
first_three (x ∷ []) a b c long = absurd (omega arith)
first_three (x ∷ y ∷ []) a b c long = absurd (omega arith)
first_three (x ∷ y ∷ z ∷ ds) a b c long = (refl, refl, refl)

pub length-described :
    (is_write : Bool) (paddr : ℕ) (ds : List VirtqDesc)
    → length (described is_write paddr ds) ≡ length ds
unfolding described
length-described is_write paddr ds = length-set _ 2 _ ∙ length-set _ 1 _ ∙ length-set ds 0 _

pub submit-IsRequest :
    (buf : Memory) (at sector : ℕ) (is_write : Bool) (b : Blk)
    → length b.request_vq.descs ≡ virtq_entry_num
    → length b.request_vq.avail_ring ≡ virtq_entry_num
    → IsRequest sector is_write (submit buf at sector is_write b)
unfolding submit described virtq_kick virtq_push
submit-IsRequest buf at sector is_write b long ring =
    let (header, body, status) =
      first_three b.request_vq.descs
        (record { addr = b.request_paddr; len = 16; flags = desc_f_next; next = 1 })
        (record {
          addr = b.request_paddr + 16;
          len = blk_sector_size;
          flags = if is_write then desc_f_next else desc_f_next + desc_f_write;
          next = 2;
        })
        (record (get_or b.request_vq.descs 2 no_desc) {
          addr = b.request_paddr + 528;
          len = 1;
          flags = desc_f_write;
        })
        (omega (arith, long)) in
    record {
      header_desc = header;
      data_desc = body;
      status_addr = ap (λ (d : VirtqDesc). d.addr) status;
      status_len = ap (λ (d : VirtqDesc). d.len) status;
      status_flags = ap (λ (d : VirtqDesc). d.flags) status;
      offered = (
        b.request_vq.avail_index,
        refl,
        get_or-set_self b.request_vq.avail_ring (b.request_vq.avail_index % virtq_entry_num) 0 1
            (omega (arith, ring)),
      );
      kind = refl;
      at_sector = refl;
    }

-- The rounds end with the one that completes the request, with status zero.
pub record Serves (index : ℕ) (rounds : List BlkRound) : Type 0 where
  pub quiet : List BlkRound
  pub last : BlkRound
  pub all_rounds : rounds ≡ quiet ++ (last ∷ [])
  pub all_quiet : All (IsQuiet index) quiet
  pub final : IsFinal index last
  pub succeeds : last.request_status ≡ 0

-- What a virtio block device of at least `limit` sectors does with a request.
pub record IsDevice (device : Device) (limit : ℕ) : Type 0 where
  pub reads :
      (sector index : ℕ) (b : Blk) (m : Memory)
      → IsRequest sector false b
      → sector < limit
      → IsIdle index b.request_vq
      → (s : Serves index (device b m).0) × ((x : ℕ) → (device b m).1 x ≡ m x)
        × ((i : ℕ) → i < blk_sector_size → s.last.sector_data i ≡ m (sector * blk_sector_size + i))
  pub writes :
      (sector index : ℕ) (b : Blk) (m : Memory)
      → IsRequest sector true b
      → sector < limit
      → IsIdle index b.request_vq
      → Serves index (device b m).0
        × ((x : ℕ)
            → (device b m).1 x
              ≡ copy m (sector * blk_sector_size) b.sector_data 0 blk_sector_size x)
