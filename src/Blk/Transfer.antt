-- ===== src/Blk/Transfer.antt =====
-- kernel/virtio_blk.c: `read_write_disk` as the disk that the file system relies on.
use risc_v_os.Base.{
  ℕ, ◌+◌, ◌-◌, ◌*◌, ◌/◌, ◌<◌, ◌≤◌, ◌≡◌, refl, ap, ◌∙◌, Bool, true, false, not, if◌then◌else◌, arith,
  leb, ◌==◌, length, length-set, some,
}
use risc_v_os.Base.Word.{u16}
use risc_v_os.Memory.{Memory, copy, copy_lem, copy-copy}
use risc_v_os.Virtio.{virtq_entry_num, virtq_kick, virtq_push}
use risc_v_os.Files.{Disk, sectors}
use risc_v_os.Files.Sectors.{IsSectorStore}
use risc_v_os.Blk.{
  Blk, BlkState, Device, submit, blk_sector_size, wait_for_done, finish, read_write_disk,
}
use risc_v_os.Blk.Interrupt.{IsIdle, wait_for_done_lem}
use risc_v_os.Blk.Request.{IsRequest, submit-IsRequest, length-described, Serves, IsDevice}

-- The driver between two requests: its queue whole and with no completion waiting, and a capacity
-- that covers the sectors of the file system.
pub record IsUp (s : BlkState) : Type 0 where
  pub index : ℕ
  pub idle : IsIdle index s.driver.request_vq
  pub descs_whole : length s.driver.request_vq.descs ≡ virtq_entry_num
  pub avail_whole : length s.driver.request_vq.avail_ring ≡ virtq_entry_num
  pub covers : sectors ≤ s.driver.capacity / blk_sector_size

abbrev pub blk_disk : Device → Disk BlkState
blk_disk device = record { read_write_disk = read_write_disk device }

module _ (device : Device) (limit : ℕ) (d : IsDevice device limit) (buf : Memory) (at sector : ℕ)
    (is_write : Bool) (s : BlkState) (up : IsUp s) (inside : sector < sectors)
    (within : sectors ≤ limit) where
  abbrev asked : Blk
  asked = submit buf at sector is_write s.driver

  asked-IsIdle : IsIdle up.index asked.request_vq
  unfolding submit virtq_kick virtq_push
  asked-IsIdle = record { used = up.idle.used; consumed = up.idle.consumed; word = up.idle.word }

  asked-IsRequest : IsRequest sector is_write asked
  asked-IsRequest = submit-IsRequest buf at sector is_write s.driver up.descs_whole up.avail_whole

  waits : asked.done ≡ false
  unfolding submit
  waits = refl

  abbrev medium : Memory
  medium = (device asked s.medium).1

  -- The request is served: the driver is up again, with what the last round left.
  served :
      (v : Serves up.index (device asked s.medium).0)
      → (c : Blk) × (read_write_disk device buf at sector is_write s ≡ (
          if is_write
          then some (record { driver = c; medium = medium }, buf)
          else some (
            record { driver = c; medium = medium },
            copy buf at v.last.sector_data 0 blk_sector_size,
          )))
        × IsUp (record { driver = c; medium = medium })
  unfolding read_write_disk finish submit virtq_kick virtq_push
  served v =
      let (c, waited, done) =
        wait_for_done_lem up.index v.quiet v.last asked asked-IsIdle waits v.all_quiet v.final in
      let covers = up.covers in
      let room : leb (s.driver.capacity / blk_sector_size) sector ≡ false = ground arith in
      let ended : wait_for_done (device asked s.medium).0 asked ≡ some c =
        ap (λ rs. wait_for_done rs asked) v.all_rounds ∙ waited in
      let fine : c.request_status ≡ 0 = done.status_there ∙ v.succeeds in
      (
        c,
        ap
              (λ b.
                if b
                then some (s, buf)
                else finish buf at is_write medium (wait_for_done (device asked s.medium).0 asked))
              room
            ∙ ap (finish buf at is_write medium) ended
            ∙ ap
                (λ st.
                  if not (st == 0)
                  then some (record { driver = c; medium = medium }, buf)
                  else if is_write
                  then some (record { driver = c; medium = medium }, buf)
                  else some (
                    record { driver = c; medium = medium },
                    copy buf at c.sector_data 0 blk_sector_size,
                  ))
                fine
            ∙ ap
                (λ data_of.
                  if is_write
                  then some (record { driver = c; medium = medium }, buf)
                  else some (
                    record { driver = c; medium = medium },
                    copy buf at data_of 0 blk_sector_size,
                  ))
                done.data_there,
        record {
          index = u16 (up.index + 1);
          idle = done.idle;
          descs_whole =
              ap length done.same_descs
              ∙ length-described is_write s.driver.request_paddr s.driver.request_vq.descs
              ∙ up.descs_whole;
          avail_whole = ap length done.same_avail ∙ length-set _ _ _ ∙ up.avail_whole;
          covers = omega (arith, done.same_capacity, covers);
        },
      )

-- `read_write_disk` is a disk as the file system relies on it, over a device that serves requests:
-- on each of the first five sectors it returns, a read with the 512 bytes that the device holds there
-- in the buffer and the device's disk as before, a write with the buffer's bytes on it; and the driver
-- is ready for the next request. The device may interrupt for other reasons while the driver waits.
pub read_write_disk-IsSectorStore :
    (device : Device) (limit : ℕ)
    → IsDevice device limit
    → sectors ≤ limit
    → IsSectorStore (blk_disk device) IsUp (λ s. s.medium) sectors
unfolding submit
read_write_disk-IsSectorStore device limit d within = record {
  reads = λ buf at sector s up inside.
      let request = asked-IsRequest device limit d buf at sector false s up inside within in
      let (v, kept, bytes) =
        d.reads sector up.index (submit buf at sector false s.driver) s.medium request
          (omega (arith, within))
          (asked-IsIdle device limit d buf at sector false s up inside within) in
      let (c, ran, up') = served device limit d buf at sector false s up inside within v in
      (
        record { driver = c; medium = (device (submit buf at sector false s.driver) s.medium).1 },
        copy buf at v.last.sector_data 0 blk_sector_size,
        ran,
        up',
        kept,
        λ x.
            copy_lem buf at v.last.sector_data 0 blk_sector_size x
            ∙ ground (
              arith,
              bytes (0 + (x - at)),
              ap s.medium (
                  let z : sector * blk_sector_size + (0 + (x - at))
                      ≡ sector * blk_sector_size + (x - at) =
                    omega arith in
                  z),
              copy_lem buf at s.medium (sector * blk_sector_size) blk_sector_size x,
            ),
      );
  writes = λ buf at sector s up inside.
      let request = asked-IsRequest device limit d buf at sector true s up inside within in
      let (v, bytes) =
        d.writes sector up.index (submit buf at sector true s.driver) s.medium request
          (omega (arith, within))
          (asked-IsIdle device limit d buf at sector true s up inside within) in
      let (c, ran, up') = served device limit d buf at sector true s up inside within v in
      (
        record { driver = c; medium = (device (submit buf at sector true s.driver) s.medium).1 },
        ran,
        up',
        λ x.
            bytes x
            ∙ copy-copy s.medium (sector * blk_sector_size) s.driver.sector_data buf at
                blk_sector_size x,
      );
}
