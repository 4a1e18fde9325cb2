-- ===== src/Blk/Archive.antt =====
-- kernel/filesystem.c over kernel/virtio_blk.c: the files on the device's disk.
use risc_v_os.Base.{ℕ, ◌≤◌, ◌≡◌, some, All, length, ok}
use risc_v_os.Files.{Fs, files_max, disk_max_size, sectors, fs_flush, fs_init}
use risc_v_os.Files.Entry.{IsFile}
use risc_v_os.Files.Archive.{used_files, archive_size}
use risc_v_os.Files.Reading.{Read}
use risc_v_os.Files.RoundTrip.{fs_init-fs_flush}
use risc_v_os.Blk.{BlkState, Device}
use risc_v_os.Blk.Request.{IsDevice}
use risc_v_os.Blk.Transfer.{IsUp, blk_disk, read_write_disk-IsSectorStore}

-- With the driver up and a device that serves requests, what `fs_flush` writes through the driver
-- comes back through it by `fs_init`: both return, and the files that were in use stand in the first
-- slots, with their names, sizes and data, where they fit their arrays and their archive the buffer.
pub fs_init-fs_flush_on_blk :
    (device : Device) (limit : ℕ) (b : BlkState) (s before : Fs)
    → IsDevice device limit
    → sectors ≤ limit
    → IsUp b
    → length s.files ≡ files_max
    → length before.files ≡ files_max
    → All IsFile (used_files s.files)
    → archive_size (used_files s.files) ≤ disk_max_size
    → (e : BlkState) × (t : Fs) × (fs_flush (blk_disk device) b s ≡ some (e, t))
      × (t.files ≡ s.files)
      × (g : BlkState) × (u : Fs) × (fs_init (blk_disk device) e before ≡ some (g, ok u))
      × IsUp g
      × Read (used_files s.files) 0 before u
fs_init-fs_flush_on_blk device limit b s before d within up slots slots' all fits =
    fs_init-fs_flush (blk_disk device) IsUp (λ st. st.medium)
      (read_write_disk-IsSectorStore device limit d within) s slots all fits b before up slots'
