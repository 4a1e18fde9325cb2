-- ===== src/Blk/Tests.antt =====
-- kernel/virtio_blk.c: instances on a device that serves each request in one round.
use risc_v_os.Base.{
  ℕ, ◌+◌, ◌*◌, ◌≡◌, ◌==◌, refl, ◌∙◌, ap, arith, true, false, some, List, [], ◌∷◌, ok, if◌then◌else◌,
}
use risc_v_os.Base.Word.{u16}
use risc_v_os.Memory.{Memory, copy, array_of, array_of-IsBytes, array_of-IsString}
use risc_v_os.Virtio.{fresh_virtq}
use risc_v_os.Files.{Fs, File, no_file, sectors, fs_flush, fs_init}
use risc_v_os.Files.Entry.{IsFile}
use risc_v_os.Files.Archive.{used_files}
use risc_v_os.Files.Reading.{Read}
use risc_v_os.Files.Sectors.{IsSectorStore}
use risc_v_os.Blk.{Blk, BlkRound, BlkState, Device, blk_sector_size}
use risc_v_os.Blk.Request.{IsDevice}
use risc_v_os.Blk.Transfer.{IsUp, blk_disk, read_write_disk-IsSectorStore}
use risc_v_os.Blk.Archive.{fs_init-fs_flush_on_blk}

-- The round in which the device completes a request for the sector, and reads it.
abbrev round : ℕ → Blk → Memory → BlkRound
round sector b m = record {
  status = 1;
  used_ring = b.request_vq.used_ring;
  used_index = b.request_vq.used_index + 1;
  sector_data = λ i. m (sector * blk_sector_size + i);
  request_status = 0;
}

abbrev device : Device
device b m =
    if b.request_type == 1
    then (
      round b.request_sector b m ∷ [],
      copy m (b.request_sector * blk_sector_size) b.sector_data 0 blk_sector_size,
    )
    else (round b.request_sector b m ∷ [], m)

device-IsDevice : IsDevice device 8
device-IsDevice = record {
  reads = λ sector index b m r lt i.
      let served = at_type b m 0 r.kind in
      (
        record {
          quiet = [];
          last = round b.request_sector b m;
          all_rounds = ap (λ (a : List BlkRound × Memory). a.0) served;
          all_quiet = tt;
          final = record { names_queue = refl; one_more = ap (λ k. u16 (k + 1)) i.used };
          succeeds = refl;
        },
        λ x. ap (λ (a : List BlkRound × Memory). a.1 x) served,
        λ i lt. ap (λ k. m (k * blk_sector_size + i)) r.at_sector,
      );
  writes = λ sector index b m r lt i.
      let served = at_type b m 1 r.kind in
      (
        record {
          quiet = [];
          last = round b.request_sector b m;
          all_rounds = ap (λ (a : List BlkRound × Memory). a.0) served;
          all_quiet = tt;
          final = record { names_queue = refl; one_more = ap (λ k. u16 (k + 1)) i.used };
          succeeds = refl;
        },
        λ x.
            ap (λ (a : List BlkRound × Memory). a.1 x) served
            ∙ ap (λ k. copy m (k * blk_sector_size) b.sector_data 0 blk_sector_size x) r.at_sector,
      );
}
  where
    at_type :
        (b : Blk) (m : Memory) (kind : ℕ)
        → b.request_type ≡ kind
        → device b m ≡ (
            if kind == 1
            then (
              round b.request_sector b m ∷ [],
              copy m (b.request_sector * blk_sector_size) b.sector_data 0 blk_sector_size,
            )
            else (round b.request_sector b m ∷ [], m))
    at_type b m kind e =
        ap
          (λ k.
            if k == 1
            then (
              round b.request_sector b m ∷ [],
              copy m (b.request_sector * blk_sector_size) b.sector_data 0 blk_sector_size,
            )
            else (round b.request_sector b m ∷ [], m))
          e

abbrev up : BlkState
up = record {
  driver = record {
    request_vq = fresh_virtq 0;
    request_paddr = 0x8040_0000;
    request_type = 0;
    request_sector = 0;
    sector_data = λ _. 0;
    request_status = 0;
    capacity = 4096;
    done = false;
    reg_writes = [];
  };
  medium = λ _. 7;
}

up-IsUp : IsUp up
unfolding fresh_virtq
up-IsUp = record {
  index = 0;
  idle = record { used = refl; consumed = refl; word = omega arith };
  descs_whole = refl;
  avail_whole = refl;
  covers = omega arith;
}

read_write_disk-IsSectorStore_example : IsSectorStore (blk_disk device) IsUp (λ s. s.medium) sectors
read_write_disk-IsSectorStore_example =
    read_write_disk-IsSectorStore device 8 device-IsDevice (omega arith)

abbrev hello : File
hello = record {
  in_use = true;
  name = array_of (b'h' ∷ b'i' ∷ 0 ∷ []);
  contents = array_of (1 ∷ 2 ∷ 3 ∷ []);
  size = 3;
}

hello-IsFile : IsFile hello
hello-IsFile = record {
  name_length = 2;
  named = array_of-IsString (b'h' ∷ b'i' ∷ []) (omega arith);
  not_empty = omega arith;
  name_fits = omega arith;
  name_bytes = array_of-IsBytes (b'h' ∷ b'i' ∷ 0 ∷ []) (omega arith);
  data_fits = omega arith;
}

abbrev files : Fs
files = record { files = no_file ∷ hello ∷ []; disk = λ _. 9 }

abbrev fresh : Fs
fresh = record { files = no_file ∷ no_file ∷ []; disk = λ _. 0 }

fs_init-fs_flush_on_blk_example :
    (e : BlkState) × (t : Fs) × (fs_flush (blk_disk device) up files ≡ some (e, t))
    × (t.files ≡ files.files)
    × (g : BlkState) × (u : Fs) × (fs_init (blk_disk device) e fresh ≡ some (g, ok u))
    × IsUp g
    × Read (used_files files.files) 0 fresh u
unfolding used_files
fs_init-fs_flush_on_blk_example =
    fs_init-fs_flush_on_blk device 8 up files fresh device-IsDevice (omega arith) up-IsUp refl refl
      (hello-IsFile, tt) (omega arith)

abbrev finished : Blk
finished = record up.driver { request_vq = record (fresh_virtq 0) { used_index = 1 } }
