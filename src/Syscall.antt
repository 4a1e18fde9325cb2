-- ===== src/Syscall.antt =====
-- kernel/syscall.c: the calls on files and on shared memory, for the process that runs.
pub mod Persist
mod Tests
use risc_v_os.Base.{
  ℕ, ◌+◌, ◌-◌, ◌^◌, Bool, true, false, ◌&&◌, Option, none, some, List, ltb, leb, ◌==◌,
  if◌then◌else◌, get_or, set, Result, ok, ◌>>=◌,
}
use risc_v_os.Memory.{Memory, copy}
use risc_v_os.Files.{File, Fs, Disk, no_file, fs_lookup, fs_flush}
use risc_v_os.Processes.{Kernel, proc_at}
use risc_v_os.Shm.{shm_get, shm_attach, shm_detach}

-- `sizeof(file->data)`
abbrev pub file_data_size : ℕ
file_data_size = 1024

-- `len > (int) sizeof(file->data)`, for the bit pattern of an `int`.
abbrev pub is_over : ℕ → Bool
is_over len = ltb file_data_size len && ltb len (2 ^ 31)

-- What a call leaves: `a0`, the memory of the process as it addresses it, the files, and the disk.
pub record Called (D : Type 0) : Type 0 where
  pub a0 : ℕ
  pub user : Memory
  pub fs : Fs
  pub disk : D

module _ {D : Type 0} (dev : Disk D) where
  -- After `fs_flush`, which may wait without end.
  unfoldable pub written : ℕ → Memory → Option (D × Fs) → Option (Called D)
  written len user none = none
  written len user (some (d, s)) = some (record { a0 = len; user = user; fs = s; disk = d })

  -- The file with the bytes of the process.
  abbrev pub overwritten : Memory → ℕ → ℕ → File → File
  overwritten user buf len file = record file {
    contents = copy file.contents 0 user buf len;
    size = len;
  }

  unfoldable pub file_call_at : Bool → ℕ → ℕ → ℕ → Memory → Fs → D → Option (Called D)
  file_call_at is_write i buf len user s d =
      let file = get_or s.files i no_file in
      let count = if is_over len then file.size else len in
      let stored =
        written count user
          (fs_flush dev d (record s { files = set s.files i (overwritten user buf count file) })) in
      if is_write
      then stored
      else some
          (record { a0 = count; user = copy user buf file.contents 0 count; fs = s; disk = d })

  unfoldable pub file_call_found : Bool → Option ℕ → ℕ → ℕ → Memory → Fs → D → Option (Called D)
  file_call_found is_write none buf len user s d =
      some (record { a0 = 2 ^ 32 - 1; user = user; fs = s; disk = d })
  file_call_found is_write (some i) buf len user s d = file_call_at is_write i buf len user s d

  -- SYS_READFILE and SYS_WRITEFILE, with the three arguments of the process; `fuel` bounds the
  -- comparison of names. The line that reports a missing file is left out.
  unfoldable pub file_call : ℕ → Bool → ℕ → ℕ → ℕ → Memory → Fs → D → Option (Called D)
  file_call fuel is_write filename buf len user s d =
      file_call_found is_write (fs_lookup fuel user filename s) buf len user s d

-- SYS_SHM_GET, SYS_SHM_ATTACH and SYS_SHM_DETACH, with the argument in `a0` and the answer for it.
unfoldable pub sys_shm_get : ℕ → Kernel → Result (ℕ × Kernel)
sys_shm_get a0 k = do (answer, pool) ← shm_get a0 k.pool; ok (answer, record k { pool = pool })

unfoldable pub sys_shm_attach : ℕ → Kernel → Result (ℕ × Kernel)
sys_shm_attach a0 k = do
  (answer, proc, pool) ← shm_attach a0 (proc_at k.procs k.current_proc) k.pool
  ok (answer, record k { procs = set k.procs k.current_proc proc; pool = pool })

unfoldable pub sys_shm_detach : ℕ → Kernel → Result (ℕ × Kernel)
sys_shm_detach a0 k = do
  (answer, proc, pool) ← shm_detach a0 (proc_at k.procs k.current_proc) k.pool
  ok (answer, record k { procs = set k.procs k.current_proc proc; pool = pool })
