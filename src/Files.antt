-- ===== src/Files.antt =====
-- smp_linux/smp_file/smp_file.c, smp_sio.c and smp_file.h: wrappers of the calls for files,
-- directories and streams, which are a parameter. Names, buffers, streams and directories are
-- addresses, and what stands there is part of the memory.
mod Sample
pub mod Whole
pub mod Info
pub mod Map
pub mod Dirs
pub mod Streams
use smpcil.Base.{
  ℕ, ◌+◌, ◌||◌, Option, none, some, List, ℤ, pos, negsuc, Ptr, null, Status, smp_ok, smp_failure,
  ◌==◌, if◌then◌else◌, is_error,
}
use smpcil.Libc.{Libc}
use smpcil.Error.{World, set_error, checked, checked_value}
use smpcil.Error.Texts.{no_source}

-- Of `struct stat`: the mode, the times and the size.
pub record Stat : Type 0 where
  pub st_mode : ℕ
  pub st_mtime : ℕ
  pub st_atime : ℕ
  pub st_size : ℤ

pub data Whence : Type 0 where
  seek_set seek_cur seek_end : Whence

-- The calls, by the value that they return; an address is `null` where the call gives NULL, and
-- `mmap` gives `none` for MAP_FAILED.
pub record Calls (os : Libc) : Type 1 where
  -- the file's name, the flags, and the mode where there is one
  pub open_file : Ptr → ℕ → Option ℤ → os.Mem → ℤ × os.Mem
  pub close : ℤ → os.Mem → ℤ × os.Mem
  pub read : ℤ → Ptr → ℕ → os.Mem → ℤ × os.Mem
  pub write : ℤ → Ptr → ℕ → os.Mem → ℤ × os.Mem
  pub stat : Ptr → os.Mem → ℤ × Stat × os.Mem
  pub utime : Ptr → (actime modtime : ℕ) → os.Mem → ℤ × os.Mem
  pub fileno : Ptr → os.Mem → ℤ × os.Mem
  pub fdopen : ℤ → List ℕ → os.Mem → Ptr × os.Mem
  -- `fcntl(fd, F_DUPFD)`, without its third argument
  pub dupfd : ℤ → os.Mem → ℤ × os.Mem
  pub lseek : ℤ → ℤ → Whence → os.Mem → ℤ × os.Mem
  pub sync : os.Mem → os.Mem
  pub fsync : ℤ → os.Mem → ℤ × os.Mem
  pub fdatasync : ℤ → os.Mem → ℤ × os.Mem
  pub mmap : Ptr → ℕ → (prot flags fd offset : ℤ) → os.Mem → Option Ptr × os.Mem
  pub munmap : Ptr → ℕ → os.Mem → ℤ × os.Mem
  pub msync : Ptr → ℕ → ℤ → os.Mem → ℤ × os.Mem
  pub flock : ℤ → ℕ → os.Mem → ℤ × os.Mem
  pub opendir : Ptr → os.Mem → Ptr × os.Mem
  pub closedir : Ptr → os.Mem → ℤ × os.Mem
  pub readdir : Ptr → os.Mem → Ptr × os.Mem
  pub telldir : Ptr → os.Mem → ℤ × os.Mem
  pub seekdir : Ptr → ℤ → os.Mem → os.Mem
  pub rewinddir : Ptr → os.Mem → os.Mem
  pub mkdir : Ptr → ℕ → os.Mem → ℤ × os.Mem
  pub rmdir : Ptr → os.Mem → ℤ × os.Mem
  pub getcwd : Ptr → ℕ → os.Mem → Ptr × os.Mem
  pub chdir : Ptr → os.Mem → ℤ × os.Mem
  pub wipe : Ptr → ℕ → os.Mem → os.Mem
  pub ms_sync : ℤ
  pub ms_async : ℤ

-- The bits of the flags of `open` and `flock`, on Linux; `|` of different bits is a sum.
abbrev pub o_rdonly : ℕ
o_rdonly = 0

abbrev pub o_wronly : ℕ
o_wronly = 1

abbrev pub o_rdwr : ℕ
o_rdwr = 2

abbrev pub o_creat : ℕ
o_creat = 64

abbrev pub o_trunc : ℕ
o_trunc = 512

abbrev pub o_append : ℕ
o_append = 1024

-- SMP_FILE_DEF_MODE
abbrev pub def_mode : ℤ
def_mode = pos 438

module _ {os : Libc} (calls : Calls os) where
  -- `smp_open`: SMP_FILE_NO_MODE is -1.
  unfoldable pub open_with : Ptr → ℕ → ℤ → World os → ℤ × World os
  open_with file flg mode w =
      let r = calls.open_file file flg (if is_error mode then none else some mode) w.mem in
      checked_value r.0 (record w { mem = r.1 })

  -- `smp_close`: the value of the call, and the error is not set.
  unfoldable pub close_file : ℤ → World os → ℤ × World os
  close_file fd w = let r = calls.close fd w.mem in (r.0, record w { mem = r.1 })

  pub create_file : Ptr → ℤ → World os → ℤ × World os
  unfolding open_with
  create_file file mode w = open_with file (o_creat + o_rdwr + o_trunc) mode w

  -- `smp_read` and `smp_write` with the value of the call: the error is not set.
  abbrev pub amount : ℤ → ℤ
  amount (pos n) = pos n
  amount (negsuc n) = negsuc 0

  unfoldable pub read_some : ℤ → Ptr → ℕ → World os → ℤ × World os
  read_some fd buf size w =
      if (buf == null) || (size == 0)
      then (negsuc 0, set_error no_source w)
      else let r = calls.read fd buf size w.mem in (amount r.0, record w { mem = r.1 })

  unfoldable pub write_some : ℤ → Ptr → ℕ → World os → ℤ × World os
  write_some fd buf size w =
      if (buf == null) || (size == 0)
      then (negsuc 0, set_error no_source w)
      else let r = calls.write fd buf size w.mem in (amount r.0, record w { mem = r.1 })
