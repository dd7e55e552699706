-- ===== src/Files/Map.antt =====
-- The functions of smp_file.c that move in a file, write it out, and map it.
pub mod Restored
mod Tests
use smpcil.Base.{
  ℕ, Option, none, some, ℤ, pos, negsuc, Ptr, null, Status, smp_ok, smp_failure, if◌then◌else◌,
  is_error, int_of, size_of,
}
use smpcil.Libc.{Libc}
use smpcil.Error.{World, set_error, checked, checked_value}
use smpcil.Files.{Calls, Whence, seek_set, seek_cur, seek_end}

module _ {os : Libc} (calls : Calls os) where
  pub lseek : ℤ → ℤ → Whence → World os → ℤ × World os
  lseek fd offset whence w =
      let r = calls.lseek fd offset whence w.mem in checked_value r.0 (record w { mem = r.1 })

  pub file_seek_current : ℤ → World os → ℤ × World os
  unfolding lseek
  file_seek_current fd w = lseek fd (pos 0) seek_cur w

  pub file_seek_begin : ℤ → World os → ℤ × World os
  unfolding lseek
  file_seek_begin fd w = lseek fd (pos 0) seek_set w

  pub file_seek_end : ℤ → World os → ℤ × World os
  unfolding lseek
  file_seek_end fd w = lseek fd (pos 0) seek_end w

  pub file_seek_current_offset : (fd offset : ℤ) → World os → ℤ × World os
  unfolding lseek
  file_seek_current_offset fd offset w = lseek fd offset seek_cur w

  pub file_seek_end_offset : (fd offset : ℤ) → World os → ℤ × World os
  unfolding lseek
  file_seek_end_offset fd offset w = lseek fd offset seek_end w

  pub file_seek_begin_offset : (fd offset : ℤ) → World os → ℤ × World os
  unfolding lseek
  file_seek_begin_offset fd offset w = lseek fd offset seek_set w

  -- `smp_file_size_from_seek`, from the result of each call
  seek_back : ℤ → ℤ × World os → ℤ × World os
  seek_back size (ret, w) = (if is_error ret then negsuc 0 else size, w)

  size_at_end : (fd offset : ℤ) → ℤ × World os → ℤ × World os
  unfolding file_seek_begin_offset seek_back
  size_at_end fd offset (size, w) =
      if is_error size then (negsuc 0, w) else seek_back size (file_seek_begin_offset fd offset w)

  size_from : ℤ → ℤ × World os → ℤ × World os
  unfolding file_seek_end size_at_end
  size_from fd (offset, w) =
      if is_error offset then (negsuc 0, w) else size_at_end fd offset (file_seek_end fd w)

  pub file_size_from_seek : ℤ → World os → ℤ × World os
  unfolding file_seek_current size_from
  file_size_from_seek fd w = size_from fd (file_seek_current fd w)

  pub io_sync : World os → World os
  io_sync w = record w { mem = calls.sync w.mem }

  pub file_io_sync : ℤ → World os → Status × World os
  file_io_sync fd w = let r = calls.fsync fd w.mem in checked r.0 (record w { mem = r.1 })

  pub file_io_datasync : ℤ → World os → Status × World os
  file_io_datasync fd w = let r = calls.fdatasync fd w.mem in checked r.0 (record w { mem = r.1 })

  -- `smp_memmap`
  mapped : World os → Option Ptr × os.Mem → Ptr × World os
  mapped w (none, m) = (null, set_error (os.error_text m) (record w { mem = m }))
  mapped w (some p, m) = (p, record w { mem = m })

  pub memmap : Ptr → ℕ → (prot flags fd offset : ℤ) → World os → Ptr × World os
  unfolding mapped
  memmap start len prot flags fd offset w =
      mapped w (calls.mmap start len prot flags fd offset w.mem)

  pub memmap_remove : Ptr → ℕ → World os → Status × World os
  memmap_remove start length w =
      let r = calls.munmap start length w.mem in checked r.0 (record w { mem = r.1 })

  -- `smp_file2memmap`: the size is a `long` there, and an `int` in `smp_file2memmap_remove`.
  map_sized : (fd prot flags : ℤ) → ℤ × World os → Ptr × World os
  unfolding memmap
  map_sized fd prot flags (size, w) =
      if is_error size then (null, w) else memmap null (size_of size) prot flags fd (pos 0) w

  pub file2memmap : (fd prot flags : ℤ) → World os → Ptr × World os
  unfolding file_size_from_seek map_sized
  file2memmap fd prot flags w = map_sized fd prot flags (file_size_from_seek fd w)

  unmap_sized : Ptr → ℤ × World os → Status × World os
  unfolding memmap_remove
  unmap_sized start (size, w) =
      if is_error size then (smp_failure, w) else memmap_remove start (size_of size) w

  pub file2memmap_remove : Ptr → ℤ → World os → Status × World os
  unfolding file_size_from_seek unmap_sized
  file2memmap_remove start fd w =
      let (size, w') = file_size_from_seek fd w in unmap_sized start (int_of size, w')

  pub msync : Ptr → ℕ → ℤ → World os → Status × World os
  msync start length flags w =
      let r = calls.msync start length flags w.mem in checked r.0 (record w { mem = r.1 })

  pub memmap_sync : Ptr → ℕ → World os → Status × World os
  unfolding msync
  memmap_sync start length w = msync start length calls.ms_sync w

  pub memmap_async : Ptr → ℕ → World os → Status × World os
  unfolding msync
  memmap_async start length w = msync start length calls.ms_async w
