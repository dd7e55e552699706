-- ===== src/Files/Map/Restored.antt =====
-- `smp_file_size_from_seek`, and the mappings that are sized by it.
use smpcil.Base.{ℕ, ◌<◌, ◌^◌, ◌≡◌, refl, ◌∙◌, ℤ, pos, Ptr, null, arith, to_int, int_of, size_of}
use smpcil.Libc.{Libc}
use smpcil.Error.{World}
use smpcil.Files.{Calls, seek_set, seek_cur, seek_end}
use smpcil.Files.Map.{
  lseek, file_seek_current, file_seek_end, file_seek_begin_offset, seek_back, size_at_end,
  size_from, file_size_from_seek, memmap, memmap_remove, map_sized, unmap_sized, file2memmap,
  file2memmap_remove,
}

size_of-small : (n : ℕ) → n < 2 ^ 31 → size_of (pos n) ≡ n
size_of-small n small = omega arith

int_of-small : (n : ℕ) → n < 2 ^ 31 → int_of (pos n) ≡ pos n
unfolding int_of to_int
int_of-small n small = ground arith

-- What POSIX documents of `lseek` on a file: it tells and sets the position, and the size stays.
pub record Seekable {os : Libc} (calls : Calls os) (fd : ℤ) : Type 0 where
  pub position : os.Mem → ℕ
  pub size : os.Mem → ℕ
  pub tells : (m : os.Mem) → calls.lseek fd (pos 0) seek_cur m ≡ (pos (position m), m)
  pub at_end :
      (m : os.Mem)
      → let r = calls.lseek fd (pos 0) seek_end m in (r.0 ≡ pos (size m)) × (size r.1 ≡ size m)
  pub sets :
      (n : ℕ) (m : os.Mem)
      → let r = calls.lseek fd (pos n) seek_set m in
        (r.0 ≡ pos n) × (position r.1 ≡ n) × (size r.1 ≡ size m)

module _ {os : Libc} (calls : Calls os) (fd : ℤ) (file : Seekable calls fd) (w : World os) where
  -- where the three calls leave the memory
  abbrev pub after : os.Mem
  after =
      (calls.lseek fd (pos (file.position w.mem)) seek_set
        (calls.lseek fd (pos 0) seek_end w.mem).1).1

  size_from_seek-run :
      file_size_from_seek calls fd w ≡ (pos (file.size w.mem), record w { mem = after })
  unfolding file_size_from_seek file_seek_current file_seek_end file_seek_begin_offset lseek
      size_from size_at_end seek_back
  size_from_seek-run =
      let (end, kept) = file.at_end w.mem in
      let (set, at, kept') =
        file.sets (file.position w.mem) (calls.lseek fd (pos 0) seek_end w.mem).1 in
      rw (file.tells w.mem, end, set) refl

  -- On a file, `smp_file_size_from_seek` gives the size and leaves the position where it was; the
  -- error is not touched.
  pub size_from_seek-restores :
      let r = file_size_from_seek calls fd w in
      (r.0 ≡ pos (file.size w.mem))
      × (file.position r.1.mem ≡ file.position w.mem)
      × (file.size r.1.mem ≡ file.size w.mem)
      × (r.1.smp_errno ≡ w.smp_errno)
  size_from_seek-restores =
      let (end, kept) = file.at_end w.mem in
      let (set, at, kept') =
        file.sets (file.position w.mem) (calls.lseek fd (pos 0) seek_end w.mem).1 in
      rw size_from_seek-run (refl, at, kept' ∙ kept, refl)

  -- For a file shorter than 2^31 bytes, `smp_file2memmap` maps, and `smp_file2memmap_remove`
  -- unmaps, as many bytes as the file has.
  pub file2memmap-sizes :
      (prot flags : ℤ) (start : Ptr)
      → file.size w.mem < 2 ^ 31
      → (file2memmap calls fd prot flags w
          ≡ memmap calls null (file.size w.mem) prot flags fd (pos 0) (record w { mem = after }))
        × (file2memmap_remove calls start fd w
            ≡ memmap_remove calls start (file.size w.mem) (record w { mem = after }))
  unfolding file2memmap file2memmap_remove map_sized unmap_sized
  file2memmap-sizes prot flags start small = (
    rw (size_from_seek-run, size_of-small (file.size w.mem) small) refl,
    rw
        (
          size_from_seek-run,
          int_of-small (file.size w.mem) small,
          size_of-small (file.size w.mem) small,
        )
        refl,
  )
