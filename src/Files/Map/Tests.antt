-- ===== src/Files/Map/Tests.antt =====
-- The sample system's file has 100 bytes and is read at 10.
use smpcil.Base.{◌≡◌, refl, pos, null, arith}
use smpcil.Files.Sample.{sample, start}
use smpcil.Files.Map.{file_size_from_seek, file2memmap, file2memmap_remove, memmap, memmap_remove}
use smpcil.Files.Map.Restored.{Seekable, after, size_from_seek-restores, file2memmap-sizes}

abbrev file : Seekable sample (pos 3)
file = record {
  position = λ m. m.position;
  size = λ m. m.size;
  tells = λ m. ground arith;
  at_end = λ m. (ground arith, refl);
  sets = λ n m. (ground arith, ground arith, refl);
}

size_from_seek-restores_example :
    ((file_size_from_seek sample (pos 3) start).0 ≡ pos 100)
    × ((file_size_from_seek sample (pos 3) start).1.mem.position ≡ 10)
    × ((file_size_from_seek sample (pos 3) start).1.mem.size ≡ 100)
    × ((file_size_from_seek sample (pos 3) start).1.smp_errno ≡ start.smp_errno)
size_from_seek-restores_example = size_from_seek-restores sample (pos 3) file start

file2memmap-sizes_example :
    (file2memmap sample (pos 3) (pos 1) (pos 2) start
      ≡ memmap sample null 100
          (pos 1)
          (pos 2)
          (pos 3)
          (pos 0)
          (record start { mem = after sample (pos 3) file start }))
    × (file2memmap_remove sample 4096 (pos 3) start
        ≡ memmap_remove sample 4096 100 (record start { mem = after sample (pos 3) file start }))
file2memmap-sizes_example =
    file2memmap-sizes sample (pos 3) file start (pos 1) (pos 2) 4096 (omega arith)
