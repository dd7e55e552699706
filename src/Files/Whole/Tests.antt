-- ===== src/Files/Whole/Tests.antt =====
-- The sample system has two descriptors open, and keeps two.
use smpcil.Base.{◌≡◌, refl, arith, ltb}
use smpcil.Files.Sample.{sample, start}
use smpcil.Files.Whole.{read_file, write_file, file_write_apend}
use smpcil.Files.Whole.Closed.{FdLaws, whole_files-balanced}

abbrev laws : FdLaws sample
laws = record {
  opened = λ m. m.opened;
  is_open = λ m fd. ltb 0 m.opened;
  open_opens = λ file flg mode m e. (omega arith, ground arith);
  open_fails = λ file flg mode m e. cc;
  close_closes = λ fd m here. ground arith;
  read_keeps = λ fd buf n m. (refl, λ g. refl);
  write_keeps = λ fd buf n m. (refl, λ g. refl);
  malloc_keeps = λ n m. (refl, λ g. refl);
}

whole_files-balanced_example :
    ((read_file sample 64 128 10 start).1.mem.opened ≡ 2)
    × ((write_file sample 64 128 10 start).1.mem.opened ≡ 2)
    × ((file_write_apend sample 64 128 10 start).1.mem.opened ≡ 2)
whole_files-balanced_example = whole_files-balanced sample laws 64 128 10 start
