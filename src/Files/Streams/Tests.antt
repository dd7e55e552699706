-- ===== src/Files/Streams/Tests.antt =====
-- A stream that ends after 10 elements, and takes 10 at most.
use smpcil.Base.{refl, to_int, smp_ok, ℕ, ◌≡◌, some, none, [], pos, ltb, if◌then◌else◌, smp_failure}
use smpcil.Libc.{Libc}
use smpcil.Error.{World}
use smpcil.Files.Streams.{StreamCalls, sio_write}

-- the memory is whether the end was met, as `feof` tells it
abbrev os : Libc
os = record {
  Mem = ℕ;
  malloc = λ n m. (some 8, m);
  memalign = λ n m. (some 8, m);
  free = λ p m. m;
  page_size = 4096;
  error_text = λ m. [];
}

abbrev at_most_ten : ℕ → ℕ
at_most_ten n = if ltb n 10 then n else 10

abbrev calls : StreamCalls os
calls = record {
  fopen = λ file mode m. (8, m);
  fclose = λ fp m. (pos 0, m);
  flags = λ fp m. 0;
  setbuf = λ fp buffer m. m;
  setvbuf = λ fp buffer modes n m. (pos 0, m);
  fflush = λ fp m. (pos 0, m);
  ferror = λ fp m. pos 0;
  clearerr = λ fp m. 0;
  feof = λ fp m. pos m;
  fgets = λ buf n fp m. (buf, m);
  fread = λ elems size count fp m. (at_most_ten count, if ltb 10 count then 1 else m);
  fwrite = λ elems size count fp m. (at_most_ten count, m);
  ftell = λ fp m. (pos 0, m);
  fseek = λ fp offset whence m. (pos 0, m);
  sprint_int = λ buffer n m. (pos 1, m);
  sprint_strs = λ buffer str1 str2 m. (pos 0, m);
}

abbrev start : World os
start = record { mem = 0; smp_errno = none }

short_write : (sio_write calls 8 64 4 20 start).0 ≡ smp_failure
unfolding sio_write to_int
short_write = refl

whole_write : (sio_write calls 8 64 4 10 start).0 ≡ smp_ok
unfolding sio_write to_int
whole_write = refl
