-- ===== src/Files/Whole.antt =====
-- `smp_read_file`, `smp_write_file` and `smp_file_write_apend` of smp_file.c, which open a file,
-- use it and close it.
pub mod Closed
mod Tests
use smpcil.Base.{ℕ, ◌+◌, ◌||◌, ℤ, negsuc, Ptr, null, ◌==◌, if◌then◌else◌, is_error}
use smpcil.Libc.{Libc}
use smpcil.Error.{World, set_error}
use smpcil.Error.Texts.{no_source}
use smpcil.Files.{
  Calls, o_rdonly, o_wronly, o_creat, o_append, def_mode, open_with, close_file, read_some,
  write_some,
}

module _ {os : Libc} (calls : Calls os) where
  -- From the call of `smp_read` or `smp_write` on: its value is returned, that of `smp_close` is
  -- not.
  closing : ℤ → ℤ × World os → ℤ × World os
  unfolding close_file
  closing fd (ret, w) = (ret, (close_file calls fd w).1)

  read_opened : Ptr → ℕ → ℤ × World os → ℤ × World os
  unfolding read_some closing
  read_opened buf size (fd, w) =
      if is_error fd then (negsuc 0, w) else closing fd (read_some calls fd buf size w)

  write_opened : Ptr → ℕ → ℤ × World os → ℤ × World os
  unfolding write_some closing
  write_opened buf size (fd, w) =
      if is_error fd then (negsuc 0, w) else closing fd (write_some calls fd buf size w)

  pub read_file : (file buf : Ptr) → ℕ → World os → ℤ × World os
  unfolding open_with read_opened
  read_file file buf read_size w =
      if (buf == null) || (read_size == 0)
      then (negsuc 0, set_error no_source w)
      else read_opened buf read_size (open_with calls file o_rdonly (negsuc 0) w)

  pub write_file : (file buf : Ptr) → ℕ → World os → ℤ × World os
  unfolding open_with write_opened
  write_file file buf write_size w =
      if (buf == null) || (write_size == 0)
      then (negsuc 0, set_error no_source w)
      else write_opened buf write_size (open_with calls file (o_wronly + o_creat) def_mode w)

  pub file_write_apend : (file buf : Ptr) → ℕ → World os → ℤ × World os
  unfolding open_with write_opened
  file_write_apend file buf write_size w =
      if (buf == null) || (write_size == 0)
      then (negsuc 0, set_error no_source w)
      else write_opened buf write_size
          (open_with calls file (o_wronly + o_append + o_creat) def_mode w)
