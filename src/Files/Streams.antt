-- ===== src/Files/Streams.antt =====
-- smp_linux/smp_file/smp_sio.c: wrappers of the calls for streams. `sprintf` is a parameter with
-- its format, as the bytes that it writes.
mod Tests
use smpcil.Base.{
  ℕ, ◌/◌, ◌%◌, Bool, true, false, not, ◌||◌, List, ℤ, pos, negsuc, Ptr, null, Status, smp_ok,
  smp_failure, ltb, ◌==◌, if◌then◌else◌, is_error, is_one, to_int,
}
use smpcil.Libc.{Libc}
use smpcil.Error.{World, set_error, checked, checked_value}
use smpcil.Error.Texts.{resource_unavailable, wrote_less}
use smpcil.Files.{Whence, seek_set, seek_cur, seek_end}

-- The calls, by the value that they return.
pub record StreamCalls (os : Libc) : Type 1 where
  pub fopen : (file mode : Ptr) → os.Mem → Ptr × os.Mem
  pub fclose : Ptr → os.Mem → ℤ × os.Mem
  -- `fp->_flags`
  pub flags : Ptr → os.Mem → ℕ
  pub setbuf : (fp buffer : Ptr) → os.Mem → os.Mem
  pub setvbuf : (fp buffer : Ptr) → ℤ → ℕ → os.Mem → ℤ × os.Mem
  pub fflush : Ptr → os.Mem → ℤ × os.Mem
  pub ferror : Ptr → os.Mem → ℤ
  pub clearerr : Ptr → os.Mem → os.Mem
  pub feof : Ptr → os.Mem → ℤ
  pub fgets : Ptr → ℤ → Ptr → os.Mem → Ptr × os.Mem
  pub fread : Ptr → (size count : ℕ) → Ptr → os.Mem → ℕ × os.Mem
  pub fwrite : Ptr → (size count : ℕ) → Ptr → os.Mem → ℕ × os.Mem
  pub ftell : Ptr → os.Mem → ℤ × os.Mem
  pub fseek : Ptr → ℤ → Whence → os.Mem → ℤ × os.Mem
  -- `sprintf` with "%d" and with "%s%s"
  pub sprint_int : Ptr → ℤ → os.Mem → ℤ × os.Mem
  pub sprint_strs : (buffer str1 str2 : Ptr) → os.Mem → ℤ × os.Mem

-- The equality of two `int`.
abbrev pub same_int : ℤ → ℤ → Bool
same_int (pos m) (pos n) = m == n
same_int (pos m) (negsuc n) = false
same_int (negsuc m) (pos n) = false
same_int (negsuc m) (negsuc n) = m == n

-- `flags & mask`, as a test, for a mask of one bit or none
abbrev pub meets : (flags mask : ℕ) → Bool
meets flags mask = if mask == 0 then false else flags / mask % 2 == 1

-- `_IOFBF`, `_IOLBF`, `_IONBF`
abbrev pub iofbf : ℕ
iofbf = 0

abbrev pub iolbf : ℕ
iolbf = 1

abbrev pub ionbf : ℕ
ionbf = 2

module _ {os : Libc} (calls : StreamCalls os) where
  pub fopen : (file mode : Ptr) → World os → Ptr × World os
  fopen file mode w =
      let (fp, m) = calls.fopen file mode w.mem in
      if fp == null
      then (null, set_error (os.error_text m) (record w { mem = m }))
      else (fp, record w { mem = m })

  pub fclose : Ptr → World os → Status × World os
  fclose fp w = let r = calls.fclose fp w.mem in checked r.0 (record w { mem = r.1 })

  pub sio_is_fullbuffer : Ptr → World os → Bool
  sio_is_fullbuffer fp w = if fp == null then false else meets (calls.flags fp w.mem) iofbf

  pub sio_is_linebuffer : Ptr → World os → Bool
  sio_is_linebuffer fp w = if fp == null then false else meets (calls.flags fp w.mem) iolbf

  pub sio_if_nobuffer : Ptr → World os → Bool
  sio_if_nobuffer fp w = if fp == null then false else meets (calls.flags fp w.mem) ionbf

  pub sio_setbuffer : (fp buffer : Ptr) → World os → Status × World os
  sio_setbuffer fp buffer w =
      if (fp == null) || (buffer == null)
      then (smp_failure, set_error resource_unavailable w)
      else (smp_ok, record w { mem = calls.setbuf fp buffer w.mem })

  pub sio_close_buffer : Ptr → World os → Status × World os
  sio_close_buffer fp w =
      if fp == null
      then (smp_failure, set_error resource_unavailable w)
      else (smp_ok, record w { mem = calls.setbuf fp null w.mem })

  pub sio_setvbuffer : (fp buffer : Ptr) → ℤ → ℕ → World os → Status × World os
  sio_setvbuffer fp buffer modes buffer_size w =
      if (fp == null) || ltb buffer_size 128
      then (smp_failure, set_error resource_unavailable w)
      else let r = calls.setvbuf fp buffer modes buffer_size w.mem in
        checked r.0 (record w { mem = r.1 })

  pub sio_flush : Ptr → World os → Status × World os
  sio_flush fp w =
      let (ret, m) = calls.fflush fp w.mem in
      if same_int ret (pos 0)
      then (smp_ok, record w { mem = m })
      else (smp_failure, set_error (os.error_text m) (record w { mem = m }))

  pub sio_is_stream_err : Ptr → World os → Bool
  sio_is_stream_err fp w = not (same_int (calls.ferror fp w.mem) (pos 0))

  pub sio_clearerr : Ptr → World os → World os
  sio_clearerr fp w = record w { mem = calls.clearerr fp w.mem }

  pub sio_is_endofstream : Ptr → World os → Bool
  sio_is_endofstream fp w = is_one (calls.feof fp w.mem)

  pub sio_getline : (fp buf : Ptr) → ℤ → World os → Status × World os
  sio_getline fp buf n w =
      if (fp == null) || (buf == null)
      then (smp_failure, set_error resource_unavailable w)
      else let (ret, m) = calls.fgets buf n fp w.mem in
        if ret == null
        then (smp_failure, set_error (os.error_text m) (record w { mem = m }))
        else (smp_ok, record w { mem = m })

  pub sio_read : (fp elems : Ptr) → (elem_size elem_count : ℕ) → World os → Status × World os
  unfolding sio_is_endofstream
  sio_read fp elems elem_size elem_count w =
      if (fp == null) || (elems == null)
      then (smp_failure, set_error resource_unavailable w)
      else let (count, m) = calls.fread elems elem_size elem_count fp w.mem in
        let w' = record w { mem = m } in
        if count == elem_count
        then (smp_ok, w')
        else if sio_is_endofstream fp w'
        then (smp_ok, w')
        else (smp_failure, set_error (os.error_text m) w')

  -- `ret` is an `int`, and `elem_count` is cast to one.
  pub sio_write : (fp elems : Ptr) → (elem_size elem_count : ℕ) → World os → Status × World os
  unfolding to_int
  sio_write fp elems elem_size elem_count w =
      if (fp == null) || (elems == null)
      then (smp_failure, set_error resource_unavailable w)
      else let (count, m) = calls.fwrite elems elem_size elem_count fp w.mem in
        let w' = record w { mem = m } in
        if same_int (to_int count) (to_int elem_count)
        then (smp_ok, w')
        else if is_error (to_int count)
        then (smp_failure, set_error (os.error_text m) w')
        else (smp_failure, set_error wrote_less w')

  pub sio_seek_current : Ptr → World os → ℤ × World os
  sio_seek_current fp w = let r = calls.ftell fp w.mem in checked_value r.0 (record w { mem = r.1 })

  pub sio_seek : Ptr → ℤ → Whence → World os → Status × World os
  sio_seek fp offset whence w =
      let r = calls.fseek fp offset whence w.mem in checked r.0 (record w { mem = r.1 })

  pub sio_seek_current_offset : Ptr → ℤ → World os → Status × World os
  unfolding sio_seek
  sio_seek_current_offset fp offset w = sio_seek fp offset seek_cur w

  pub sio_seek2begin : Ptr → World os → Status × World os
  unfolding sio_seek
  sio_seek2begin fp w = sio_seek fp (pos 0) seek_set w

  pub sio_seek2end : Ptr → World os → Status × World os
  unfolding sio_seek
  sio_seek2end fp w = sio_seek fp (pos 0) seek_end w

  pub sio_seek_begin_offset : Ptr → ℤ → World os → Status × World os
  unfolding sio_seek
  sio_seek_begin_offset fp offset w = sio_seek fp offset seek_set w

  pub sio_seek_end_offset : Ptr → ℤ → World os → Status × World os
  unfolding sio_seek
  sio_seek_end_offset fp offset w = sio_seek fp offset seek_end w

  -- The value of `sprintf` is returned.
  pub sio_int2string : Ptr → ℤ → World os → ℤ × World os
  sio_int2string buffer n w =
      let r = calls.sprint_int buffer n w.mem in (r.0, record w { mem = r.1 })

  pub sio_strcat : (buffer str1 str2 : Ptr) → World os → ℤ × World os
  sio_strcat buffer str1 str2 w =
      let r = calls.sprint_strs buffer str1 str2 w.mem in (r.0, record w { mem = r.1 })
