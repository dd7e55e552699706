-- ===== src/Files/Info.antt =====
-- The functions of smp_file.c for the type, the times and the size of a file, and between streams
-- and descriptors. A `struct stat *` that is not NULL is part of the result.
pub mod Times
mod Tests
use smpcil.Base.{
  ℕ, ◌/◌, ◌%◌, Bool, true, false, Option, none, some, List, ℤ, pos, negsuc, Ptr, null, Status,
  smp_ok, smp_failure, ◌==◌, if◌then◌else◌, is_error,
}
use smpcil.Libc.{Libc}
use smpcil.Error.{World, set_error, checked, checked_value}
use smpcil.Error.Texts.{no_source, rdwd_exist}
use smpcil.Files.{Calls, Stat}

-- The bits of S_IFMT, by which `S_ISDIR`, `S_ISREG` and `S_ISLNK` tell.
abbrev pub file_type : Stat → ℕ
file_type info = info.st_mode / 4096 % 16

abbrev pub s_ifdir : ℕ
s_ifdir = 4

abbrev pub s_ifreg : ℕ
s_ifreg = 8

abbrev pub s_iflnk : ℕ
s_iflnk = 10

-- What a function does with the result of `smp_file_stat`, and its answer when that fails.
pub with_stat :
    {os : Libc} {A : Type 0} → A → (Stat → A) → Status × Option Stat × World os → A × World os
with_stat a f (smp_ok, some info, w) = (f info, w)
with_stat a f (smp_ok, none, w) = (a, w)
with_stat a f (smp_failure, info, w) = (a, w)

module _ {os : Libc} (calls : Calls os) where
  -- `smp_file_stat`; `info` is whether the pointer is not NULL.
  pub file_stat : Ptr → Bool → World os → Status × Option Stat × World os
  file_stat file false w = (smp_failure, none, set_error no_source w)
  file_stat file true w =
      let (ret, info, m) = calls.stat file w.mem in
      let (st, w') = checked ret (record w { mem = m }) in (st, some info, w')

  pub file_is_dir : Ptr → World os → Bool × World os
  unfolding file_stat with_stat
  file_is_dir file w = with_stat false (λ info. file_type info == s_ifdir) (file_stat file true w)

  pub file_is_reg : Ptr → World os → Bool × World os
  unfolding file_stat with_stat
  file_is_reg file w = with_stat false (λ info. file_type info == s_ifreg) (file_stat file true w)

  pub file_is_link : Ptr → World os → Bool × World os
  unfolding file_stat with_stat
  file_is_link file w = with_stat false (λ info. file_type info == s_iflnk) (file_stat file true w)

  pub file_modify_time : Ptr → World os → ℕ × World os
  unfolding file_stat with_stat
  file_modify_time file w = with_stat 0 (λ info. info.st_mtime) (file_stat file true w)

  pub file_access_time : Ptr → World os → ℕ × World os
  unfolding file_stat with_stat
  file_access_time file w = with_stat 0 (λ info. info.st_atime) (file_stat file true w)

  pub file_size : Ptr → World os → ℤ × World os
  unfolding file_stat with_stat
  file_size file w =
      with_stat (negsuc 0) (λ info. if file_type info == s_ifreg then info.st_size else pos 0)
        (file_stat file true w)

  -- `utime` and the test of its value: the error is not set.
  set_times : Ptr → (actime modtime : ℕ) → World os → Status × World os
  set_times file actime modtime w =
      let r = calls.utime file actime modtime w.mem in
      (if is_error r.0 then smp_failure else smp_ok, record w { mem = r.1 })

  pub file_set_modify_time : Ptr → ℕ → World os → Status × World os
  unfolding set_times
  file_set_modify_time file stamp w = set_times file stamp stamp w

  pub file_set_access_time : Ptr → ℕ → World os → Status × World os
  unfolding set_times file_modify_time
  file_set_access_time file stamp w =
      if file == null
      then (smp_failure, w)
      else let (modtime, w') = file_modify_time file w in set_times file stamp modtime w'

  pub file_stream2descriptor : Ptr → World os → ℤ × World os
  file_stream2descriptor stream w =
      if stream == null
      then (negsuc 0, set_error no_source w)
      else let r = calls.fileno stream w.mem in checked_value r.0 (record w { mem = r.1 })

  -- `none` is a NULL `stream_modes`.
  pub file_descriptor2stream : ℤ → Option (List ℕ) → World os → Ptr × World os
  file_descriptor2stream fd stream_modes w =
      let modes : List ℕ = elim stream_modes [ none ↦ rdwd_exist | some modes ↦ modes ] in
      let (fp, m) = calls.fdopen fd modes w.mem in
      if fp == null
      then (null, set_error (os.error_text m) (record w { mem = m }))
      else (fp, record w { mem = m })

  pub file_cp_descriptor : ℤ → World os → ℤ × World os
  file_cp_descriptor fd w =
      let r = calls.dupfd fd w.mem in checked_value r.0 (record w { mem = r.1 })
