-- ===== src/Files/Dirs.antt =====
-- The functions of smp_file.c that lock files, and those for directories.
use smpcil.Base.{ℕ, ◌+◌, Option, none, some, ℤ, Ptr, null, Status, ◌==◌, if◌then◌else◌}
use smpcil.Libc.{Libc}
use smpcil.Error.{World, set_error, checked, checked_value}
use smpcil.Files.{Calls}

-- The operations of `flock`, on Linux.
abbrev pub lock_sh : ℕ
lock_sh = 1

abbrev pub lock_ex : ℕ
lock_ex = 2

abbrev pub lock_nb : ℕ
lock_nb = 4

abbrev pub lock_un : ℕ
lock_un = 8

module _ {os : Libc} (calls : Calls os) where
  pub file_lock : ℤ → ℕ → World os → Status × World os
  file_lock fd operation w =
      let r = calls.flock fd operation w.mem in checked r.0 (record w { mem = r.1 })

  pub file_lock_byshare : ℤ → World os → Status × World os
  unfolding file_lock
  file_lock_byshare fd w = file_lock fd lock_sh w

  pub file_lock_byexclusive : ℤ → World os → Status × World os
  unfolding file_lock
  file_lock_byexclusive fd w = file_lock fd lock_ex w

  pub file_lock_byshare_unblock : ℤ → World os → Status × World os
  unfolding file_lock
  file_lock_byshare_unblock fd w = file_lock fd (lock_sh + lock_nb) w

  pub file_lock_byexclusive_unblock : ℤ → World os → Status × World os
  unfolding file_lock
  file_lock_byexclusive_unblock fd w = file_lock fd (lock_ex + lock_nb) w

  pub file_unlock : ℤ → World os → Status × World os
  unfolding file_lock
  file_unlock fd w = file_lock fd lock_un w

  -- `if ((… = …) == NULL) { smp_set_error(strerror(errno)); return NULL; }`
  abbrev pub checked_ptr : Ptr × os.Mem → World os → Ptr × World os
  checked_ptr (p, m) w =
      if p == null
      then (null, set_error (os.error_text m) (record w { mem = m }))
      else (p, record w { mem = m })

  pub dir_open : Ptr → World os → Ptr × World os
  dir_open dir_path w = checked_ptr (calls.opendir dir_path w.mem) w

  pub dir_close : Ptr → World os → Status × World os
  dir_close dir w = let r = calls.closedir dir w.mem in checked r.0 (record w { mem = r.1 })

  pub dir_read : Ptr → World os → Ptr × World os
  dir_read dir w = let r = calls.readdir dir w.mem in (r.0, record w { mem = r.1 })

  pub dir_current_point : Ptr → World os → ℤ × World os
  dir_current_point dir w =
      let r = calls.telldir dir w.mem in checked_value r.0 (record w { mem = r.1 })

  pub dir_seek_point : Ptr → ℤ → World os → World os
  dir_seek_point dir point w = record w { mem = calls.seekdir dir point w.mem }

  pub dir_rewind2start : Ptr → World os → World os
  dir_rewind2start dir w = record w { mem = calls.rewinddir dir w.mem }

  pub dir_create : Ptr → ℕ → World os → Status × World os
  dir_create dir_path mode w =
      let r = calls.mkdir dir_path mode w.mem in checked r.0 (record w { mem = r.1 })

  pub dir_remove : Ptr → World os → Status × World os
  dir_remove dir_path w = let r = calls.rmdir dir_path w.mem in checked r.0 (record w { mem = r.1 })

  -- `smp_current_working_dir`; the static `dir` is an argument and a result. SMP_DIR_NAME_LEN is
  -- 1024.
  cwd_into : Ptr → World os → Ptr × Ptr × World os
  cwd_into dir w =
      let (ret, m) = calls.getcwd dir 1024 (calls.wipe dir 1024 w.mem) in
      if ret == null
      then (null, dir, set_error (os.error_text m) (record w { mem = m }))
      else (dir, dir, record w { mem = m })

  cwd_alloc : World os → Option Ptr × os.Mem → Ptr × Ptr × World os
  unfolding cwd_into
  cwd_alloc w (none, m) = (null, null, record w { mem = m })
  cwd_alloc w (some dir, m) = cwd_into dir (record w { mem = m })

  pub current_working_dir : Ptr → World os → Ptr × Ptr × World os
  unfolding cwd_into cwd_alloc
  current_working_dir dir w =
      if dir == null then cwd_alloc w (os.malloc 1024 w.mem) else cwd_into dir w

  pub change_working_dir : Ptr → World os → Status × World os
  change_working_dir dir_path w =
      let r = calls.chdir dir_path w.mem in checked r.0 (record w { mem = r.1 })
