-- ===== src/Files/Sample.antt =====
-- A small system with one file, for the tests: how many descriptors are open, where the file is
-- read next, how long it is, and its times.
use smpcil.Base.{ℕ, ◌+◌, ◌-◌, none, some, [], ℤ, pos, negsuc}
use smpcil.Libc.{Libc}
use smpcil.Error.{World}
use smpcil.Files.{Calls, Stat, Whence, seek_set, seek_cur, seek_end}

pub record Disk : Type 0 where
  pub opened : ℕ
  pub position : ℕ
  pub size : ℕ
  pub mtime : ℕ
  pub atime : ℕ

abbrev pub system : Libc
system = record {
  Mem = Disk;
  malloc = λ n m. (some 8, m);
  memalign = λ n m. (some 8, m);
  free = λ p m. m;
  page_size = 4096;
  error_text = λ m. [];
}

abbrev pub moved : ℤ → ℕ → ℕ
moved (pos n) from = from + n
moved (negsuc n) from = from - (n + 1)

abbrev seek : ℤ → Whence → Disk → ℤ × Disk
seek offset seek_set m = (pos (moved offset 0), record m { position = moved offset 0 })
seek offset seek_cur m =
    (pos (moved offset m.position), record m { position = moved offset m.position })
seek offset seek_end m = (pos (moved offset m.size), record m { position = moved offset m.size })

abbrev pub stat_of : Disk → Stat
stat_of m = record { st_mode = 33188; st_mtime = m.mtime; st_atime = m.atime; st_size = pos m.size }

abbrev pub sample : Calls system
sample = record {
  open_file = λ file flg mode m. (pos 3, record m { opened = m.opened + 1 });
  close = λ fd m. (pos 0, record m { opened = m.opened - 1 });
  read = λ fd buf n m. (pos n, record m { position = m.position + n });
  write = λ fd buf n m. (pos n, record m { size = m.size + n });
  stat = λ file m. (pos 0, stat_of m, m);
  utime = λ file actime modtime m. (pos 0, record m { atime = actime; mtime = modtime });
  fileno = λ fp m. (pos 3, m);
  fdopen = λ fd modes m. (8, m);
  dupfd = λ fd m. (pos 4, record m { opened = m.opened + 1 });
  lseek = λ fd offset whence m. seek offset whence m;
  sync = λ m. m;
  fsync = λ fd m. (pos 0, m);
  fdatasync = λ fd m. (pos 0, m);
  mmap = λ start len prot flags fd offset m. (some 4096, m);
  munmap = λ start len m. (pos 0, m);
  msync = λ start len flags m. (pos 0, m);
  flock = λ fd op m. (pos 0, m);
  opendir = λ path m. (8, m);
  closedir = λ dir m. (pos 0, m);
  readdir = λ dir m. (0, m);
  telldir = λ dir m. (pos 0, m);
  seekdir = λ dir point m. m;
  rewinddir = λ dir m. m;
  mkdir = λ path mode m. (pos 0, m);
  rmdir = λ path m. (pos 0, m);
  getcwd = λ buf n m. (buf, m);
  chdir = λ path m. (pos 0, m);
  wipe = λ buf n m. m;
  ms_sync = pos 4;
  ms_async = pos 1;
}

abbrev pub disk : Disk
disk = record { opened = 2; position = 10; size = 100; mtime = 5; atime = 6 }

abbrev pub start : World system
start = record { mem = disk; smp_errno = none }
