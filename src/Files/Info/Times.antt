-- ===== src/Files/Info/Times.antt =====
-- What `smp_file_set_access_time` does to the times of a file.
use smpcil.Base.{
  refl, ◌∙◌, if◌then◌else◌, sym, ℕ, ◌≡◌, ◌≢◌, ap, false, Ptr, null, ◌==◌, is_error, smp_ok,
  smp_failure, Bool-cases, inl, inr, Status,
}
use smpcil.Libc.{Libc}
use smpcil.Error.{World}
use smpcil.Files.{Calls}
use smpcil.Files.Info.{
  file_stat, with_stat, set_times, file_modify_time, file_access_time, file_set_access_time,
}

module _ {os : Libc} (calls : Calls os) where
  -- `stat` after a successful `utime` shows the times that were set.
  abbrev pub SetsTimes : Type 0
  SetsTimes =
      (file : Ptr) (actime modtime : ℕ) (m : os.Mem)
      → is_error (calls.utime file actime modtime m).0 ≡ false
      → let s = calls.stat file (calls.utime file actime modtime m).1 in
        (is_error s.0 ≡ false) × (s.1.st_atime ≡ actime) × (s.1.st_mtime ≡ modtime)

  modify_time-ok :
      (file : Ptr) (w : World os)
      → is_error (calls.stat file w.mem).0 ≡ false
      → (file_modify_time calls file w).0 ≡ (calls.stat file w.mem).1.st_mtime
  unfolding file_modify_time file_stat with_stat
  modify_time-ok file w looked = rw looked refl

  -- The time of modification that `stat` tells, or 0 where it fails.
  abbrev pub told : Ptr → World os → ℕ
  told file w = if is_error (calls.stat file w.mem).0 then 0 else (calls.stat file w.mem).1.st_mtime

  modify_time-told :
      (file : Ptr) (w : World os)
      → (w1 : World os) × (file_modify_time calls file w ≡ (told file w, w1))
  unfolding file_modify_time file_stat with_stat
  modify_time-told file w = elim (Bool-cases (is_error (calls.stat file w.mem).0)) [
    | inl bad ↦ rw bad (_, refl)
    | inr good ↦ rw good (_, refl)
  ]

  access_time-ok :
      (file : Ptr) (w : World os)
      → is_error (calls.stat file w.mem).0 ≡ false
      → file_access_time calls file w
        ≡ ((calls.stat file w.mem).1.st_atime, record w { mem = (calls.stat file w.mem).2 })
  unfolding file_access_time file_stat with_stat
  access_time-ok file w looked = rw looked

  failed : smp_failure ≢ smp_ok
  failed e = cc

  set_times-ok :
      (file : Ptr) (actime modtime : ℕ) (w w' : World os)
      → set_times calls file actime modtime w ≡ (smp_ok, w')
      → (is_error (calls.utime file actime modtime w.mem).0 ≡ false)
        × (w' ≡ record w { mem = (calls.utime file actime modtime w.mem).1 })
  unfolding set_times
  set_times-ok file actime modtime w w' e =
      elim (Bool-cases (is_error (calls.utime file actime modtime w.mem).0)) [
        | inl bad ↦ absurd (failed (ap (λ t. t.0) (rw bad at e)))
        | inr good ↦ (good, sym (ap (λ (t : Status × World os). t.1) e))
      ]

  -- Where `utime` does what POSIX documents, a successful `smp_file_set_access_time` sets the time
  -- of access. The time of modification stays what `stat` told before the call; where `stat`
  -- failed, it is set to 0.
  pub set_access_time-keeps :
      SetsTimes
      → (file : Ptr) (stamp : ℕ) (w w' : World os)
      → file_set_access_time calls file stamp w ≡ (smp_ok, w')
      → ((file_access_time calls file w').0 ≡ stamp)
        × ((file_modify_time calls file w').0 ≡ (
            if is_error (calls.stat file w.mem).0 then 0 else (calls.stat file w.mem).1.st_mtime))
  unfolding file_set_access_time
  set_access_time-keeps sets file stamp w w' e = elim (Bool-cases (file == null)) [
    | inl t ↦ absurd (failed (ap (λ t. t.0) (rw t at e)))
    | inr f ↦
        let (w1, old) = modify_time-told file w in
        let e1 : set_times calls file stamp (told file w) w1 ≡ (smp_ok, w') =
          rw old at (rw f at e) in
        let (good, left) = set_times-ok file stamp (told file w) w1 w' e1 in
        let w2 : World os = record w1 { mem = (calls.utime file stamp (told file w) w1.mem).1 } in
        let (fine, acc, mod') = sets file stamp (told file w) w1.mem good in
        (
          rw left (rw (access_time-ok file w2 fine) acc),
          rw left (modify_time-ok file w2 fine ∙ mod'),
        )
  ]
