-- ===== src/Semaphores.antt =====
-- smp_linux/smp_ipc/smp_sem.c: wrappers of the calls for semaphores, which are a parameter.
pub mod Values
mod Tests
use smpcil.Base.{
  ℕ, ◌-◌, ◌%◌, List, ℤ, pos, negsuc, Ptr, Status, smp_ok, ltb, if◌then◌else◌, positive, negative,
  minus,
}
use smpcil.Libc.{Libc}
use smpcil.Error.{World, checked, checked_value}

-- `sembuf`: an `unsigned short` and two `short`
pub record SemBuf : Type 0 where
  pub sem_num : ℤ
  pub sem_op : ℤ
  pub sem_flg : ℤ

-- The commands of `semctl` that are used, with the argument where there is one.
pub data Command : Type 0 where
  getpid getval getncnt getzcnt ipc_rmid : Command
  setval : ℤ → Command
  getall setall : Ptr → Command

-- The calls, by the value that they return.
pub record Calls (os : Libc) : Type 1 where
  pub semget : (key amount flg : ℤ) → os.Mem → ℤ × os.Mem
  pub semctl : (semid n : ℤ) → Command → os.Mem → ℤ × os.Mem
  pub semop : ℤ → List SemBuf → os.Mem → ℤ × os.Mem
  -- `IPC_CREAT | 0600`
  pub creat_0600 : ℤ

-- The low sixteen bits of an `int`, as they are stored in an `unsigned short` and in a `short`.
abbrev pub low16 : ℤ → ℕ
low16 (pos n) = n % 65536
low16 (negsuc n) = 65535 - n % 65536

abbrev pub to_short : ℤ → ℤ
to_short n = let low = low16 n in if ltb low 32768 then pos low else negsuc (65535 - low)

-- `smp_sem_setop_get` and `smp_sem_setop_release`: what is stored through `semops`
pub sem_setop_get : (i n way : ℤ) → SemBuf
sem_setop_get i n way =
    let n = if negative n then minus n else n in
    record { sem_num = pos (low16 i); sem_op = to_short (minus n); sem_flg = to_short way }

pub sem_setop_release : (i n way : ℤ) → SemBuf
sem_setop_release i n way =
    let n = if positive n then minus n else n in
    record { sem_num = pos (low16 i); sem_op = to_short (minus n); sem_flg = to_short way }

module _ {os : Libc} (calls : Calls os) where
  pub semget : (key amount flg : ℤ) → World os → ℤ × World os
  semget key amount flg w =
      let r = calls.semget key amount flg w.mem in checked_value r.0 (record w { mem = r.1 })

  pub sem_create : (key amount : ℤ) → World os → ℤ × World os
  unfolding semget
  sem_create key amount w = semget key amount calls.creat_0600 w

  -- `semctl` and the test of its value, for a function that returns the value and for one that
  -- returns a status
  abbrev pub ctl_value : (semid n : ℤ) → Command → World os → ℤ × World os
  ctl_value semid n cmd w =
      let r = calls.semctl semid n cmd w.mem in checked_value r.0 (record w { mem = r.1 })

  abbrev pub ctl : (semid n : ℤ) → Command → World os → Status × World os
  ctl semid n cmd w = let r = calls.semctl semid n cmd w.mem in checked r.0 (record w { mem = r.1 })

  pub sem_owner : ℤ → World os → ℤ × World os
  sem_owner semid w = ctl_value semid (pos 0) getpid w

  pub sem_getval : (semid n : ℤ) → World os → ℤ × World os
  sem_getval semid n w = ctl_value semid n getval w

  pub sem_getall : ℤ → Ptr → World os → Status × World os
  sem_getall semid semun w = ctl semid (pos 0) (getall semun) w

  pub sem_wait_increment : ℤ → World os → ℤ × World os
  sem_wait_increment semid w = ctl_value semid (pos 0) getncnt w

  pub sem_wait_decrease : ℤ → World os → ℤ × World os
  sem_wait_decrease semid w = ctl_value semid (pos 0) getzcnt w

  pub sem_setval : (semid n val : ℤ) → World os → Status × World os
  sem_setval semid n val w = ctl semid n (setval val) w

  pub sem_setall : ℤ → Ptr → World os → Status × World os
  sem_setall semid semun w = ctl semid (pos 0) (setall semun) w

  pub semop : ℤ → List SemBuf → World os → Status × World os
  semop semid semops w =
      let r = calls.semop semid semops w.mem in checked r.0 (record w { mem = r.1 })

  pub sem_remove : ℤ → World os → Status × World os
  sem_remove semid w = ctl semid (pos 0) ipc_rmid w
