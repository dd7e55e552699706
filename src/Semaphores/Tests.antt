-- ===== src/Semaphores/Tests.antt =====
-- A kernel with one semaphore, whose memory is its value, and the theorems at it.
use smpcil.Base.{
  is_error, true, false, ◌≢◌, lt-or-ge, inl, inr, ℕ, suc, ◌+◌, ◌-◌, ◌≤◌, List, ◌∷◌, ltb,
  if◌then◌else◌, ◌≡◌, refl, some, none, [], ℤ, pos, negsuc, smp_ok, arith,
}
use smpcil.Libc.{Libc}
use smpcil.Error.{World}
use smpcil.Semaphores.{
  SemBuf, semop, Calls, Command, getpid, getval, getncnt, getzcnt, ipc_rmid, setval, getall, setall,
  sem_setop_get, sem_setop_release, sem_getval, sem_setval,
}
use smpcil.Semaphores.Values.{Laws, sem_setop-signs, semop-getval}

abbrev kernel : Libc
kernel = record {
  Mem = ℕ;
  malloc = λ n m. (some 8, m);
  memalign = λ n m. (some 8, m);
  free = λ p m. m;
  page_size = 4096;
  error_text = λ m. [];
}

-- a value that is not negative is set, and an operation that would make it so fails
abbrev control : Command → ℕ → ℤ × ℕ
control getval m = (pos m, m)
control (setval (pos v)) m = (pos 0, v)
control (setval (negsuc v)) m = (negsuc 0, m)
control getpid m = (pos 1, m)
control getncnt m = (pos 0, m)
control getzcnt m = (pos 0, m)
control ipc_rmid m = (pos 0, m)
control (getall p) m = (pos 0, m)
control (setall p) m = (pos 0, m)

abbrev operate_by : ℤ → ℕ → ℤ × ℕ
operate_by (pos n) m = (pos 0, m + n)
operate_by (negsuc n) m = if ltb n m then (pos 0, m - suc n) else (negsuc 0, m)

abbrev operate : List SemBuf → ℕ → ℤ × ℕ
operate [] m = (pos 0, m)
operate (b ∷ bs) m = operate_by b.sem_op m

abbrev calls : Calls kernel
calls = record {
  semget = λ key amount flg m. (pos 1, m);
  semctl = λ semid n cmd m. control cmd m;
  semop = λ semid ops m. operate ops m;
  creat_0600 = pos 896;
}

abbrev with_value : ℕ → World kernel
with_value v = record { mem = v; smp_errno = none }

setval_run : sem_setval calls (pos 1) (pos 0) (pos 5) (with_value 2) ≡ (smp_ok, with_value 5)
unfolding sem_setval
setval_run = refl

sem_setop-signs_example :
    ((sem_setop_get (pos 0) (pos 3) (pos 0)).sem_op ≡ negsuc 2)
    × ((sem_setop_get (pos 0) (negsuc 2) (pos 0)).sem_op ≡ negsuc 2)
    × ((sem_setop_release (pos 0) (pos 3) (pos 0)).sem_op ≡ pos 3)
    × ((sem_setop_release (pos 0) (negsuc 2) (pos 0)).sem_op ≡ pos 3)
sem_setop-signs_example = sem_setop-signs (pos 0) (pos 0) 3 (omega arith)

taken :
    (n m : ℕ)
    → is_error (operate_by (negsuc n) m).0 ≡ false
    → (operate_by (negsuc n) m).1 + suc n ≡ m
taken n m ok = elim (lt-or-ge n m) [
  | inl l ↦ let yes : ltb n m ≡ true = ground arith in rw yes (omega arith)
  | inr g ↦ let no : ltb n m ≡ false = ground arith in absurd (clash (rw no at ok))
]
  where
    clash : true ≢ false
    clash e = cc

abbrev calls_laws : Laws calls (pos 1)
calls_laws = record {
  amount = 1;
  value = λ m i. m;
  getval_tells = λ i m lt. refl;
  setval_sets = λ i v m ok. refl;
  semop_adds = λ i n b m at op ok. rw op refl;
  semop_takes = λ i n b m at op ok. rw op (taken n m (rw op at ok));
}

release_run :
    semop calls (pos 1) (sem_setop_release (pos 0) (pos 3) (pos 0) ∷ []) (with_value 5)
    ≡ (smp_ok, with_value 8)
unfolding semop sem_setop_release
release_run = refl

get_run :
    semop calls (pos 1) (sem_setop_get (pos 0) (pos 2) (pos 0) ∷ []) (with_value 8)
    ≡ (smp_ok, with_value 6)
unfolding semop sem_setop_get
get_run = refl

semop-getval_example :
    ((sem_getval calls (pos 1) (pos 0) (with_value 8)).0 ≡ pos 8)
    × ((sem_getval calls (pos 1) (pos 0) (with_value 6)).0 ≡ pos 6)
    × (2 ≤ 8)
semop-getval_example =
    semop-getval calls (pos 1) calls_laws 0 5 2 1 (pos 0) (with_value 2) (with_value 5)
      (with_value 8) (with_value 6) (omega arith) (omega arith) (omega arith) (omega arith)
      setval_run release_run get_run
