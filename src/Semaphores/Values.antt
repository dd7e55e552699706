-- ===== src/Semaphores/Values.antt =====
-- What the wrappers for semaphores do to values.
use smpcil.Base.{
  ◌+◌, ◌-◌, ◌≤◌, ◌∙◌, negsuc, [], ◌∷◌, ℕ, zero, suc, ◌<◌, ◌≡◌, ◌≢◌, refl, sym, ap, inl, inr, false,
  ℤ, pos, Status, smp_ok, smp_failure, arith, Bool-cases, is_error, minus,
}
use smpcil.Libc.{Libc}
use smpcil.Error.{World}
use smpcil.Semaphores.{
  SemBuf, semop, Calls, getval, setval, sem_setop_get, sem_setop_release, sem_getval, sem_setval,
}

-- For a number below 2^15, of either sign, `smp_sem_setop_get` takes that many off the semaphore
-- and `smp_sem_setop_release` puts as many back.
pub sem_setop-signs :
    (i way : ℤ) (n : ℕ)
    → n < 32768
    → ((sem_setop_get i (pos n) way).sem_op ≡ minus (pos n))
      × ((sem_setop_get i (minus (pos n)) way).sem_op ≡ minus (pos n))
      × ((sem_setop_release i (pos n) way).sem_op ≡ pos n)
      × ((sem_setop_release i (minus (pos n)) way).sem_op ≡ pos n)
unfolding sem_setop_get sem_setop_release
sem_setop-signs i way zero lt = (refl, refl, refl, refl)
sem_setop-signs i way (suc n) lt = (ground arith, ground arith, ground arith, ground arith)

-- What POSIX documents of the values of a set of `amount` semaphores: `GETVAL` tells one, `SETVAL`
-- sets one, and an operation of `semop` that is not 0 adds its number to one or takes it off.
pub record Laws {os : Libc} (calls : Calls os) (semid : ℤ) : Type 0 where
  pub amount : ℕ
  pub value : os.Mem → ℕ → ℕ
  pub getval_tells :
      (i : ℕ) (m : os.Mem) → i < amount → (calls.semctl semid (pos i) getval m).0 ≡ pos (value m i)
  pub setval_sets :
      (i v : ℕ) (m : os.Mem)
      → is_error (calls.semctl semid (pos i) (setval (pos v)) m).0 ≡ false
      → value (calls.semctl semid (pos i) (setval (pos v)) m).1 i ≡ v
  pub semop_adds :
      (i n : ℕ) (b : SemBuf) (m : os.Mem)
      → b.sem_num ≡ pos i
      → b.sem_op ≡ pos (suc n)
      → is_error (calls.semop semid (b ∷ []) m).0 ≡ false
      → value (calls.semop semid (b ∷ []) m).1 i ≡ value m i + suc n
  pub semop_takes :
      (i n : ℕ) (b : SemBuf) (m : os.Mem)
      → b.sem_num ≡ pos i
      → b.sem_op ≡ negsuc n
      → is_error (calls.semop semid (b ∷ []) m).0 ≡ false
      → value (calls.semop semid (b ∷ []) m).1 i + suc n ≡ value m i

num_of_release : (i : ℕ) (n way : ℤ) → i < 65536 → (sem_setop_release (pos i) n way).sem_num ≡ pos i
unfolding sem_setop_release
num_of_release i n way num = ap pos (omega (arith, num))

num_of_get : (i : ℕ) (n way : ℤ) → i < 65536 → (sem_setop_get (pos i) n way).sem_num ≡ pos i
unfolding sem_setop_get
num_of_get i n way num = ap pos (omega (arith, num))

failed : smp_failure ≢ smp_ok
failed e = cc

module _ {os : Libc} (calls : Calls os) (semid : ℤ) (laws : Laws calls semid) where
  getval-value :
      (i : ℕ) (w : World os)
      → i < laws.amount
      → (sem_getval calls semid (pos i) w).0 ≡ pos (laws.value w.mem i)
  unfolding sem_getval
  getval-value i w there =
      let told = laws.getval_tells i w.mem there in
      let fine : is_error (calls.semctl semid (pos i) getval w.mem).0 ≡ false = rw told refl in
      rw (fine, told) refl

  setval-value :
      (i v : ℕ) (w w' : World os)
      → sem_setval calls semid (pos i) (pos v) w ≡ (smp_ok, w')
      → laws.value w'.mem i ≡ v
  unfolding sem_setval
  setval-value i v w w' e =
      elim (Bool-cases (is_error (calls.semctl semid (pos i) (setval (pos v)) w.mem).0)) [
        | inl bad ↦ absurd (failed (ap (λ t. t.0) (rw bad at e)))
        | inr good ↦
            let left = ap (λ (t : Status × World os). t.1) (rw good at e) in
            rw (sym left) (laws.setval_sets i v w.mem good)
      ]

  semop-ok :
      (b : SemBuf) (w w' : World os)
      → semop calls semid (b ∷ []) w ≡ (smp_ok, w')
      → (is_error (calls.semop semid (b ∷ []) w.mem).0 ≡ false)
        × ((calls.semop semid (b ∷ []) w.mem).1 ≡ w'.mem)
  unfolding semop
  semop-ok b w w' e = elim (Bool-cases (is_error (calls.semop semid (b ∷ []) w.mem).0)) [
    | inl bad ↦ absurd (failed (ap (λ t. t.0) (rw bad at e)))
    | inr good ↦ (good, ap (λ (t : Status × World os). t.1.mem) (rw good at e))
  ]

  -- On a semaphore of a set that is there: when `smp_sem_setval` has set it to `v`, an
  -- operation from `smp_sem_setop_release` for `suc n`, below 2^15, and then one from
  -- `smp_sem_setop_get` for `suc k`, below 2^15, have succeeded, `smp_sem_getval` tells
  -- `v + suc n` between the two, and `suc k` less behind them.
  pub semop-getval :
      (i v n k : ℕ) (way : ℤ) (w w1 w2 w3 : World os)
      → i < 65536
      → i < laws.amount
      → suc n < 32768
      → suc k < 32768
      → sem_setval calls semid (pos i) (pos v) w ≡ (smp_ok, w1)
      → semop calls semid (sem_setop_release (pos i) (pos (suc n)) way ∷ []) w1 ≡ (smp_ok, w2)
      → semop calls semid (sem_setop_get (pos i) (pos (suc k)) way ∷ []) w2 ≡ (smp_ok, w3)
      → ((sem_getval calls semid (pos i) w2).0 ≡ pos (v + suc n))
        × ((sem_getval calls semid (pos i) w3).0 ≡ pos (v + suc n - suc k))
        × (suc k ≤ v + suc n)
  semop-getval i v n k way w w1 w2 w3 num there short short' set released got =
      let release = sem_setop_release (pos i) (pos (suc n)) way in
      let get = sem_setop_get (pos i) (pos (suc k)) way in
      let (good, left) = semop-ok release w1 w2 released in
      let (good', left') = semop-ok get w2 w3 got in
      let (_, _, adds, _) = sem_setop-signs (pos i) way (suc n) short in
      let (takes, _, _, _) = sem_setop-signs (pos i) way (suc k) short' in
      let one = setval-value i v w w1 set in
      let two =
        laws.semop_adds i n release w1.mem (num_of_release i (pos (suc n)) way num) adds good in
      let three =
        laws.semop_takes i k get w2.mem (num_of_get i (pos (suc k)) way num) takes good' in
      let value2 : laws.value w2.mem i ≡ v + suc n = rw (left, one) at two in
      let value3 : laws.value w3.mem i + suc k ≡ v + suc n = rw (left', value2) at three in
      (
        getval-value i w2 there ∙ ap pos value2,
        getval-value i w3 there ∙ ap pos (omega (arith, value3)),
        omega (arith, value3),
      )
