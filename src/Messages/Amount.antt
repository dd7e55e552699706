-- ===== src/Messages/Amount.antt =====
-- How many messages a queue has, as the wrappers of smp_msg.c tell it.
use smpcil.Base.{
  ℕ, zero, suc, ◌≡◌, ◌≢◌, refl, sym, ap, true, false, ℤ, pos, negsuc, Ptr, null, ◌==◌, is_error,
  int_of, to_int, Status, smp_ok, smp_failure, Bool-cases, inl, inr, arith,
}
use smpcil.Libc.{Libc}
use smpcil.Error.{World}
use smpcil.Messages.{Calls, msgsnd, msgsnd_wait, msgrcv, msgrcv_wait, msgctl, msgqueue_elem_amount}

-- What POSIX documents of the count of a queue that is there: `IPC_STAT` tells it, a message that
-- is sent adds one and one that is received takes one.
pub record Counts {os : Libc} (calls : Calls os) (msgid : ℤ) : Type 0 where
  pub count : os.Mem → ℕ
  pub stat_tells :
      (m : os.Mem)
      → let s = calls.ipc_stat msgid m in (is_error s.0 ≡ false) × (s.1.msg_qnum ≡ count m)
  pub snd_adds :
      (buf : Ptr) (n : ℕ) (flg : ℤ) (m : os.Mem)
      → is_error (calls.msgsnd msgid buf n flg m).0 ≡ false
      → count (calls.msgsnd msgid buf n flg m).1 ≡ suc (count m)
  pub rcv_takes :
      (buf : Ptr) (n : ℕ) (t flg : ℤ) (m : os.Mem)
      → is_error (calls.msgrcv msgid buf n t flg m).0 ≡ false
      → suc (count (calls.msgrcv msgid buf n t flg m).1) ≡ count m

-- A value that is -1 is -1 as an `int`.
is_error-int_of : (r : ℤ) → is_error (int_of r) ≡ false → is_error r ≡ false
unfolding int_of to_int
is_error-int_of (pos n) e = refl
is_error-int_of (negsuc zero) e = cc
is_error-int_of (negsuc (suc n)) e = ground arith

module _ {os : Libc} (calls : Calls os) {msgid : ℤ} (laws : Counts calls msgid) where
  elem_amount-count :
      (w : World os) → (msgqueue_elem_amount calls msgid w).0 ≡ to_int (laws.count w.mem)
  unfolding msgqueue_elem_amount msgctl
  elem_amount-count w = let (fine, tells) = laws.stat_tells w.mem in rw (fine, tells) refl

  failed : smp_failure ≢ smp_ok
  failed e = cc

  snd-count :
      (buf : Ptr) (n : ℕ) (w w' : World os)
      → msgsnd_wait calls msgid buf n w ≡ (smp_ok, w')
      → laws.count w'.mem ≡ suc (laws.count w.mem)
  unfolding msgsnd_wait msgsnd
  snd-count buf n w w' e = elim (Bool-cases (buf == null)) [
    | inl t ↦ absurd (failed (ap (λ t. t.0) (rw t at e)))
    | inr f ↦ elim (Bool-cases (is_error (calls.msgsnd msgid buf n (pos 0) w.mem).0)) [
      | inl bad ↦ absurd (failed (ap (λ t. t.0) (rw bad at (rw f at e))))
      | inr good ↦
          let left = ap (λ (t : Status × World os). t.1) (rw good at (rw f at e)) in
          rw (sym left) (laws.snd_adds buf n (pos 0) w.mem good)
    ]
  ]

  true_ne_false : true ≢ false
  true_ne_false e = cc

  rcv-count :
      (buf : Ptr) (n : ℕ) (t : ℤ) (w : World os)
      → is_error (msgrcv_wait calls msgid buf n t w).0 ≡ false
      → suc (laws.count (msgrcv_wait calls msgid buf n t w).1.mem) ≡ laws.count w.mem
  unfolding msgrcv_wait msgrcv
  rcv-count buf n t w e = elim (Bool-cases (buf == null)) [
    | inl none ↦ absurd (true_ne_false (rw none at e))
    | inr f ↦ elim (Bool-cases (is_error (int_of (calls.msgrcv msgid buf n t (pos 0) w.mem).0))) [
      | inl bad ↦ absurd (true_ne_false (rw bad at (rw f at e)))
      | inr good ↦
          rw (f, good)
            (laws.rcv_takes buf n t (pos 0) w.mem
              (is_error-int_of (calls.msgrcv msgid buf n t (pos 0) w.mem).0 good))
    ]
  ]

  -- For a queue that is there, a message that `smp_msgsnd_wait` has sent raises by one the amount
  -- that `smp_msgqueue_elem_amount` tells, as an `int`, and a message that `smp_msgrcv_wait` then
  -- receives brings it back.
  pub elem_amount-snd_rcv :
      (buf buf' : Ptr) (n n' : ℕ) (t : ℤ) (w w' : World os)
      → msgsnd_wait calls msgid buf n w ≡ (smp_ok, w')
      → is_error (msgrcv_wait calls msgid buf' n' t w').0 ≡ false
      → ((msgqueue_elem_amount calls msgid w').0 ≡ to_int (suc (laws.count w.mem)))
        × ((msgqueue_elem_amount calls msgid (msgrcv_wait calls msgid buf' n' t w').1).0
            ≡ (msgqueue_elem_amount calls msgid w).0)
  elem_amount-snd_rcv buf buf' n n' t w w' sent received = (
    rw (elem_amount-count w', snd-count buf n w w' sent) refl,
    rw (elem_amount-count, elem_amount-count w)
        (ap to_int (omega (arith, rcv-count buf' n' t w' received, snd-count buf n w w' sent))),
  )
