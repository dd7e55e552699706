-- ===== src/Messages/Tests.antt =====
-- A kernel with one message queue, whose memory is the number of its messages.
use smpcil.Base.{
  int_of, is_error, false, ℕ, ◌≡◌, refl, some, none, [], ℤ, pos, negsuc, smp_ok, to_int, suc, zero,
}
use smpcil.Libc.{Libc}
use smpcil.Error.{World}
use smpcil.Messages.{Calls, msgsnd_wait, msgrcv_wait, msgqueue_elem_amount}
use smpcil.Messages.Amount.{Counts, elem_amount-snd_rcv}

abbrev kernel : Libc
kernel = record {
  Mem = ℕ;
  malloc = λ n m. (some 8, m);
  memalign = λ n m. (some 8, m);
  free = λ p m. m;
  page_size = 4096;
  error_text = λ m. [];
}

abbrev receive : ℕ → ℤ × ℕ
receive zero = (negsuc 0, 0)
receive (suc m) = (pos 5, m)

abbrev calls : Calls kernel
calls = record {
  msgget = λ key flg m. (pos 1, m);
  msgsnd = λ id buf n flg m. (pos 0, suc m);
  msgrcv = λ id buf n t flg m. receive m;
  ipc_stat = λ id m. (pos 0, record { msg_qnum = m; msg_cbytes = 0; msg_qbytes = 16384 }, m);
  msg_info = λ id m. (pos 0, record { msgmnb = pos 16384; msgmax = pos 8192 }, m);
  ipc_set = λ id info m. (pos 0, m);
  ipc_rmid = λ id m. (pos 0, 0);
  creat_0600 = pos 896;
  ipc_nowait = pos 2048;
}

taken : (m : ℕ) → is_error (receive m).0 ≡ false → suc (receive m).1 ≡ m
taken zero e = cc
taken (suc m) e = refl

abbrev laws : Counts calls (pos 1)
laws = record {
  count = λ m. m;
  stat_tells = λ m. (refl, refl);
  snd_adds = λ buf n flg m e. refl;
  rcv_takes = λ buf n t flg m e. taken m e;
}

abbrev with_messages : ℕ → World kernel
with_messages m = record { mem = m; smp_errno = none }

sent : msgsnd_wait calls (pos 1) 64 5 (with_messages 2) ≡ (smp_ok, with_messages 3)
unfolding msgsnd_wait
sent = refl

elem_amount-snd_rcv_example :
    ((msgqueue_elem_amount calls (pos 1) (with_messages 3)).0 ≡ to_int 3)
    × ((msgqueue_elem_amount calls
          (pos 1)
          (msgrcv_wait calls (pos 1) 64 5 (pos 0) (with_messages 3)).1).0
        ≡ (msgqueue_elem_amount calls (pos 1) (with_messages 2)).0)
unfolding msgrcv_wait int_of
elem_amount-snd_rcv_example =
    elem_amount-snd_rcv calls laws 64 64 5 5 (pos 0) (with_messages 2) (with_messages 3) sent refl
