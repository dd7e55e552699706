-- ===== src/Messages.antt =====
-- smp_linux/smp_ipc/smp_msg.c: wrappers of the calls for message queues, which are a parameter. A
-- buffer is its address, and what it holds is part of the memory.
pub mod Amount
mod Tests
use smpcil.Base.{
  ℕ, Option, none, some, ℤ, pos, negsuc, Ptr, null, Status, smp_ok, smp_failure, ◌==◌,
  if◌then◌else◌, to_int, int_of,
}
use smpcil.Libc.{Libc}
use smpcil.Error.{World, checked, checked_value}

-- What `IPC_STAT` and `IPC_SET` pass of `msqid_ds`, and `MSG_INFO` of `msginfo`.
pub record QueueInfo : Type 0 where
  pub msg_qnum : ℕ
  pub msg_cbytes : ℕ
  pub msg_qbytes : ℕ

pub record Limits : Type 0 where
  pub msgmnb : ℤ
  pub msgmax : ℤ

-- The calls, by the value that they return; `msgctl` by its command, with what it stores.
pub record Calls (os : Libc) : Type 1 where
  pub msgget : (key flg : ℤ) → os.Mem → ℤ × os.Mem
  pub msgsnd : ℤ → Ptr → ℕ → ℤ → os.Mem → ℤ × os.Mem
  pub msgrcv : ℤ → Ptr → ℕ → (msgtype msgflg : ℤ) → os.Mem → ℤ × os.Mem
  pub ipc_stat : ℤ → os.Mem → ℤ × QueueInfo × os.Mem
  pub msg_info : ℤ → os.Mem → ℤ × Limits × os.Mem
  -- with a `msqid_ds` that is zero but for `msg_qbytes`
  pub ipc_set : ℤ → QueueInfo → os.Mem → ℤ × os.Mem
  pub ipc_rmid : ℤ → os.Mem → ℤ × os.Mem
  -- `IPC_CREAT | 0600` and `IPC_NOWAIT`
  pub creat_0600 : ℤ
  pub ipc_nowait : ℤ

module _ {os : Libc} (calls : Calls os) where
  pub msgget : (key flg : ℤ) → World os → ℤ × World os
  msgget key flg w =
      let r = calls.msgget key flg w.mem in checked_value r.0 (record w { mem = r.1 })

  pub msgqueue_create : ℤ → World os → ℤ × World os
  unfolding msgget
  msgqueue_create key w = msgget key calls.creat_0600 w

  pub msgsnd : ℤ → Ptr → ℕ → ℤ → World os → Status × World os
  msgsnd msgid msgbuf msg_size msgflg w =
      let r = calls.msgsnd msgid msgbuf msg_size msgflg w.mem in
      checked r.0 (record w { mem = r.1 })

  pub msgsnd_wait : ℤ → Ptr → ℕ → World os → Status × World os
  unfolding msgsnd
  msgsnd_wait msgid msgbuf data_size w =
      if msgbuf == null then (smp_failure, w) else msgsnd msgid msgbuf data_size (pos 0) w

  pub msgsnd_nowait : ℤ → Ptr → ℕ → World os → Status × World os
  unfolding msgsnd
  msgsnd_nowait msgid msgbuf data_size w =
      if msgbuf == null then (smp_failure, w) else msgsnd msgid msgbuf data_size calls.ipc_nowait w

  -- `ret` is an `int`.
  pub msgrcv : ℤ → Ptr → ℕ → (msgtype msgflg : ℤ) → World os → ℤ × World os
  msgrcv msgid msgbuf msg_size msgtype msgflg w =
      let r = calls.msgrcv msgid msgbuf msg_size msgtype msgflg w.mem in
      checked_value (int_of r.0) (record w { mem = r.1 })

  pub msgrcv_wait : ℤ → Ptr → ℕ → ℤ → World os → ℤ × World os
  unfolding msgrcv
  msgrcv_wait msgid msgbuf rcv_size msgtype w =
      if msgbuf == null then (negsuc 0, w) else msgrcv msgid msgbuf rcv_size msgtype (pos 0) w

  pub msgrcv_nowait : ℤ → Ptr → ℕ → ℤ → World os → ℤ × World os
  unfolding msgrcv
  msgrcv_nowait msgid msgbuf rcv_size msgtype w =
      if msgbuf == null
      then (negsuc 0, w)
      else msgrcv msgid msgbuf rcv_size msgtype calls.ipc_nowait w

  -- `smp_msgctl`, by the result of the call
  pub msgctl : ℤ → os.Mem → World os → Status × World os
  msgctl ret m w = checked ret (record w { mem = m })

  -- A value that `smp_msgctl` has stored, when it succeeded.
  abbrev pub value_of : ℤ → Status × World os → ℤ × World os
  value_of v (smp_ok, w) = (v, w)
  value_of v (smp_failure, w) = (negsuc 0, w)

  pub msgqueue_elem_amount : ℤ → World os → ℤ × World os
  unfolding msgctl to_int
  msgqueue_elem_amount msgid w =
      let (ret, info, m) = calls.ipc_stat msgid w.mem in
      value_of (to_int info.msg_qnum) (msgctl ret m w)

  pub msgqueue_usedsize : ℤ → World os → ℤ × World os
  unfolding msgctl to_int
  msgqueue_usedsize msgid w =
      let (ret, info, m) = calls.ipc_stat msgid w.mem in
      value_of (to_int info.msg_cbytes) (msgctl ret m w)

  pub msgqueue_maxsize : ℤ → World os → ℤ × World os
  unfolding msgctl
  msgqueue_maxsize msgid w =
      let (ret, info, m) = calls.msg_info msgid w.mem in value_of info.msgmnb (msgctl ret m w)

  pub msgqueue_msg_maxsize : ℤ → World os → ℤ × World os
  unfolding msgctl
  msgqueue_msg_maxsize msgid w =
      let (ret, info, m) = calls.msg_info msgid w.mem in value_of info.msgmax (msgctl ret m w)

  pub msgqueue_set_maxsize : ℤ → ℕ → World os → Status × World os
  unfolding msgctl
  msgqueue_set_maxsize msgid size w =
      let zeroed : QueueInfo = record { msg_qnum = 0; msg_cbytes = 0; msg_qbytes = size } in
      let r = calls.ipc_set msgid zeroed w.mem in msgctl r.0 r.1 w

  pub msgqueue_remove : ℤ → World os → Status × World os
  unfolding msgctl
  msgqueue_remove msgid w = let r = calls.ipc_rmid msgid w.mem in msgctl r.0 r.1 w
