-- ===== src/Signals.antt =====
-- smp_linux/smp_sig/smp_signal.c: wrappers of the calls for signals. The calls are a parameter; a
-- `sigset_t *` is an option, `none` for NULL, and what is written through it is part of the result.
pub mod Send
pub mod Mask
mod Tests
use smpcil.Base.{
  is_error, is_one, positive, negative, minus, ℕ, zero, suc, Bool, true, false, ◌||◌, Option, none,
  some, ℤ, pos, negsuc, Status, smp_ok, smp_failure, ltb, ◌==◌, if◌then◌else◌,
}
use smpcil.Libc.{Libc}
use smpcil.Error.{World, set_error, checked}
use smpcil.Error.Texts.{pid_not_positive, set_unavailable}

-- `sigaction` with the fields that the wrappers set; the mask is the result of `sigemptyset`.
pub record Action (Set Handler : Type 0) : Type 0 where
  pub sa_flags : ℤ
  pub sa_mask : Set
  pub sa_sigaction : Handler

-- The calls, by the value that they return.
pub record Calls (os : Libc) : Type 1 where
  pub Set : Type 0
  pub Handler : Type 0
  pub kill : (pid sig : ℤ) → os.Mem → ℤ × os.Mem
  pub sigaction : ℤ → Action Set Handler → os.Mem → ℤ × os.Mem
  -- how, the new mask, and the old one in the result
  pub sigprocmask : ℤ → Option Set → os.Mem → ℤ × Set × os.Mem
  pub sigismember : Set → ℤ → ℤ
  pub sigaddset : Set → ℤ → ℤ × Set
  pub sigdelset : Set → ℤ → ℤ × Set
  pub sigfillset : Set → ℤ × Set
  pub sigemptyset : Set → ℤ × Set
  pub sig_block : ℤ
  pub sig_unblock : ℤ
  pub sig_setmask : ℤ
  -- a `sigset_t` of zero bytes, and one on the stack that is not written
  pub zeroed : Set
  pub unwritten : Set

module _ {os : Libc} (calls : Calls os) where
  pub kill : (pid sig : ℤ) → World os → Status × World os
  kill pid sig w = let r = calls.kill pid sig w.mem in checked r.0 (record w { mem = r.1 })

  pub sig_send : (pid sig : ℤ) → World os → Status × World os
  unfolding kill
  sig_send pid sig w =
      if positive pid then kill pid sig w else (smp_failure, set_error pid_not_positive w)

  pub sig_send2group : ℤ → World os → Status × World os
  unfolding kill
  sig_send2group sig w = kill (pos 0) sig w

  pub sig_send2allproc : ℤ → World os → Status × World os
  unfolding kill
  sig_send2allproc sig w = kill (negsuc 0) sig w

  pub sig_send2pgid : (pid sig : ℤ) → World os → Status × World os
  unfolding kill
  sig_send2pgid pid sig w = kill (if positive pid then minus pid else pid) sig w

  pub sigaction : ℤ → Action calls.Set calls.Handler → World os → Status × World os
  sigaction sig act w =
      let r = calls.sigaction sig act w.mem in checked r.0 (record w { mem = r.1 })

  -- the `act` of the two functions that install a handler
  abbrev pub act_of : calls.Handler → ℤ → Action calls.Set calls.Handler
  act_of handle flags = record {
    sa_flags = flags;
    sa_mask = (calls.sigemptyset calls.unwritten).1;
    sa_sigaction = handle;
  }

  pub sig_install_def : ℤ → calls.Handler → World os → Status × World os
  unfolding sigaction
  sig_install_def sig handle w = sigaction sig (act_of handle (pos 0)) w

  pub sig_install : ℤ → calls.Handler → ℤ → World os → Status × World os
  unfolding sigaction
  sig_install sig handle flags w = sigaction sig (act_of handle flags) w

  -- What the functions on a set leave: a status, the set and the state.
  abbrev pub SetReply : Type 0
  SetReply = Status × Option calls.Set × World os

  unavailable : Option calls.Set → World os → SetReply
  unavailable set w = (smp_failure, set, set_error set_unavailable w)

  -- a call that writes a set, and the test of its value
  changed : ℤ × calls.Set → World os → SetReply
  changed r w = let c = checked r.0 w in (c.0, some r.1, c.1)

  pub sig_ismember : Option calls.Set → ℤ → World os → Bool × World os
  sig_ismember none sig w = (false, set_error set_unavailable w)
  sig_ismember (some set) sig w =
      if negative sig
      then (false, set_error set_unavailable w)
      else (is_one (calls.sigismember set sig), w)

  pub sig_remove_from_set : ℤ → Option calls.Set → World os → SetReply
  unfolding unavailable changed sig_ismember
  sig_remove_from_set sig none w = unavailable none w
  sig_remove_from_set sig (some set) w =
      if negative sig
      then unavailable (some set) w
      else (let m = sig_ismember (some set) sig w in
          if m.0 then changed (calls.sigdelset set sig) m.1 else (smp_ok, some set, m.1))

  pub sig_add2set : ℤ → Option calls.Set → World os → SetReply
  unfolding unavailable changed
  sig_add2set sig none w = unavailable none w
  sig_add2set sig (some set) w =
      if negative sig then unavailable (some set) w else changed (calls.sigaddset set sig) w

  pub sig_setfill : Option calls.Set → World os → SetReply
  unfolding unavailable changed
  sig_setfill none w = unavailable none w
  sig_setfill (some set) w = changed (calls.sigfillset set) w

  pub sig_setempty : Option calls.Set → World os → SetReply
  unfolding unavailable changed
  sig_setempty none w = unavailable none w
  sig_setempty (some set) w = changed (calls.sigemptyset set) w

  -- a status, the old mask and the state
  pub sigprocmask : ℤ → Option calls.Set → World os → Status × calls.Set × World os
  sigprocmask how set w =
      let r = calls.sigprocmask how set w.mem in
      let c = checked r.0 (record w { mem = r.2 }) in (c.0, r.1, c.1)

  pub sig_block : calls.Set → World os → Status × calls.Set × World os
  unfolding sigprocmask
  sig_block set w = sigprocmask calls.sig_block (some set) w

  pub sig_unblock : calls.Set → World os → Status × calls.Set × World os
  unfolding sigprocmask
  sig_unblock set w = sigprocmask calls.sig_unblock (some set) w

  pub sig_set_procmask : calls.Set → World os → Status × World os
  unfolding sigprocmask
  sig_set_procmask set w = let r = sigprocmask calls.sig_setmask (some set) w in (r.0, r.2)

  pub sig_get_procmask : World os → Status × calls.Set × World os
  unfolding sigprocmask
  sig_get_procmask w = sigprocmask calls.sig_setmask none w

  mask_set : SetReply → Status × World os
  unfolding sig_set_procmask
  mask_set (smp_ok, some set, w) = sig_set_procmask set w
  mask_set (smp_ok, none, w) = (smp_failure, w)
  mask_set (smp_failure, set, w) = (smp_failure, w)

  pub sig_mask_allset : World os → Status × World os
  unfolding sig_setfill mask_set
  sig_mask_allset w = mask_set (sig_setfill (some calls.zeroed) w)
