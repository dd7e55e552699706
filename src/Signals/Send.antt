-- ===== src/Signals/Send.antt =====
-- Who gets a signal by `smp_sig_send2PGID`.
use smpcil.Base.{minus, ℕ, zero, suc, ◌≡◌, refl, true, arith, ltb, ℤ, pos}
use smpcil.Libc.{Libc}
use smpcil.Error.{World}
use smpcil.Signals.{Calls, kill, sig_send2group, sig_send2allproc, sig_send2pgid}

module _ {os : Libc} (calls : Calls os) where
  -- `smp_sig_send2PGID` takes a group's number with either sign; for 0 it signals the caller's own
  -- group, and for 1, the group of init, every process.
  pub sig_send2pgid-targets :
      (sig : ℤ) (w : World os)
      → ((n : ℕ) → sig_send2pgid calls (pos n) sig w ≡ sig_send2pgid calls (minus (pos n)) sig w)
        × ((n : ℕ) → sig_send2pgid calls (pos n) sig w ≡ kill calls (minus (pos n)) sig w)
        × (sig_send2pgid calls (pos 0) sig w ≡ sig_send2group calls sig w)
        × (sig_send2pgid calls (pos 1) sig w ≡ sig_send2allproc calls sig w)
  unfolding sig_send2pgid sig_send2group sig_send2allproc
  sig_send2pgid-targets sig w = (sign, address, refl, refl)
    where
      address : (n : ℕ) → sig_send2pgid calls (pos n) sig w ≡ kill calls (minus (pos n)) sig w
      address zero = refl
      address (suc n) = let is : ltb 0 (suc n) ≡ true = ground arith in rw is refl

      sign : (n : ℕ) → sig_send2pgid calls (pos n) sig w ≡ sig_send2pgid calls (minus (pos n)) sig w
      sign zero = refl
      sign (suc n) = address (suc n)
