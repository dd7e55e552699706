-- ===== src/Signals/Tests.antt =====
-- A kernel whose memory is the mask of blocked signals, and the theorems at it.
use smpcil.Base.{
  minus, ℕ, ◌≡◌, ◌≢◌, refl, ap, arith, inl, inr, Bool-cases, Bool, true, false, not, ◌&&◌, ◌||◌,
  Option, none, some, [], ℤ, pos, negsuc, smp_ok, ◌==◌, if◌then◌else◌,
}
use smpcil.Libc.{Libc}
use smpcil.Error.{World}
use smpcil.Signals.{
  Calls, kill, sig_send2group, sig_send2allproc, sig_send2pgid, sig_mask_allset,
  sig_remove_from_set,
}
use smpcil.Signals.Send.{sig_send2pgid-targets}
use smpcil.Signals.Mask.{SetLaws, SameBut, sig_mask_allset-blocks, sig_remove_from_set-removes}

abbrev same : ℤ → ℤ → Bool
same (pos a) (pos b) = a == b
same (pos a) (negsuc b) = false
same (negsuc a) (pos b) = false
same (negsuc a) (negsuc b) = a == b

abbrev SigSet : Type 0
SigSet = ℤ → Bool

abbrev kernel : Libc
kernel = record {
  Mem = SigSet;
  malloc = λ n m. (some 8, m);
  memalign = λ n m. (some 8, m);
  free = λ p m. m;
  page_size = 4096;
  error_text = λ m. [];
}

abbrev mask_with : SigSet → Option SigSet → SigSet
mask_with m none = m
mask_with m (some s) = s

abbrev calls : Calls kernel
calls = record {
  Set = SigSet;
  Handler = Unit {0};
  kill = λ pid sig m. (pos 0, m);
  sigaction = λ sig act m. (pos 0, m);
  sigprocmask = λ how set m. (pos 0, m, mask_with m set);
  sigismember = λ s sig. if s sig then pos 1 else pos 0;
  sigaddset = λ s sig. (pos 0, λ n. same n sig || s n);
  sigdelset = λ s sig. (pos 0, λ n. not (same n sig) && s n);
  sigfillset = λ s. (pos 0, λ n. true);
  sigemptyset = λ s. (pos 0, λ n. false);
  sig_block = pos 0;
  sig_unblock = pos 1;
  sig_setmask = pos 2;
  zeroed = λ n. false;
  unwritten = λ n. true;
}

same_refl : (a : ℤ) → same a a ≡ true
same_refl (pos a) = ground arith
same_refl (negsuc a) = ground arith

same-eq : (a b : ℤ) → same a b ≡ true → a ≡ b
same-eq (pos a) (pos b) e = ap pos (ground arith)
same-eq (pos a) (negsuc b) e = absurd cc
same-eq (negsuc a) (pos b) e = absurd cc
same-eq (negsuc a) (negsuc b) e = ap negsuc (ground arith)

same_ne : (a b : ℤ) → a ≢ b → same a b ≡ false
same_ne a b ne = elim (Bool-cases (same a b)) [ inl e ↦ absurd (ne (same-eq a b e)) | inr e ↦ e ]

true_ne : false ≢ true
true_ne e = cc

abbrev calls_laws : SetLaws calls
calls_laws = record {
  Member = λ s n. s n ≡ true;
  Maskable = λ n. Unit {0};
  Blocked = λ m n. m n ≡ true;
  ismember_is = λ s sig is. rw is refl;
  delset_removes = λ s sig ok. (
    λ is. true_ne (rw (same_refl sig) at is),
    λ n ne. (λ is. rw (same_ne n sig ne) is, λ is. rw (same_ne n sig ne) at is),
  );
  fillset_fills = λ s ok sig may. refl;
  setmask_blocks = λ s m ok sig may is. is;
}

abbrev start : World kernel
start = record { mem = λ n. false; smp_errno = none }

abbrev all_blocked : World kernel
all_blocked = record { mem = λ n. true; smp_errno = none }

sig_send2pgid-targets_example :
    ((n : ℕ)
      → sig_send2pgid calls (pos n) (pos 9) start
        ≡ sig_send2pgid calls (minus (pos n)) (pos 9) start)
    × ((n : ℕ)
        → sig_send2pgid calls (pos n) (pos 9) start ≡ kill calls (minus (pos n)) (pos 9) start)
    × (sig_send2pgid calls (pos 0) (pos 9) start ≡ sig_send2group calls (pos 9) start)
    × (sig_send2pgid calls (pos 1) (pos 9) start ≡ sig_send2allproc calls (pos 9) start)
sig_send2pgid-targets_example = sig_send2pgid-targets calls (pos 9) start

mask_allset_run : sig_mask_allset calls start ≡ (smp_ok, all_blocked)
unfolding sig_mask_allset
mask_allset_run = refl

sig_mask_allset-blocks_example : true ≡ true
sig_mask_allset-blocks_example =
    sig_mask_allset-blocks calls calls_laws start all_blocked mask_allset_run (pos 15) tt

remove_run :
    sig_remove_from_set calls (pos 15) (some (λ n. true)) start
    ≡ (smp_ok, some (λ n. not (same n (pos 15)) && true), start)
unfolding sig_remove_from_set
remove_run = refl

sig_remove_from_set-removes_example :
    (¬ ((not (same (pos 15) (pos 15)) && true) ≡ true))
    × SameBut {S = SigSet}
        (λ s n. s n ≡ true)
        (pos 15)
        (λ n. true)
        (λ n. not (same n (pos 15)) && true)
sig_remove_from_set-removes_example =
    sig_remove_from_set-removes calls calls_laws (pos 15) (λ n. true)
      (λ n. not (same n (pos 15)) && true) start start remove_run
